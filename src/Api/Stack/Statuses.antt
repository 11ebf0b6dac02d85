-- ===== src/Api/Stack/Statuses.antt =====
-- The statuses that the operations of cmd/api answer through the generated bindings.
use inwheel_server.Prelude.{
  ℕ, String, true, Option, none, some, List, ◌≡◌, refl, any, eqb, ◌⊎◌, inl, inr, arith, Bool-cases,
  Option-cases,
}
use inwheel_server.Prelude.Result.{Error, is_sentinel, is_panic, Result, ok, err}
use inwheel_server.Middleware.Http.{Request, Exchange, set_header, write_header, write}
use inwheel_server.Float64.{F64, Arithmetic}
use inwheel_server.Middleware.PublicLimit.{Network}
use inwheel_server.Api.Errors.{
  Chain, members, find_as, as_security, extract_field_error, refuse, validation_error_handler,
}
use inwheel_server.Api.Server.{State}
use inwheel_server.Api.Stack.{Program, Moment, on_refused, options}
use inwheel_server.Bindings.Responses.{Encoder, send_json}
use inwheel_server.Bindings.Strict.{Reply, nil_reply, reply, unexpected, sent_or, respond}

-- One of the statuses has been sent.
abbrev pub IsAnswered : List ℕ → Exchange → Type 0
IsAnswered codes w = (c : ℕ) × (w.sent ≡ some c) × (any (eqb c) codes ≡ true)

-- Or else an error is left, and nothing has been sent.
abbrev pub Shows : List ℕ → Option Error × Exchange → Type 0
Shows codes (o, w) = ((e : Error) × (o ≡ some e) × (w.sent ≡ none)) ⊎ IsAnswered codes w

pub send_json-Shows :
    (enc : Encoder) (codes : List ℕ) (code : ℕ) (payload : Result String) (w : Exchange)
    → any (eqb code) codes ≡ true
    → w.sent ≡ none
    → Shows codes (send_json enc code payload w)
unfolding set_header write_header write
send_json-Shows enc codes code (err e) w listed fresh = inl (e, refl, fresh)
send_json-Shows enc codes code (ok s) w listed fresh = inr (code, rw fresh refl, listed)

module _ {Bucket : Type 0} (p : Program Bucket) (m : Moment) (codes : List ℕ)
    (failing : any (eqb 500) codes ≡ true) where
  pub sent_or-IsAnswered :
      (r : Request) (s : State Bucket) (o : Option Error) (w : Exchange)
      → Shows codes (o, w)
      → IsAnswered codes (sent_or p.encoder (options p m) r s (o, w)).0
  unfolding set_header write_header write
  sent_or-IsAnswered r s none w (inl (e, h, fresh)) = absurd (ground (arith, h))
  sent_or-IsAnswered r s none w (inr answered) = answered
  sent_or-IsAnswered r s (some e) w (inl (e', h, fresh)) = (500, rw fresh refl, failing)
  sent_or-IsAnswered r s (some e) w (inr (c, sent, listed)) = (c, rw sent refl, listed)

-- To send the response leaves the server's state as it is.
module _ {Bucket : Type 0} (p : Program Bucket) (m : Moment) (r : Request) (s : State Bucket) where
  sent_or-keeps :
      (o : Option Error) (w : Exchange) → (sent_or p.encoder (options p m) r s (o, w)).1 ≡ s
  sent_or-keeps none w = refl
  sent_or-keeps (some e) w = refl

  pub respond-keeps :
      {A : Type 0} (visit : A → Exchange → Option Error × Exchange) (x : Result (Reply A))
      (w : Exchange)
      → (respond p.encoder (options p m) visit r (x, (w, s))).1 ≡ s
  respond-keeps visit (ok nil_reply) w = refl
  respond-keeps visit (ok (reply a)) w = sent_or-keeps (visit a w).0 (visit a w).1
  respond-keeps visit (ok (unexpected t)) w = refl
  respond-keeps visit (err e) w = elim (Bool-cases (is_panic e)) [
    | inl y ↦ rw y refl
    | inr n ↦ rw n refl
  ]

-- The refusals: 400, 401, 429 and 500.
abbrev pub AllowsRefusal : List ℕ → Type 0
AllowsRefusal codes =
    (any (eqb 400) codes ≡ true)
    × (any (eqb 401) codes ≡ true)
    × (any (eqb 429) codes ≡ true)
    × (any (eqb 500) codes ≡ true)

module _ (net : Network) (fl : Arithmetic) (marshal : String × String → Option String) (rate : F64)
    (codes : List ℕ) (w : Exchange) (fresh : w.sent ≡ none) where
  pub refuse-IsAnswered :
      AllowsRefusal codes
      → (es : Option (List Error)) (e : Chain)
      → IsAnswered codes (refuse net fl marshal rate es e w)
  unfolding set_header write_header write
  refuse-IsAnswered (bad, key, many, failing) (some es) e =
      elim (Bool-cases (any (is_sentinel "rate limit exceeded") es)) [
        | inl y ↦ (429, rw (y, fresh) refl, many)
        | inr n ↦ (401, rw (n, fresh) refl, key)
      ]
  refuse-IsAnswered (bad, key, many, failing) none e =
      elim (Option-cases (marshal (extract_field_error e))) [
        | inl failed ↦ (500, rw (failed, fresh) refl, failing)
        | inr (text, made) ↦ (400, rw (made, fresh) refl, bad)
      ]

pub on_refused-IsAnswered :
    {Bucket : Type 0} (p : Program Bucket) (m : Moment) (r : Request) (w : Exchange)
    (s : State Bucket)
    → w.sent ≡ none
    → (codes : List ℕ) (e : Chain) → AllowsRefusal codes
    → IsAnswered codes (on_refused p m e r (w, s)).0
unfolding validation_error_handler
on_refused-IsAnswered p m r w s fresh codes e allowed =
    refuse-IsAnswered p.env.net p.env.fl p.env.marshal (s.1.0).r codes w fresh allowed
      (find_as as_security (members e)) e
