-- ===== src/Api/Bodies/Limited.antt =====
-- captureRawBody and bodySizeLimiter of cmd/api/main.go as the generated wrapper applies them.
use inwheel_server.Prelude.{
  ℕ, Bool, true, false, Option, none, some, [], ◌∷◌, ◌≡◌, refl, ◌&&◌, leb, if◌then◌else◌, inl, inr,
  Bool-cases, Option-cases,
}
use inwheel_server.Prelude.Result.{Error}
use inwheel_server.Middleware.Http.{Body, Request, Exchange, Handler, http_error}
use inwheel_server.Api.Bodies.{with_raw_body, capture_raw_body, body_size_limiter, read_all}
use inwheel_server.Bindings.Wrapper.{around}

abbrev is_none : Option Error → Bool
is_none none = true
is_none (some e) = false

-- What can be read whole, in the limit.
abbrev pub fits : ℕ → Body → Bool
fits n b = leb b.size n && is_none b.broken

-- With captureRawBody before bodySizeLimiter in the options, a request whose body has at most the limit's
-- bytes and does not break runs the handler once, with the body put back and its text in the context; any
-- other is answered with 400 and runs nothing: if the body has no limit before.
pub around-bodies :
    {S : Type 0} (n : ℕ) (next : Handler S) (r : Request) (w : Exchange) (s : S)
    → r.body.max_bytes ≡ none
    → around (capture_raw_body ∷ body_size_limiter n ∷ []) next r (w, s) ≡ (
        if fits n r.body
        then next (with_raw_body r r.body.content) (w, s)
        else (http_error "failed to read request body\n" 400 w, s))
unfolding around capture_raw_body body_size_limiter read_all
around-bodies n next r w s free = elim (Bool-cases (leb r.body.size n)) [
  | inr long ↦ rw (free, long) refl
  | inl short ↦ elim (Option-cases r.body.broken) [
    | inl whole ↦ rw (free, short, whole) refl
    | inr (e, broken) ↦ rw (free, short, broken) refl
  ]
]
