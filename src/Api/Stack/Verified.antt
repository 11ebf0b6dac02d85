-- ===== src/Api/Stack/Verified.antt =====
-- What a PATCH that is answered with 200 leaves in the database of cmd/api.
use inwheel_server.Prelude.{
  ℕ, String, true, false, Option, none, some, List, [], ◌∷◌, ◌==◌, ◌≡◌, refl, ap, ◌∙◌, sym, subst,
  arith, any, eqb, inl, inr, Bool-cases,
}
use inwheel_server.Prelude.Result.{is_panic, Result, ok, err}
use inwheel_server.Models.Profile.{AccessibilityProfile}
use inwheel_server.Db.Quiet.{IsQuiet}
use inwheel_server.Middleware.Http.{Request, Exchange, set_header, write_header, write}
use inwheel_server.PlaceRepo.Profiles.Patched.{IsVerified}
use inwheel_server.Validation.{accessibility_profile}
use inwheel_server.Api.Errors.{Chain}
use inwheel_server.Api.Places.{
  PatchResponse, patched_200, patch_invalid_400, place_missing_404, patch_place_accessibility,
}
use inwheel_server.Api.Places.Kept.{patch-IsVerified}
use inwheel_server.Api.Bodies.{with_raw_body}
use inwheel_server.Api.Bodies.Limited.{fits}
use inwheel_server.Api.Server.{State, patch_response, as_reply}
use inwheel_server.Api.Stack.{Program, Moment, max_body, options, wrapper}
use inwheel_server.Api.Stack.Patched.{patch_answer, patch_read, patch_operation, patch-wrapped}
use inwheel_server.Api.Stack.Statuses.{
  respond-keeps, send_json-Shows, sent_or-IsAnswered, on_refused-IsAnswered,
}
use inwheel_server.Bindings.Params.{Bound, bound, unbound, path_id}
use inwheel_server.Bindings.Responses.{visit_patch}
use inwheel_server.Bindings.Wrapper
use inwheel_server.Bindings.Strict.{undecodable, respond}

abbrev failures : List ℕ
failures = 400 ∷ 401 ∷ 404 ∷ 429 ∷ 500 ∷ []

not_200 :
    {A : Type 0} (sent : Option ℕ)
    → (c : ℕ) × (sent ≡ some c) × (any (eqb c) failures ≡ true)
    → sent ≡ some 200
    → A
not_200 o (c, sent, listed) h = absurd (ground (arith, sent, listed, h))

module _ {Bucket : Type 0} (p : Program Bucket) (m : Moment) (r : Request) (w : Exchange)
    (fresh : w.sent ≡ none) where
  answered_200 :
      (x : Result PatchResponse) (s : State Bucket)
      → (respond p.encoder
          (options p m)
          (visit_patch p.encoder)
          r
          (as_reply patch_response x, (w, s))).0.sent
        ≡ some 200
      → (a : AccessibilityProfile) × (x ≡ ok (patched_200 a))
  unfolding visit_patch set_header write_header write
  answered_200 (ok (patched_200 a)) s h = (a, refl)
  answered_200 (ok (patch_invalid_400 es)) s h =
      not_200 _
        (sent_or-IsAnswered p m failures refl r s _ _
          (send_json-Shows p.encoder failures 400 _ w refl fresh))
        h
  answered_200 (ok place_missing_404) s h =
      not_200 _
        (sent_or-IsAnswered p m failures refl r s _ _
          (send_json-Shows p.encoder failures 404 _ w refl fresh))
        h
  answered_200 (err e) s h = elim (Bool-cases (is_panic e)) [
    | inl y ↦ absurd (cc (fresh, rw y at h))
    | inr n ↦ not_200 (some 500) (500, refl, refl) (rw (n, fresh) at h)
  ]

  patch_answer-IsVerified :
      (id : String) (d : Bound Chain AccessibilityProfile) (s : State Bucket)
      → (r.api_key_id == "") ≡ false
      → IsQuiet (s.1.1.0).script
      → (patch_answer p m r id d (w, s)).0.sent ≡ some 200
      → IsVerified id (patch_answer p m r id d (w, s)).1.1.1.0
  unfolding patch_place_accessibility
  patch_answer-IsVerified id (unbound e) s key quiet h =
      not_200 _
        (on_refused-IsAnswered p m r w s fresh failures (undecodable e) (refl, refl, refl, refl)) h
  patch_answer-IsVerified id (bound a) s key quiet h =
      let ran =
        patch_place_accessibility p.lib.pg p.lib.json r.api_key_id id (some a) r.body.content
          s.1.1.0 in
      let (x, done) = answered_200 ran.0 _ h in
      let after : State Bucket = (s.0, (s.1.0, (ran.1, s.1.1.1))) in
      subst (λ (t : State Bucket). IsVerified id t.1.1.0)
        (sym (respond-keeps p m r after (visit_patch p.encoder) (as_reply patch_response ran.0) w))
        (patch-IsVerified p.lib.pg p.lib.json r.api_key_id id r.body.content x s.1.1.0
          (accessibility_profile (some a)) key quiet done).0

patch_read-IsVerified :
    {Bucket : Type 0} (p : Program Bucket) (m : Moment) (r : Request) (w : Exchange)
    (s : State Bucket) (id : String)
    → w.sent ≡ none
    → IsQuiet (s.1.1.0).script
    → (r.api_key_id == "") ≡ false
    → (patch_read p m r id (w, s)).0.sent ≡ some 200
    → IsVerified id (patch_read p m r id (w, s)).1.1.1.0
unfolding set_header write_header write
patch_read-IsVerified p m r w s id fresh quiet key h =
    let whole = with_raw_body r r.body.content in
    elim (Bool-cases (fits max_body r.body)) [
      | inl y ↦ rw y (
          patch_answer-IsVerified p m whole w fresh id (p.decoder.profile whole.body) s key quiet
            (rw y at h))
      | inr n ↦ not_200 (some 400) (400, refl, refl) (rw (n, fresh) at h)
    ]

-- If a request to patch a profile, with a key in its context, is answered with 200, then the stored profile
-- of the place that its path names is verified: if nothing has been sent before, the body has no limit
-- before, and no other session writes profiles meanwhile; time may pass and statements may fail.
pub patch_200-IsVerified :
    {Bucket : Type 0} (p : Program Bucket) (m : Moment) (r : Request) (w : Exchange)
    (s : State Bucket) (id : String)
    → r.body.max_bytes ≡ none
    → w.sent ≡ none
    → IsQuiet (s.1.1.0).script
    → (r.api_key_id == "") ≡ false
    → path_id p.runtime r ≡ bound id
    → (Wrapper.patch_place_accessibility p.runtime (wrapper p m) r (w, s)).0.sent ≡ some 200
    → IsVerified id (Wrapper.patch_place_accessibility p.runtime (wrapper p m) r (w, s)).1.1.1.0
patch_200-IsVerified p m r w s id free fresh quiet key path h =
    let same = patch-wrapped p m r w s free ∙ ap (λ d. patch_operation p m r d (w, s)) path in
    subst (λ (x : Exchange × State _). IsVerified id x.1.1.1.0) (sym same)
      (patch_read-IsVerified p m r w s id fresh quiet key (ap (λ x. x.0.sent) (sym same) ∙ h))
