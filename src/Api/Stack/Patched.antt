-- ===== src/Api/Stack/Patched.antt =====
-- PATCH /v1/places/{id}/accessibility of cmd/api/main.go through the generated bindings.
use inwheel_server.Prelude.{String, none, some, ◌≡◌, refl, if◌then◌else◌, ap, ◌∙◌}
use inwheel_server.Models.Profile.{AccessibilityProfile}
use inwheel_server.Middleware.Http.{Request, Exchange, http_error}
use inwheel_server.Api.Errors.{Chain}
use inwheel_server.Api.Places.{patch_place_accessibility}
use inwheel_server.Api.Bodies.{inject_request, with_raw_body}
use inwheel_server.Api.Bodies.Limited.{fits, around-bodies}
use inwheel_server.Api.Server.{State, patch_response, as_reply}
use inwheel_server.Api.Stack.{Program, Moment, max_body, on_refused, options, operations, wrapper}
use inwheel_server.Bindings.Params.{Bound, bound, unbound, path_id}
use inwheel_server.Bindings.Responses.{visit_patch}
use inwheel_server.Bindings.Wrapper
use inwheel_server.Bindings.Strict.{
  undecodable, respond, strictly, strict_patch_place_accessibility,
}

module _ {Bucket : Type 0} (p : Program Bucket) (m : Moment) where
  -- What the operation is meant to do with a request whose body has been read.
  abbrev pub patch_answer :
      Request
      → String
      → Bound Chain AccessibilityProfile
      → Exchange × State Bucket
      → Exchange × State Bucket
  patch_answer r id (unbound e) x = on_refused p m (undecodable e) r x
  patch_answer r id (bound a) (w, (l, (k, (db, reg)))) =
      let (answer, db') =
        patch_place_accessibility p.lib.pg p.lib.json r.api_key_id id (some a) r.body.content db in
      respond p.encoder (options p m) (visit_patch p.encoder) r
        (as_reply patch_response answer, (w, (l, (k, (db', reg)))))

  abbrev pub patch_read : Request → String → Exchange × State Bucket → Exchange × State Bucket
  patch_read r id (w, s) =
      let whole = with_raw_body r r.body.content in
      if fits max_body r.body
      then patch_answer whole id (p.decoder.profile whole.body) (w, s)
      else (http_error "failed to read request body\n" 400 w, s)

  abbrev pub patch_operation :
      Request → Bound Chain String → Exchange × State Bucket → Exchange × State Bucket
  patch_operation r (unbound e) x = on_refused p m e r x
  patch_operation r (bound id) x = patch_read r id x

  strict-lem :
      (r : Request) (content id : String) (d : Bound Chain AccessibilityProfile)
      (x : Exchange × State Bucket)
      → p.decoder.profile (with_raw_body r content).body ≡ d
      → (operations p m).patch_place_accessibility id (with_raw_body r content) x
        ≡ patch_answer (with_raw_body r content) id d x
  unfolding strict_patch_place_accessibility strictly inject_request
  strict-lem r content id (unbound e) x h = rw h refl
  strict-lem r content id (bound a) x h = rw h refl

  wrapped-lem :
      (r : Request) (id : Bound Chain String) (w : Exchange) (s : State Bucket)
      → r.body.max_bytes ≡ none
      → Wrapper.with_param p.runtime
          (wrapper p m)
          id
          (operations p m).patch_place_accessibility
          r
          (w, s)
        ≡ patch_operation r id (w, s)
  wrapped-lem r (unbound e) w s free = refl
  wrapped-lem r (bound id) w s free =
      let whole = with_raw_body r r.body.content in
      around-bodies max_body ((operations p m).patch_place_accessibility id) r w s free
      ∙ ap
          (λ (x : Exchange × State Bucket).
            if fits max_body r.body
            then x
            else (http_error "failed to read request body\n" 400 w, s))
          (strict-lem r r.body.content id (p.decoder.profile whole.body) (w, s) refl)

-- The wrapped operation answers a request to patch a profile as follows: with the validator's handler of
-- errors, if the id of the path does not bind; else with 400, if the body has more than 1 MiB or breaks; else
-- with that handler again, if the body does not decode; else with what PatchPlaceAccessibility gives for the
-- key in the context, that id, the decoded profile and the very text of the body: if the body has no limit
-- before.
pub patch-wrapped :
    {Bucket : Type 0} (p : Program Bucket) (m : Moment) (r : Request) (w : Exchange)
    (s : State Bucket)
    → r.body.max_bytes ≡ none
    → Wrapper.patch_place_accessibility p.runtime (wrapper p m) r (w, s)
      ≡ patch_operation p m r (path_id p.runtime r) (w, s)
patch-wrapped p m r w s free = wrapped-lem p m r (path_id p.runtime r) w s free
