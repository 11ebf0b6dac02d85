-- ===== src/Api/Stack/Constrained.antt =====
-- The operations of cmd/api through the generated bindings, and the constraints on API keys.
use inwheel_server.Prelude.{String, true, none, some, sym, subst, All, inl, inr}
use inwheel_server.Prelude.Result.{Result, ok, err, Action}
use inwheel_server.Db.{Db}
use inwheel_server.PlaceRepo.Profiles.Untouched.{SameKeys}
use inwheel_server.Middleware.Http.{Request, Exchange, Handler}
use inwheel_server.Middleware.RateLimiter.{allow, client_ip}
use inwheel_server.Api.Keys.Unique.{HasUniqueKeys, KeepsKeys, register-HasUniqueKeys}
use inwheel_server.Api.List.{ListParams, list_places}
use inwheel_server.Api.List.Untouched.{list_places-SameKeys}
use inwheel_server.Api.Places.{create_place, get_place, patch_place_accessibility}
use inwheel_server.Api.Places.Untouched.{patch-SameKeys, create_place-SameKeys, get_place-SameKeys}
use inwheel_server.Api.Errors.{Chain}
use inwheel_server.Api.Bodies.{
  captured, capture_raw_body, body_size_limiter, inject_request, limit_body, read_all,
}
use inwheel_server.Api.Server
use inwheel_server.Api.Server.{State}
use inwheel_server.Api.Stack.{
  Program, Moment, max_body, body_middlewares, options, operations, wrapper,
}
use inwheel_server.Api.Stack.Statuses.{respond-keeps}
use inwheel_server.Bindings.Params.{Bound, Bound-cases, bound, unbound, list_places_params, path_id}
use inwheel_server.Bindings.Responses.{
  visit_revoke_key, visit_register, visit_list_places, visit_create_place, visit_get_place,
  visit_patch,
}
use inwheel_server.Bindings.Wrapper
use inwheel_server.Bindings.Wrapper.{around, routes}
use inwheel_server.Bindings.Strict.{
  respond, strictly, strict_revoke_key, strict_register, strict_list_places, strict_create_place,
  strict_get_place, strict_patch_place_accessibility,
}

abbrev pub IsConstrained : {Bucket : Type 0} → State Bucket → Type 0
IsConstrained s = HasUniqueKeys (s.1.1.0).api_keys

-- A handler that keeps the constraints on the keys.
abbrev pub Keeps : {Bucket : Type 0} → Handler (State Bucket) → Type 0
Keeps {Bucket} h =
    (r : Request) (w : Exchange) (s : State Bucket) → IsConstrained s → IsConstrained (h r (w, s)).1

unchanged : {A : Type 0} (m : Action Db A) → SameKeys m → KeepsKeys m
unchanged m same db h = subst HasUniqueKeys (sym (same db)) h

module _ {Bucket : Type 0} (p : Program Bucket) (m : Moment) where
  list_places-Keeps : (params : ListParams) → Keeps ((operations p m).list_places params)
  unfolding strict_list_places strictly inject_request
  list_places-Keeps params r w s h =
      subst IsConstrained (sym (respond-keeps p m r _ (visit_list_places p.encoder) _ w)) (
        unchanged (list_places p.env.fl p.lib.codecs p.lib.pg params)
          (list_places-SameKeys p.env.fl p.lib.codecs p.lib.pg params) s.1.1.0 h)

  get_place-Keeps : (id : String) → Keeps ((operations p m).get_place id)
  unfolding strict_get_place strictly inject_request
  get_place-Keeps id r w s h =
      subst IsConstrained (sym (respond-keeps p m r _ (visit_get_place p.encoder) _ w))
        (unchanged (get_place id) (get_place-SameKeys id) s.1.1.0 h)

  revoke_key-Keeps : Keeps (operations p m).revoke_key
  unfolding strict_revoke_key strictly inject_request
  revoke_key-Keeps r w s h =
      let kept =
        register-HasUniqueKeys p.env.sha256_hex p.lib.pg p.lib.email_regex true ""
          (r.headers "X-API-Key") none s.1.1.0 h in
      subst IsConstrained (sym (respond-keeps p m r _ (visit_revoke_key p.encoder) _ w)) kept.1

  registered-Keeps :
      (e : String) (r : Request) (w : Exchange) (s : State Bucket)
      → IsConstrained s
      → IsConstrained
          (respond p.encoder (options p m) (visit_register p.encoder) r (
            (Server.register_step p.env p.lib m.now m.random
                (record { request = some r; api_key_id = r.api_key_id })
                e
                s).0,
            (
              w,
              (Server.register_step p.env p.lib m.now m.random
                  (record { request = some r; api_key_id = r.api_key_id })
                  e
                  s).1,
            ),
          )).1
  registered-Keeps e r w s h =
      let allowed =
        (allow p.env.lib m.now (client_ip p.env.net.split_host_port r.remote_addr) s.1.1.1).0 in
      let kept =
        register-HasUniqueKeys p.env.sha256_hex p.lib.pg p.lib.email_regex allowed e ""
          (Server.generate_key p.lib.hex m.random) s.1.1.0 h in
      subst IsConstrained (sym (respond-keeps p m r _ (visit_register p.encoder) _ w)) kept.0

  register-Keeps : Keeps (operations p m).register
  unfolding strict_register strictly inject_request
  register-Keeps r w s h = elim (Bound-cases (p.decoder.email r.body)) [
    | inl (e, made) ↦ rw made (registered-Keeps e r w s h)
    | inr (e, bad) ↦ rw bad h
  ]

  create_place-Keeps : Keeps (operations p m).create_place
  unfolding strict_create_place strictly inject_request
  create_place-Keeps r w s h = elim (Bound-cases (p.decoder.place r.body)) [
    | inl (q, made) ↦ rw made (
        subst IsConstrained (sym (respond-keeps p m r _ (visit_create_place p.encoder) _ w)) (
          unchanged (create_place p.lib.pg r.api_key_id q)
            (create_place-SameKeys p.lib.pg r.api_key_id q) s.1.1.0 h))
    | inr (e, bad) ↦ rw bad h
  ]

  patch-Keeps : (id : String) → Keeps ((operations p m).patch_place_accessibility id)
  unfolding strict_patch_place_accessibility strictly inject_request
  patch-Keeps id r w s h = elim (Bound-cases (p.decoder.profile r.body)) [
    | inl (a, made) ↦ rw made (
        subst IsConstrained (sym (respond-keeps p m r _ (visit_patch p.encoder) _ w)) (
          unchanged
            (patch_place_accessibility p.lib.pg p.lib.json r.api_key_id id (some a)
              (Server.raw_or r.raw_body))
            (patch-SameKeys p.lib.pg r.api_key_id p.lib.json id (Server.raw_or r.raw_body) (some a))
            s.1.1.0 h))
    | inr (e, bad) ↦ rw bad h
  ]

captured-Keeps :
    {Bucket : Type 0} (h : Handler (State Bucket)) (c : Result String)
    → Keeps h
    → Keeps (captured c h)
captured-Keeps h (ok content) keeps r w s c = keeps _ w s c
captured-Keeps h (err e) keeps r w s c = c

around-Keeps :
    {Bucket : Type 0} (h : Handler (State Bucket)) → Keeps h → Keeps (around body_middlewares h)
unfolding around capture_raw_body body_size_limiter
around-Keeps h keeps r w s c =
    let limited = limit_body max_body r in
    captured-Keeps h (read_all limited.body) keeps limited w s c

module _ {Bucket : Type 0} (p : Program Bucket) (m : Moment) where
  with_param-Keeps :
      {A : Type 0} (d : Bound Chain A) (h : A → Handler (State Bucket))
      → ((a : A) → Keeps (h a))
      → Keeps (Wrapper.with_param p.runtime (wrapper p m) d h)
  with_param-Keeps (bound a) h keeps r w s c = around-Keeps (h a) (keeps a) r w s c
  with_param-Keeps (unbound e) h keeps r w s c = c

  -- Every handler of the mux of v1 keeps the constraints.
  pub routes-Keep :
      All
        (λ (route : String × Handler (State Bucket)). Keeps route.1)
        (routes p.runtime (wrapper p m) "/v1")
  unfolding routes
  routes-Keep = (
    around-Keeps (operations p m).revoke_key (revoke_key-Keeps p m),
    (
      around-Keeps (operations p m).register (register-Keeps p m),
      (
        λ r.
            with_param-Keeps (list_places_params p.runtime r) (operations p m).list_places
              (list_places-Keeps p m) r,
        (
          around-Keeps (operations p m).create_place (create_place-Keeps p m),
          (
            λ r.
                with_param-Keeps (path_id p.runtime r) (operations p m).get_place
                  (get_place-Keeps p m) r,
            (
              λ r.
                  with_param-Keeps (path_id p.runtime r) (operations p m).patch_place_accessibility
                    (patch-Keeps p m) r,
              tt,
            ),
          ),
        ),
      ),
    ),
  )
