-- ===== src/Api/Stack/Always.antt =====
-- The handler that main of cmd/api serves, and the constraints on API keys.
use mathlib.Core.List.{Memᴰ}
use inwheel_server.Prelude.{
  String, Bool, Option, none, some, List, ◌≡◌, refl, sym, subst, ◌⊎◌, inl, inr, Bool-cases,
  Option-cases, All, ◌==◌,
}
use inwheel_server.Prelude.Result.{Result, ok, err}
use inwheel_server.PlaceRepo.Profiles.Untouched.{SameKeys, statement-SameKeys}
use inwheel_server.Middleware.Http.{Request, Exchange, Handler, set_header}
use inwheel_server.Middleware.RateLimiter.{allow, client_ip}
use inwheel_server.Middleware.PublicLimit.{public_rate_limit}
use inwheel_server.Middleware.Cors.{cors}
use inwheel_server.Middleware.Logging.{set_log_api_key_id, request_logger}
use inwheel_server.Api.Keys.{has_hash, find_body, authenticate}
use inwheel_server.Api.Keys.Unique.{HasUniqueKeys}
use inwheel_server.Api.Errors.{Chain}
use inwheel_server.Api.Main.{handle_docs, handle_healthz, handle_readyz, handle_open_api_spec}
use inwheel_server.Api.V1.{
  unless_refused, authenticated, authentication, spend, request_validator, v1_handler,
}
use inwheel_server.Api.Server.{State}
use inwheel_server.Api.Stack.{Program, Moment, v1_mux, built_v1, main_routes, final_handler}
use inwheel_server.Api.Stack.Constrained.{IsConstrained, Keeps, routes-Keep}

-- What http.ServeMux documents: a request runs one of the registered handlers, with the values of the path in
-- it, or is answered by the mux itself.
abbrev pub IsMux : {S : Type 0} → (List (String × Handler S) → Handler S) → Type 0
IsMux {S} serve =
    (routes : List (String × Handler S)) (r : Request) (w : Exchange) (s : S)
    → ((w' : Exchange) × (serve routes r (w, s) ≡ (w', s)))
      ⊎ ((pattern : String) × (h : Handler S) × Memᴰ (pattern, h) routes
          × (r' : Request) × (serve routes r (w, s) ≡ h r' (w, s)))

All-Mem : {A : Type 0} (P : A → Type 0) {x : A} {xs : List A} → Memᴰ x xs → All P xs → P x
All-Mem P (Memᴰ.head e) (h, k) = subst P (sym e) h
All-Mem P (Memᴰ.tail m) (h, k) = All-Mem P m k

module _ {Bucket : Type 0} where
  mux-Keeps :
      (serve : List (String × Handler (State Bucket)) → Handler (State Bucket))
      (routes : List (String × Handler (State Bucket)))
      → IsMux serve
      → All (λ (route : String × Handler (State Bucket)). Keeps route.1) routes
      → Keeps (serve routes)
  mux-Keeps serve routes mux keep r w s c = elim (mux routes r w s) [
    | inl (w', e) ↦ subst (λ (x : Exchange × State Bucket). IsConstrained x.1) (sym e) c
    | inr (pattern, h, there, r', e) ↦
        subst (λ (x : Exchange × State Bucket). IsConstrained x.1) (sym e)
          (All-Mem (λ (route : String × Handler (State Bucket)). Keeps route.1) there keep r' w s c)
  ]

  cors-Keeps : (origin : String) (h : Handler (State Bucket)) → Keeps h → Keeps (cors origin h)
  unfolding cors
  cors-Keeps origin h keep r w s c = elim (Bool-cases (origin == "")) [
    | inl y ↦ rw y (keep r w s c)
    | inr n ↦ elim (Bool-cases (r.headers "Origin" == origin)) [
      | inr m ↦ rw (n, m) (keep r (set_header "Vary" "Origin" w) s c)
      | inl y ↦ elim (Bool-cases (r.method == "OPTIONS")) [
        | inl o ↦ rw (n, y, o) c
        | inr o ↦ rw (n, y, o) (keep r _ s c)
      ]
    ]
  ]

module _ {Bucket : Type 0} (p : Program Bucket) (m : Moment) where
  limit-Keeps :
      (h : Handler (State Bucket))
      → Keeps h
      → Keeps (public_rate_limit p.env.lib p.env.fl p.env.net m.now h)
  unfolding public_rate_limit
  limit-Keeps h keep r w s c =
      let a = allow p.env.lib m.now (client_ip p.env.net.split_host_port r.remote_addr) s.0 in
      elim (Bool-cases (r.api_key_id == "")) [
        | inr n ↦ rw n (keep r w s c)
        | inl y ↦ elim (Bool-cases a.0) [
          | inl z ↦ rw (y, z) (keep r w (a.1, s.1) c)
          | inr z ↦ rw (y, z) c
        ]
      ]

  unless_refused-Keeps :
      (e : Option Chain) (h : Handler (State Bucket))
      → Keeps h
      → Keeps (unless_refused p.env m.now e h)
  unless_refused-Keeps none h keep r w s c = keep r w s c
  unless_refused-Keeps (some e) h keep r w s c = c

  authenticated-Keeps :
      (a : Result String) (h : Handler (State Bucket))
      → Keeps h
      → Keeps (authenticated p.env m.now a h)
  authenticated-Keeps (err e) h keep r w s c = c
  authenticated-Keeps (ok id) h keep r w s c =
      let r' = record r { api_key_id = id } in
      unless_refused-Keeps (p.env.open_api.validate r') h keep r' (set_log_api_key_id id w) s c

  authenticate-SameKeys :
      (hash_allows : String → Bool) (raw : String)
      → SameKeys (authenticate p.env.sha256_hex hash_allows raw)
  unfolding authenticate
  authenticate-SameKeys allows raw db = elim (Bool-cases (raw == "")) [
    | inl y ↦ rw y refl
    | inr n ↦ elim (Bool-cases (allows (p.env.sha256_hex raw))) [
      | inr z ↦ rw (n, z) refl
      | inl z ↦
          rw (n, z)
            (statement-SameKeys (find_body (has_hash (p.env.sha256_hex raw))) (λ s. refl) db)
    ]
  ]

  validator-Keeps : (h : Handler (State Bucket)) → Keeps h → Keeps (request_validator p.env m.now h)
  unfolding request_validator
  validator-Keeps h keep r w s c = elim (Option-cases (p.env.open_api.find_route r)) [
    | inr (e, lost) ↦ rw lost c
    | inl found ↦ elim (Bool-cases (p.env.open_api.requires_key r)) [
      | inr free ↦
          rw (found, free) (unless_refused-Keeps (p.env.open_api.validate r) h keep r w s c)
      | inl key ↦
          let a = authentication p.env m.now r s.1.0 s.1.1.0 in
          let same =
            authenticate-SameKeys (λ hash. (allow p.env.lib m.now hash s.1.0).0)
              (r.headers "X-API-Key") s.1.1.0 in
          rw (found, key)
            (authenticated-Keeps a.0 h keep r w
              (s.0, (spend p.env m.now (r.headers "X-API-Key") s.1.0, (a.1, s.1.1.1)))
              (subst HasUniqueKeys (sym same) c))
    ]
  ]

  built_v1-Keeps : IsMux p.serve_mux → Keeps (built_v1 p m)
  unfolding v1_handler
  built_v1-Keeps mux =
      let limited = public_rate_limit p.env.lib p.env.fl p.env.net m.now (v1_mux p m) in
      cors-Keeps p.env.cors_allowed_origin (request_validator p.env m.now limited) (
        validator-Keeps limited
          (limit-Keeps (v1_mux p m) (mux-Keeps p.serve_mux _ mux (routes-Keep p m))))

  main_routes-Keep :
      IsMux p.serve_mux
      → All (λ (route : String × Handler (State Bucket)). Keeps route.1) (main_routes p m)
  unfolding handle_docs handle_healthz handle_readyz handle_open_api_spec
  main_routes-Keep mux =
      (λ r w s c. c, (λ r w s c. c, (λ r w s c. c, (λ r w s c. c, (built_v1-Keeps mux, tt)))))

-- Whatever a request is, and whatever the server answers: if no digest and no id is there twice, and no
-- address has two active keys, then this is so after it. The two muxes run one of the handlers that
-- are registered, or answer by themselves.
pub final_handler-IsConstrained :
    {Bucket : Type 0} (p : Program Bucket) (m : Moment) (r : Request) (s : State Bucket)
    → IsMux p.serve_mux
    → IsConstrained s
    → IsConstrained (final_handler p m r s).2
unfolding final_handler request_logger
final_handler-IsConstrained p m r s mux c =
    mux-Keeps p.serve_mux (main_routes p m) mux (main_routes-Keep p m mux) r _ s c
