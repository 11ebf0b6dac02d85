-- ===== src/Api/V1/Refused.antt =====
-- What buildV1Handler of cmd/api/main.go answers when authentication fails.
use inwheel_server.Prelude.{
  String, true, false, none, some, [], ◌∷◌, ◌≡◌, refl, ap, ◌∙◌, inl, inr, ◌==◌, if◌then◌else◌,
  Bool-cases, arith,
}
use inwheel_server.Prelude.Result.{Error, err, is_sentinel}
use inwheel_server.Float64.{F64}
use inwheel_server.Models.Profile.{Time}
use inwheel_server.Db.{Db}
use inwheel_server.Middleware.Http.{Request, Exchange, Handler, set_header, write_header, write}
use inwheel_server.Middleware.RateLimiter.{RateLimiter}
use inwheel_server.Middleware.PublicLimit.{public_rate_limit}
use inwheel_server.Middleware.Cors.{cors}
use inwheel_server.Api.Errors.{security_error, validation_error_handler}
use inwheel_server.Api.V1.{
  ServerState, Environment, spend, authentication, authenticated, request_validator, v1_handler,
}

-- CORS answers nothing but a preflight by itself.
cors-other :
    {S : Type 0} (origin : String) (next : Handler S) (r : Request) (w : Exchange) (s : S)
    → (r.method == "OPTIONS") ≡ false
    → (w' : Exchange) × (w'.sent ≡ w.sent) × (cors origin next r (w, s) ≡ next r (w', s))
unfolding cors set_header
cors-other origin next r w s other = elim (Bool-cases (origin == "")) [
  | inl off ↦ (w, refl, rw off refl)
  | inr on ↦ elim (Bool-cases (r.headers "Origin" == origin)) [
    | inr foreign ↦ (set_header "Vary" "Origin" w, refl, rw (on, foreign) refl)
    | inl same ↦ (
      set_header "Access-Control-Allow-Origin" (r.headers "Origin") (set_header "Vary" "Origin" w),
      refl,
      rw (on, same, other) refl,
    )
  ]
]

module _ {Bucket : Type 0} (env : Environment Bucket) where
  security_error-status :
      (rate : F64) (e : Error) (w : Exchange)
      → w.sent ≡ none
      → (security_error env.net env.fl env.marshal rate (e ∷ []) w).sent
        ≡ some (if is_sentinel "rate limit exceeded" e then 429 else 401)
  unfolding set_header write_header write
  security_error-status rate e w fresh = ground (arith, fresh)

  module _ {S : Type 0} (now : Time) (next : Handler (ServerState Bucket S)) (r : Request)
      (w : Exchange) (l k : RateLimiter Bucket) (db : Db) (s : S) where
    request_validator-refused :
        (e : Error)
        → env.open_api.find_route r ≡ none
        → env.open_api.requires_key r ≡ true
        → (authentication env now r k db).0 ≡ err e
        → request_validator env now next r (w, (l, (k, (db, s)))) ≡ (
          security_error env.net env.fl env.marshal
              (spend env now (r.headers "X-API-Key") k).r
              (e ∷ [])
              w,
          (l, (spend env now (r.headers "X-API-Key") k, ((authentication env now r k db).1, s))),
        )
    unfolding request_validator validation_error_handler
    request_validator-refused e found key failed =
        rw (found, key)
          (ap
            (λ a. authenticated env now a next r (
              w,
              (
                l,
                (spend env now (r.headers "X-API-Key") k, ((authentication env now r k db).1, s)),
              ),
            ))
            failed)

-- On an operation that requires a key, a request other than OPTIONS whose authentication fails is
-- answered with 429 if the error is that of the limiter of the keys, and with 401 for any other error,
-- one of the database included. The limiter of the keys and the database are as authentication leaves
-- them, and the rest of the state is unchanged.
pub v1_handler-refused :
    {Bucket S : Type 0} (env : Environment Bucket) (now : Time)
    (v1_mux : Handler (ServerState Bucket S)) (r : Request) (w : Exchange)
    (l k : RateLimiter Bucket) (db : Db) (s : S) (e : Error)
    → env.open_api.find_route r ≡ none
    → env.open_api.requires_key r ≡ true
    → (r.method == "OPTIONS") ≡ false
    → w.sent ≡ none
    → (authentication env now r k db).0 ≡ err e
    → let out = v1_handler env now v1_mux r (w, (l, (k, (db, s)))) in
      (out.0.sent ≡ some (if is_sentinel "rate limit exceeded" e then 429 else 401))
      × (out.1
          ≡ (l, (spend env now (r.headers "X-API-Key") k, ((authentication env now r k db).1, s))))
unfolding v1_handler
v1_handler-refused env now v1_mux r w l k db s e found key other fresh failed =
    let next = public_rate_limit env.lib env.fl env.net now v1_mux in
    let (w', same, passed) =
      cors-other env.cors_allowed_origin (request_validator env now next) r w (l, (k, (db, s)))
        other in
    let answer = passed ∙ request_validator-refused env now next r w' l k db s e found key failed in
    let rate = (spend env now (r.headers "X-API-Key") k).r in
    (
      ap (λ y. y.0.sent) answer ∙ security_error-status env rate e w' (same ∙ fresh),
      ap (λ y. y.1) answer,
    )
