-- ===== src/Api/V1.antt =====
-- buildV1Handler of cmd/api/main.go, with `authenticate` of cmd/api/auth.go in it. The OpenAPI validator
-- (kin-openapi with its net/http middleware) is a parameter: it finds the route, then asks for the key
-- where the operation has the security ApiKeyAuth, then checks the parameters and the body. The mux with
-- the generated wrapper is a handler that is given. `now` is time.Now() at the request.
pub mod Protected
pub mod Refused
pub mod Tests
use inwheel_server.Prelude.{String, Bool, Option, none, some, List, [], ◌∷◌, ◌==◌, if◌then◌else◌}
use inwheel_server.Prelude.Result.{Error, Result, ok, err}
use inwheel_server.Float64.{F64, Arithmetic}
use inwheel_server.Models.Profile.{Time}
use inwheel_server.Db.{Db}
use inwheel_server.Middleware.Http.{Request, Exchange, Handler}
use inwheel_server.Middleware.RateLimiter.{RateLibrary, RateLimiter, allow}
use inwheel_server.Middleware.PublicLimit.{Network, public_rate_limit}
use inwheel_server.Middleware.Cors.{cors}
use inwheel_server.Middleware.Logging.{set_log_api_key_id}
use inwheel_server.Api.Keys.{authenticate}
use inwheel_server.Api.Errors.{Chain, security_requirements, validation_error_handler}

-- `security_text` is the text of a SecurityRequirementsError.
pub record OpenApi : Type 0 where
  pub find_route : Request → Option Chain
  pub requires_key : Request → Bool
  pub validate : Request → Option Chain
  pub security_text : Error → String

-- The limiter of readers, that of the keys, the database, and what else the handlers keep.
abbrev pub ServerState : Type 0 → Type 0 → Type 0
ServerState Bucket S = RateLimiter Bucket × (RateLimiter Bucket × (Db × S))

pub record Environment (Bucket : Type 0) : Type 0 where
  pub lib : RateLibrary Bucket
  pub fl : Arithmetic
  pub net : Network
  pub marshal : String × String → Option String
  pub sha256_hex : String → String
  pub open_api : OpenApi
  pub cors_allowed_origin : String

module _ {Bucket : Type 0} (env : Environment Bucket) (now : Time) where
  -- The key's digest takes a token, if there is a key.
  abbrev pub spend : String → RateLimiter Bucket → RateLimiter Bucket
  spend raw l = if raw == "" then l else (allow env.lib now (env.sha256_hex raw) l).1

  abbrev pub authentication : Request → RateLimiter Bucket → Db → Result String × Db
  authentication r l db =
      authenticate env.sha256_hex (λ hash. (allow env.lib now hash l).0) (r.headers "X-API-Key") db

  module _ {S : Type 0} where
    abbrev pub refused : Chain → Exchange × ServerState Bucket S → Exchange × ServerState Bucket S
    refused e (w, (l, (k, s))) =
        (validation_error_handler env.net env.fl env.marshal k.r e w, (l, (k, s)))

    abbrev pub unless_refused :
        Option Chain → Handler (ServerState Bucket S) → Handler (ServerState Bucket S)
    unless_refused none next r x = next r x
    unless_refused (some e) next r x = refused e x

    -- The context of the request and the log line get the id of the key.
    abbrev pub authenticated :
        Result String → Handler (ServerState Bucket S) → Handler (ServerState Bucket S)
    authenticated (err e) next r x =
        refused ((security_requirements (e ∷ []), env.open_api.security_text e), []) x
    authenticated (ok id) next r (w, s) =
        let r' = record r { api_key_id = id } in
        unless_refused (env.open_api.validate r') next r' (set_log_api_key_id id w, s)

    abbrev pub secured : Handler (ServerState Bucket S) → Handler (ServerState Bucket S)
    secured next r (w, (l, (k, (db, s)))) =
        let (id, db') = authentication r k db in
        authenticated id next r (w, (l, (spend (r.headers "X-API-Key") k, (db', s))))

    abbrev pub routed :
        Option Chain → Handler (ServerState Bucket S) → Handler (ServerState Bucket S)
    routed (some e) next r x = refused e x
    routed none next r x =
        if env.open_api.requires_key r
        then secured next r x
        else unless_refused (env.open_api.validate r) next r x

    -- OapiRequestValidatorWithOptions
    unfoldable pub request_validator :
        Handler (ServerState Bucket S) → Handler (ServerState Bucket S)
    request_validator next r x = routed (env.open_api.find_route r) next r x

    unfoldable pub v1_handler : Handler (ServerState Bucket S) → Handler (ServerState Bucket S)
    v1_handler v1_mux =
        cors env.cors_allowed_origin
          (request_validator (public_rate_limit env.lib env.fl env.net now v1_mux))
