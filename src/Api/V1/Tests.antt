-- ===== src/Api/V1/Tests.antt =====
-- Requests to cmd/api that change a place's profile, with a key, without one and with too many.
use inwheel_server.Prelude.{
  ℕ, String, true, false, none, some, [], ◌∷◌, ◌≡◌, refl, ◌⊎◌, ◌==◌, if◌then◌else◌,
}
use inwheel_server.Prelude.Result.{ok, is_sentinel}
use inwheel_server.Models.Profile.{Time}
use inwheel_server.Db.{ApiKey, Db, statement}
use inwheel_server.Middleware.Http.{
  no_body, Request, Exchange, Handler, set_header, write_header, write,
}
use inwheel_server.Middleware.RateLimiter.{RateLimiter, new_rate_limiter, allow}
use inwheel_server.Middleware.PublicLimit.{public_rate_limit}
use inwheel_server.Middleware.Cors.{cors}
use inwheel_server.Middleware.Logging.{warn, request_logger}
use inwheel_server.Middleware.Tests.{two_tokens}
use inwheel_server.Api.Keys.{authenticate, unauthorized}
use inwheel_server.Api.Errors.{validation_error_handler}
use inwheel_server.Api.V1.{
  ServerState, Environment, spend, authentication, request_validator, v1_handler,
}
use inwheel_server.Api.V1.Protected.{v1_handler-protected}
use inwheel_server.Api.V1.Refused.{v1_handler-refused}
use inwheel_server.Samples.{thousandths, city}

abbrev pub alice : ApiKey
alice = record { id = "u0"; email = "a@b.org"; key_hash = "k1"; created_at = 1; revoked_at = none }

abbrev keyed : Db
keyed = record city { api_keys = alice ∷ [] }

-- Every operation but GET asks for a key.
abbrev pub env : Environment (ℕ × Time)
env = record {
  lib = two_tokens;
  fl = thousandths;
  net = record { itoa = λ n. "1"; ceil = λ n. n; split_host_port = λ s. none };
  marshal = λ f. some "{}";
  sha256_hex = λ raw. raw;
  open_api = record {
    find_route = λ r. none;
    requires_key = λ r. if r.method == "GET" then false else true;
    validate = λ r. none;
    security_text = λ e. "security requirements failed";
  };
  cors_allowed_origin = "https://inwheel.org";
}

abbrev pub limiter : RateLimiter (ℕ × Time)
limiter = new_rate_limiter 1000 2

abbrev pub patch_with : String → Request
patch_with raw = record {
  method = "PATCH";
  path = "/v1/places/p1/accessibility";
  headers = λ h. if h == "X-API-Key" then raw else "";
  remote_addr = "10.0.0.1:1";
  api_key_id = "";
  body = no_body;
  raw_body = none;
  path_value = λ s. "";
}

abbrev pub start : Exchange
start = record { headers = []; sent = none; recorded = 200; body = []; log_api_key_id = "" }

abbrev Keep : Type 0
Keep = ServerState (ℕ × Time) (Unit {0})

abbrev state : Db → Keep
state db = (limiter, (limiter, (db, tt)))

-- A mux that answers 200.
abbrev done : Handler Keep
done r (w, s) = (write "done" w, s)

patch_keyed : (v1_handler env 5 done (patch_with "k1") (start, state keyed)).0.sent ≡ some 200
unfolding v1_handler cors set_header request_validator authenticate allow statement
    public_rate_limit write
patch_keyed = refl

log_of_keyed :
    (request_logger
      (λ s. none)
      "q1"
      (v1_handler env 5 done)
      (patch_with "k2")
      (state keyed)).0.level
    ≡ warn
unfolding request_logger v1_handler cors set_header request_validator authenticate allow statement
    validation_error_handler write_header write is_sentinel
log_of_keyed = refl

v1_handler-protected_example :
    ((y : Exchange × Keep) × ((v1_mux : Handler Keep)
        → v1_handler env 5 v1_mux (patch_with "k1") (start, state keyed) ≡ y))
    ⊎ ((id : String) × (x : Exchange × Keep) × ((authentication env 5
            (patch_with "k1")
            limiter
            keyed).0
          ≡ ok id)
        × ((v1_mux : Handler Keep)
            → v1_handler env 5 v1_mux (patch_with "k1") (start, state keyed)
              ≡ v1_mux (record (patch_with "k1") { api_key_id = id }) x))
v1_handler-protected_example =
    v1_handler-protected env 5 (patch_with "k1") start limiter limiter keyed tt refl

v1_handler-refused_example :
    ((v1_handler env 5 done (patch_with "k2") (start, state keyed)).0.sent ≡ some 401)
    × ((v1_handler env 5 done (patch_with "k2") (start, state keyed)).1
        ≡ (limiter, (spend env 5 "k2" limiter, (keyed, tt))))
unfolding authenticate statement allow is_sentinel
v1_handler-refused_example =
    v1_handler-refused env 5 done (patch_with "k2") start limiter limiter keyed tt unauthorized refl
      refl refl refl refl
