-- ===== src/Api/Keys/Tests.antt =====
-- Runs of the API key handlers, and witnesses of their theorems.
use inwheel_server.Prelude.{
  String, true, none, some, [], ◌∷◌, arith, ◌≡◌, ◌≢◌, refl, ◌==◌, if◌then◌else◌,
}
use inwheel_server.Prelude.Result.{ok}
use inwheel_server.Db.{ApiKey, Db, statement}
use inwheel_server.Samples.{server, city}
use inwheel_server.Validation.{email}
use inwheel_server.Api.Keys.{authenticate, revoke_key, revoked_204, register, registered_201}
use inwheel_server.Api.Keys.Registered.{authenticate-register}
use inwheel_server.Api.Keys.Unique.{HasUniqueKeys}
use inwheel_server.Api.Keys.Revoked.{authenticate-revoke_key}

abbrev digest : String → String
digest raw = if raw == "k1" then "h1" else "h2"

-- The database after a registration at time 100.
abbrev keyed : Db
keyed = (register digest server (λ e. true) true "a@b.org" (some "k1") city).1

register_new :
    (register digest server (λ e. true) true "a@b.org" (some "k1") city).0
    ≡ ok (registered_201 "k1" 100 "a@b.org")
unfolding register email statement
register_new = refl

authenticate_new : (authenticate digest (λ h. true) "k1" keyed).0 ≡ ok "u0"
unfolding register email authenticate statement
authenticate_new = refl

revoke_new : (revoke_key digest "k1" keyed).0 ≡ ok revoked_204
unfolding register email revoke_key statement
revoke_new = refl

authenticate-revoke_key_example :
    (authenticate digest (λ h. true) "k1" (revoke_key digest "k1" keyed).1).0 ≢ ok "u0"
authenticate-revoke_key_example =
    authenticate-revoke_key digest (λ h. true) "k1" "u0" keyed revoke_new

abbrev alice : ApiKey
alice = record { id = "u9"; email = "c@d.org"; key_hash = "h1"; created_at = 1; revoked_at = none }

abbrev one_key : Db
one_key = record city { api_keys = alice ∷ [] }

one_key-HasUniqueKeys : HasUniqueKeys one_key.api_keys
one_key-HasUniqueKeys = record {
  hashes = λ h. ground arith;
  ids = λ id. ground arith;
  emails = λ e. ground arith;
}

authenticate-register_example :
    let after = (register digest server (λ e. true) true "a@b.org" (some "k1") city).1 in
    ((authenticate digest (λ h. true) "k1" after).0 ≡ ok "u0")
    × ((revoke_key digest "k1" after).0 ≡ ok revoked_204)
authenticate-register_example =
    authenticate-register digest server (λ e. true) (λ h. true) true "a@b.org" "k1" 100 "a@b.org"
      city refl refl refl register_new
