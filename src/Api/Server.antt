-- ===== src/Api/Server.antt =====
-- Server of cmd/api/main.go as the StrictServerInterface of internal/api/v1/server.gen.go: the handlers
-- with what they take from the context, and their answers as the generated responses. The state is that
-- of the server, with the limiter of registrations last.
use inwheel_server.Prelude.{String, Bool, true, Option, none, some, List, [], ◌∷◌}
use inwheel_server.Prelude.Texts.{append}
use inwheel_server.Prelude.Result.{panic, Result, ok, err, Action}
use inwheel_server.Models.Profile.{Time, AccessibilityProfile}
use inwheel_server.Db.{Db, Postgres}
use inwheel_server.Pagination.{Codecs}
use inwheel_server.PlaceRepo.Profiles.{JsonPatch}
use inwheel_server.Validation.{FieldError, accessibility_profile}
use inwheel_server.Middleware.Http.{Request}
use inwheel_server.Middleware.RateLimiter.{RateLimiter, allow, client_ip}
use inwheel_server.Api.Keys.{
  RevokeResponse, RegisterResponse, revoke_key, register, revoked_204, unauthorized_401,
  registered_201, rejected_400, conflict_409, limited_429,
}
use inwheel_server.Api.List.{ListResponse, page_200, invalid_400, list_places}
use inwheel_server.Api.Places.{
  CreateResponse, GetResponse, PatchResponse, create_place, get_place, patch_place_accessibility,
  created_201, create_invalid_400, found_200, missing_404, patched_200, patch_invalid_400,
  place_missing_404,
}
use inwheel_server.Api.Main.{validation_error}
use inwheel_server.Api.V1.{ServerState, Environment}
use inwheel_server.Bindings.Responses
use inwheel_server.Bindings.Strict.{Context, Reply, reply, StrictServerInterface}

-- `hex` is hex.EncodeToString of the bytes that rand.Read gives for this request, if it gives any.
pub record Libraries : Type 0 where
  pub pg : Postgres
  pub codecs : Codecs
  pub json : JsonPatch
  pub email_regex : String → Bool
  pub hex : String → String

abbrev prefixed : (String → String) → Option String → Option String
prefixed hex none = none
prefixed hex (some bytes) = some (append "iwk_" (hex bytes))

unfoldable pub generate_key : (String → String) → Option String → Option String
generate_key hex random = prefixed hex random

abbrev pub revoke_response : RevokeResponse → Responses.RevokeKeyResponse
revoke_response revoked_204 = Responses.revoke_key_204
revoke_response unauthorized_401 = Responses.revoke_key_401 "unauthorized"

abbrev pub register_response : RegisterResponse → Responses.RegisterResponse
register_response (registered_201 raw t e) =
    Responses.register_201 record { api_key = raw; created_at = t; email = e }
register_response (rejected_400 es) = Responses.register_400 (validation_error es)
register_response conflict_409 =
    Responses.register_409 "an active key already exists for this email"
register_response limited_429 = Responses.register_429 "rate limit exceeded"

abbrev pub list_response : ListResponse → Responses.ListPlacesResponse
list_response (page_200 ps c) = Responses.list_places_200 record { data' = ps; next_cursor = c }
list_response (invalid_400 es) = Responses.list_places_400 (validation_error es)

abbrev pub create_response : CreateResponse → Responses.CreatePlaceResponse
create_response (created_201 p) = Responses.create_place_201 p
create_response (create_invalid_400 es) = Responses.create_place_400 (validation_error es)

abbrev pub get_response : GetResponse → Responses.GetPlaceResponse
get_response (found_200 p) = Responses.get_place_200 p
get_response missing_404 = Responses.get_place_404 "place not found"

abbrev pub patch_response : PatchResponse → Responses.PatchResponse
patch_response (patched_200 p) = Responses.patch_200 p
patch_response (patch_invalid_400 es) = Responses.patch_400 (validation_error es)
patch_response place_missing_404 = Responses.patch_404 "place not found"

abbrev pub as_reply : {A B : Type 0} → (A → B) → Result A → Result (Reply B)
as_reply f (ok a) = ok (reply (f a))
as_reply f (err e) = err e

-- rawBodyFromCtx, nil without a body.
abbrev pub raw_or : Option String → String
raw_or none = ""
raw_or (some raw) = raw

abbrev pub State : Type 0 → Type 0
State Bucket = ServerState Bucket (RateLimiter Bucket)

module _ {Bucket : Type 0} (env : Environment Bucket) (lib : Libraries) (now : Time)
    (random : Option String) where
  abbrev pub on_db : {A B : Type 0} → (A → B) → Action Db A → Action (State Bucket) (Reply B)
  on_db f m (l, (k, (db, reg))) = let (a, db') = m db in (as_reply f a, (l, (k, (db', reg))))

  -- Without a request in the context, the limiter is not asked.
  abbrev pub registration : Option Request → RateLimiter Bucket → Bool × RateLimiter Bucket
  registration none reg = (true, reg)
  registration (some r) reg =
      let (l, a) = allow env.lib now (client_ip env.net.split_host_port r.remote_addr) reg in (l, a)

  -- To read the request of a context without one panics.
  abbrev pub patch_with :
      Option Request
      → String
      → String
      → AccessibilityProfile
      → List FieldError
      → Action Db PatchResponse
  patch_with none key_id id body [] db = (err panic, db)
  patch_with none key_id id body (e ∷ es) db = (ok (patch_invalid_400 (e ∷ es)), db)
  patch_with (some r) key_id id body es db =
      patch_place_accessibility lib.pg lib.json key_id id (some body) (raw_or r.raw_body) db

  abbrev pub register_step :
      Context → String → Action (State Bucket) (Reply Responses.RegisterResponse)
  register_step ctx e (l, (k, (db, reg))) =
      let (allowed, reg') = registration ctx.request reg in
      on_db register_response
        (register env.sha256_hex lib.pg lib.email_regex allowed e (generate_key lib.hex random))
        (l, (k, (db, reg')))

  abbrev pub presented : Option Request → Action Db RevokeResponse
  presented none db = (ok unauthorized_401, db)
  presented (some r) db = revoke_key env.sha256_hex (r.headers "X-API-Key") db

  abbrev pub server : StrictServerInterface (State Bucket)
  server = record {
    revoke_key = λ ctx. on_db revoke_response (presented ctx.request);
    register = register_step;
    list_places = λ ctx params. on_db list_response (list_places env.fl lib.codecs lib.pg params);
    create_place = λ ctx p. on_db create_response (create_place lib.pg ctx.api_key_id p);
    get_place = λ ctx id. on_db get_response (get_place id);
    patch_place_accessibility = λ ctx (id, p).
        on_db patch_response
          (patch_with ctx.request ctx.api_key_id id p (accessibility_profile (some p)));
  }
