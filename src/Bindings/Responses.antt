-- ===== src/Bindings/Responses.antt =====
-- The responses of the operations in internal/api/v1/server.gen.go, and how each is sent. json.Encoder
-- is a parameter by the type of the payload, and so is whether the client can still be written to.
use inwheel_server.Prelude.{ℕ, String, Option, none, some, List}
use inwheel_server.Prelude.Result.{Error, Result, ok, err}
use inwheel_server.Models.Profile.{Time, AccessibilityProfile}
use inwheel_server.Models.Place.{Place}
use inwheel_server.Validation.{FieldError}
use inwheel_server.Middleware.Http.{Exchange, set_header, write_header, write}

-- The body of a 400.
pub record ValidationError : Type 0 where
  pub error : String
  pub fields : List FieldError

pub record PlacePage : Type 0 where
  pub data' : List Place
  pub next_cursor : Option String

-- The body of a 201 for a registration.
pub record Registered : Type 0 where
  pub api_key : String
  pub created_at : Time
  pub email : String

-- ErrorResponse is its one field.
pub record Encoder : Type 0 where
  pub error_response : String → Result String
  pub validation_error : ValidationError → Result String
  pub registered : Registered → Result String
  pub place_page : PlacePage → Result String
  pub place : Place → Result String
  pub profile : AccessibilityProfile → Result String
  pub write_error : Exchange → Option Error

-- Encode into a buffer, then the header, the status and the buffer.
abbrev pub send_json : Encoder → ℕ → Result String → Exchange → Option Error × Exchange
send_json enc code (err e) w = (some e, w)
send_json enc code (ok payload) w =
    let headed = write_header code (set_header "Content-Type" "application/json" w) in
    (enc.write_error headed, write payload headed)

pub data RevokeKeyResponse : Type 0 where
  revoke_key_204 : RevokeKeyResponse
  revoke_key_401 : String → RevokeKeyResponse

unfoldable pub visit_revoke_key : Encoder → RevokeKeyResponse → Exchange → Option Error × Exchange
visit_revoke_key enc revoke_key_204 w = (none, write_header 204 w)
visit_revoke_key enc (revoke_key_401 e) w = send_json enc 401 (enc.error_response e) w

pub data RegisterResponse : Type 0 where
  register_201 : Registered → RegisterResponse
  register_400 : ValidationError → RegisterResponse
  register_409 register_429 : String → RegisterResponse

unfoldable pub visit_register : Encoder → RegisterResponse → Exchange → Option Error × Exchange
visit_register enc (register_201 k) w = send_json enc 201 (enc.registered k) w
visit_register enc (register_400 e) w = send_json enc 400 (enc.validation_error e) w
visit_register enc (register_409 e) w = send_json enc 409 (enc.error_response e) w
visit_register enc (register_429 e) w = send_json enc 429 (enc.error_response e) w

pub data ListPlacesResponse : Type 0 where
  list_places_200 : PlacePage → ListPlacesResponse
  list_places_400 : ValidationError → ListPlacesResponse

unfoldable pub visit_list_places : Encoder → ListPlacesResponse → Exchange → Option Error × Exchange
visit_list_places enc (list_places_200 page) w = send_json enc 200 (enc.place_page page) w
visit_list_places enc (list_places_400 e) w = send_json enc 400 (enc.validation_error e) w

pub data CreatePlaceResponse : Type 0 where
  create_place_201 : Place → CreatePlaceResponse
  create_place_400 : ValidationError → CreatePlaceResponse
  create_place_401 : String → CreatePlaceResponse

unfoldable pub visit_create_place :
    Encoder → CreatePlaceResponse → Exchange → Option Error × Exchange
visit_create_place enc (create_place_201 p) w = send_json enc 201 (enc.place p) w
visit_create_place enc (create_place_400 e) w = send_json enc 400 (enc.validation_error e) w
visit_create_place enc (create_place_401 e) w = send_json enc 401 (enc.error_response e) w

pub data GetPlaceResponse : Type 0 where
  get_place_200 : Place → GetPlaceResponse
  get_place_400 : ValidationError → GetPlaceResponse
  get_place_404 : String → GetPlaceResponse

unfoldable pub visit_get_place : Encoder → GetPlaceResponse → Exchange → Option Error × Exchange
visit_get_place enc (get_place_200 p) w = send_json enc 200 (enc.place p) w
visit_get_place enc (get_place_400 e) w = send_json enc 400 (enc.validation_error e) w
visit_get_place enc (get_place_404 e) w = send_json enc 404 (enc.error_response e) w

pub data PatchResponse : Type 0 where
  patch_200 : AccessibilityProfile → PatchResponse
  patch_400 : ValidationError → PatchResponse
  patch_401 patch_404 : String → PatchResponse

unfoldable pub visit_patch : Encoder → PatchResponse → Exchange → Option Error × Exchange
visit_patch enc (patch_200 p) w = send_json enc 200 (enc.profile p) w
visit_patch enc (patch_400 e) w = send_json enc 400 (enc.validation_error e) w
visit_patch enc (patch_401 e) w = send_json enc 401 (enc.error_response e) w
visit_patch enc (patch_404 e) w = send_json enc 404 (enc.error_response e) w
