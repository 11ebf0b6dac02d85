-- ===== src/Bindings/Params.antt =====
-- The parameters of the operations in internal/api/v1/server.gen.go. What github.com/oapi-codegen/runtime
-- reads from a request is a parameter; a negative limit, which api/openapi.yaml refuses, is left out.
use inwheel_server.Prelude.{ℕ, String, Bool, Option, [], if◌then◌else◌, ◌≡◌, refl, ◌⊎◌, inl, inr}
use inwheel_server.Prelude.Texts.{append}
use inwheel_server.Float64.{F64}
use inwheel_server.Middleware.Http.{Request}
use inwheel_server.Api.Errors.{Chain, invalid_param_format, required_param, members}
use inwheel_server.Api.List.{ListParams}

-- A value, or what stands against it.
pub data Bound (E A : Type 0) : Type 0 where
  bound : A → Bound E A
  unbound : E → Bound E A

pub Bound-cases :
    {E A : Type 0} (x : Bound E A) → ((a : A) × (x ≡ bound a)) ⊎ ((e : E) × (x ≡ unbound e))
Bound-cases (bound a) = inl (a, refl)
Bound-cases (unbound e) = inr (e, refl)

infixl 5 ◌>>=◌
abbrev ◌>>=◌ : {E A B : Type 0} → Bound E A → (A → Bound E B) → Bound E B
bound a >>= f = f a
unbound e >>= f = unbound e

-- The error of a binding: whether it is a RequiredParameterError, and its chain.
pub record BindError : Type 0 where
  pub is_required : Bool
  pub chain : Chain

-- BindQueryParameterWithOptions by the type of the parameter, and BindStyledParameterWithOptions of a
-- UUID, of which it gives the canonical text.
pub record Runtime : Type 0 where
  pub query_integer : String → Request → Bound BindError (Option ℕ)
  pub query_string : String → Request → Bound BindError (Option String)
  pub query_number : String → Request → Bound BindError (Option F64)
  pub path_uuid : String → String → Bound BindError String

-- InvalidParamFormatError, which unwraps to its Err.
unfoldable pub invalid_format : String → Chain → Chain
invalid_format name ((k, reason), es) = (
  (
    invalid_param_format name reason,
    append "Invalid format for parameter " (append name (append ": " reason)),
  ),
  members ((k, reason), es),
)

-- RequiredParamError
unfoldable pub required : String → Chain
required name = (
  (required_param name, append "Query argument " (append name " is required, but not found")),
  [],
)

abbrev pub bind_refusal : String → BindError → Chain
bind_refusal name e = if e.is_required then required name else invalid_format name e.chain

abbrev optional : {A : Type 0} → String → Bound BindError (Option A) → Bound Chain (Option A)
optional name (bound a) = bound a
optional name (unbound e) = unbound (bind_refusal name e)

-- The parameters one after the other, up to the first that does not bind.
unfoldable pub list_places_params : Runtime → Request → Bound Chain ListParams
list_places_params rt r = do
  limit ← optional "limit" (rt.query_integer "limit" r)
  cursor ← optional "cursor" (rt.query_string "cursor" r)
  q ← optional "q" (rt.query_string "q" r)
  lng ← optional "lng" (rt.query_number "lng" r)
  lat ← optional "lat" (rt.query_number "lat" r)
  radius ← optional "radius" (rt.query_number "radius" r)
  min_lng ← optional "min_lng" (rt.query_number "min_lng" r)
  min_lat ← optional "min_lat" (rt.query_number "min_lat" r)
  max_lng ← optional "max_lng" (rt.query_number "max_lng" r)
  max_lat ← optional "max_lat" (rt.query_number "max_lat" r)
  bound record {
    limit = limit;
    query = record {
      lng = lng;
      lat = lat;
      radius = radius;
      min_lng = min_lng;
      min_lat = min_lat;
      max_lng = max_lng;
      max_lat = max_lat;
      cursor = cursor;
      q = q;
    };
  }

abbrev path_bound : {A : Type 0} → String → Bound BindError A → Bound Chain A
path_bound name (bound a) = bound a
path_bound name (unbound e) = unbound (invalid_format name e.chain)

unfoldable pub path_id : Runtime → Request → Bound Chain String
path_id rt r = path_bound "id" (rt.path_uuid "id" (r.path_value "id"))
