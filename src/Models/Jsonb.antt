-- ===== src/Models/Jsonb.antt =====
-- The hooks Scan and Value of pkg/models, by which a field becomes a column of type JSONB and back.
-- json.Marshal and json.Unmarshal are parameters; the latter changes the value that is there.
pub mod RoundTrip
use inwheel_server.Prelude.{String, Option, none, some, List, []}
use inwheel_server.Prelude.Result.{Error, message, Result, ok, err}
use inwheel_server.Models.Place.{Geometry}

-- driver.Value: NULL, a []byte, or another type.
pub data DriverValue : Type 0 where
  sql_null : DriverValue
  bytes : String → DriverValue
  other_type : DriverValue

pub record JsonCodec (A : Type 0) : Type 0 where
  pub marshal : A → Result String
  pub unmarshal : String → A → Result A

abbrev pub as_value : Result String → Result DriverValue
as_value (ok b) = ok (bytes b)
as_value (err e) = err e

-- scanJSONB, as Scan of the parts of a profile and of the source reports calls it; NULL leaves the value.
unfoldable pub scan_jsonb : {A : Type 0} → JsonCodec A → DriverValue → A → Result A
scan_jsonb json sql_null dest = ok dest
scan_jsonb json (bytes b) dest = json.unmarshal b dest
scan_jsonb json other_type dest = err (message "type assertion to []byte failed")

-- marshalJSONB, as Value of those types calls it.
unfoldable pub marshal_jsonb : {A : Type 0} → JsonCodec A → A → Result DriverValue
marshal_jsonb json v = as_value (json.marshal v)

-- Geometry.Scan
unfoldable pub scan_geometry : JsonCodec Geometry → DriverValue → Geometry → Result Geometry
scan_geometry json sql_null g = ok g
scan_geometry json (bytes b) g = json.unmarshal b g
scan_geometry json other_type g = err (message "type assertion to []byte failed for Geometry")

-- Geometry.Value, of a pointer.
unfoldable pub geometry_value : JsonCodec Geometry → Option Geometry → Result DriverValue
geometry_value json none = ok sql_null
geometry_value json (some g) = as_value (json.marshal g)

-- Scan and Value of PlaceTags and of ExternalIDs: `none` is the nil map, and `name` the type's.
unfoldable pub scan_map :
    {V : Type 0}
    → JsonCodec (Option (List (String × V)))
    → String
    → DriverValue
    → Option (List (String × V))
    → Result (Option (List (String × V)))
scan_map json failure sql_null m = ok (some [])
scan_map json failure (bytes b) m = json.unmarshal b m
scan_map json failure other_type m = err (message failure)

unfoldable pub map_value :
    {V : Type 0}
    → JsonCodec (Option (List (String × V)))
    → Option (List (String × V))
    → Result DriverValue
map_value json none = as_value (json.marshal (some []))
map_value json (some m) = as_value (json.marshal (some m))

abbrev pub tags_failure : String
tags_failure = "type assertion to []byte failed for PlaceTags"

abbrev pub external_ids_failure : String
external_ids_failure = "type assertion to []byte failed for ExternalIDs"
