-- ===== src/Models/Jsonb/RoundTrip.antt =====
-- Value and then Scan of the types of pkg/models in a column of type JSONB.
use inwheel_server.Prelude.{String, Option, none, some, List, [], ◌≡◌, refl, ◌∙◌, inl, inr, ◌⊎◌}
use inwheel_server.Prelude.Result.{Error, Result, ok, err}
use inwheel_server.Models.Place.{Geometry}
use inwheel_server.Models.Jsonb.{
  DriverValue, bytes, JsonCodec, as_value, scan_jsonb, marshal_jsonb, scan_geometry, geometry_value,
  scan_map, map_value,
}

-- What is marshalled, encoding/json reads back into a value that is `fresh`.
abbrev pub IsJsonCodec : {A : Type 0} → JsonCodec A → A → Type 0
IsJsonCodec {A} json fresh =
    (x : A) (b : String) → json.marshal x ≡ ok b → json.unmarshal b fresh ≡ ok x

abbrev pub map_or_empty : {V : Type 0} → Option (List (String × V)) → Option (List (String × V))
map_or_empty none = some []
map_or_empty (some m) = some m

-- From the column: what Value gives, Scan reads, and an error of Value stays.
abbrev pub stored : {A : Type 0} → (DriverValue → Result A) → Result DriverValue → Result A
stored scan (ok v) = scan v
stored scan (err e) = err e

Result-cases : {A : Type 0} (r : Result A) → ((a : A) × (r ≡ ok a)) ⊎ ((e : Error) × (r ≡ err e))
Result-cases (ok a) = inl (a, refl)
Result-cases (err e) = inr (e, refl)

as_value-lem :
    {A : Type 0} (json : JsonCodec A) (fresh x : A) (scan : DriverValue → Result A)
    → ((b : String) → scan (bytes b) ≡ json.unmarshal b fresh)
    → IsJsonCodec json fresh
    → ((b : String) × (json.marshal x ≡ ok b))
    → stored scan (as_value (json.marshal x)) ≡ ok x
as_value-lem json fresh x scan reads laws (b, made) = rw made (reads b ∙ laws x b made)

-- A value that can be marshalled comes back from its column as it was: a part of a profile, a geometry,
-- and a map of tags or of references, where a nil map comes back as an empty one. The value that is
-- scanned into is as good as new.
pub stored-value :
    {A V : Type 0} (json : JsonCodec A) (geo : JsonCodec Geometry)
    (maps : JsonCodec (Option (List (String × V)))) (failure : String) (fresh x : A)
    (fresh_geometry g : Geometry) (fresh_map m : Option (List (String × V)))
    → IsJsonCodec json fresh
    → IsJsonCodec geo fresh_geometry
    → IsJsonCodec maps fresh_map
    → (b : String) × (json.marshal x ≡ ok b)
    → (b : String) × (geo.marshal g ≡ ok b)
    → (b : String) × (maps.marshal (map_or_empty m) ≡ ok b)
    → (stored (λ v. scan_jsonb json v fresh) (marshal_jsonb json x) ≡ ok x)
      × (stored (λ v. scan_geometry geo v fresh_geometry) (geometry_value geo (some g)) ≡ ok g)
      × (stored (λ v. scan_map maps failure v fresh_map) (map_value maps m) ≡ ok (map_or_empty m))
unfolding scan_jsonb marshal_jsonb scan_geometry geometry_value scan_map map_value
stored-value json geo maps failure fresh x fresh_geometry g fresh_map none l1 l2 l3 m1 m2 m3 = (
  as_value-lem json fresh x (λ v. scan_jsonb json v fresh) (λ b. refl) l1 m1,
  as_value-lem geo fresh_geometry g (λ v. scan_geometry geo v fresh_geometry) (λ b. refl) l2 m2,
  as_value-lem maps fresh_map (some []) (λ v. scan_map maps failure v fresh_map) (λ b. refl) l3 m3,
)
stored-value json geo maps failure fresh x fresh_geometry g fresh_map (some m) l1 l2 l3 m1 m2 m3 = (
  as_value-lem json fresh x (λ v. scan_jsonb json v fresh) (λ b. refl) l1 m1,
  as_value-lem geo fresh_geometry g (λ v. scan_geometry geo v fresh_geometry) (λ b. refl) l2 m2,
  as_value-lem maps fresh_map (some m) (λ v. scan_map maps failure v fresh_map) (λ b. refl) l3 m3,
)
