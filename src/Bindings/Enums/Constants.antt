-- ===== src/Bindings/Enums/Constants.antt =====
-- The enumerations of internal/api/v1/server.gen.go against the constants of pkg/models.
use inwheel_server.Prelude.{
  String, Bool, true, false, ◌≡◌, any, ◌==◌, ◌&&◌, not, arith, refl, List, [], ◌∷◌, Bool-cases, inl,
  inr, eq_iff,
}
use inwheel_server.Models.Profile.{levels, door_types, surface_types}
use inwheel_server.Models.Place.{categories, osm_types, place_statuses}
use inwheel_server.Bindings.Enums.{
  is_accessibility_level, is_category, is_door_type, is_osm_type, is_place_status, is_surface_type,
}

abbrev pub is_listed : List String → String → Bool
is_listed constants e = any (λ c. e == c) constants

abbrev are_listed : List String → List String → Bool
are_listed [] constants = true
are_listed (c ∷ cs) constants = is_listed constants c && are_listed cs constants

listed-lem :
    (e : String) (cs constants : List String)
    → are_listed cs constants ≡ true
    → is_listed cs e && not (is_listed constants e) ≡ false
listed-lem e [] constants h = refl
listed-lem e (c ∷ cs) constants h =
    let there : is_listed constants c ≡ true = ground (arith, h) in
    elim (Bool-cases (e == c)) [
      | inl y ↦ rw (y, ((eq_iff e c).0 y), there) refl
      | inr n ↦ rw n (listed-lem e cs constants (ground (arith, h)))
    ]

abbrev generated : List String
generated =
    "airport" ∷ "cafe" ∷ "entrance" ∷ "mall" ∷ "other" ∷ "parking" ∷ "restaurant" ∷ "shop"
    ∷ "toilet" ∷ "train_station" ∷ []

is_category-lem : (e : String) → is_category e ≡ is_listed generated e
unfolding is_category
is_category-lem e = ground arith

-- For levels, kinds of doors, OSM types, statuses of places and surfaces, the generated code accepts exactly the
-- constants of the models; a category that it accepts is a constant of the models, too.
pub enums-is_listed :
    (e : String)
    → (is_accessibility_level e ≡ is_listed levels e)
      × (is_door_type e ≡ is_listed door_types e)
      × (is_osm_type e ≡ is_listed osm_types e)
      × (is_place_status e ≡ is_listed place_statuses e)
      × (is_surface_type e ≡ is_listed surface_types e)
      × (is_category e && not (is_listed categories e) ≡ false)
unfolding is_accessibility_level is_door_type is_osm_type is_place_status is_surface_type
enums-is_listed e = (
  ground arith,
  ground arith,
  ground arith,
  ground arith,
  ground arith,
  rw (is_category-lem e) (listed-lem e generated categories refl),
)
