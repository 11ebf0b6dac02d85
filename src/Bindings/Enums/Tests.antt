-- ===== src/Bindings/Enums/Tests.antt =====
-- The enumerations at a category that only the models have.
use inwheel_server.Prelude.{false, not, ◌≡◌, ◌&&◌, refl}
use inwheel_server.Models.Profile.{levels, door_types, surface_types}
use inwheel_server.Models.Place.{categories, osm_types, place_statuses}
use inwheel_server.Bindings.Enums.{
  is_accessibility_level, is_category, is_door_type, is_osm_type, is_place_status, is_surface_type,
}
use inwheel_server.Bindings.Enums.Constants.{is_listed, enums-is_listed}

is_category-bar : is_category "bar" ≡ false
unfolding is_category
is_category-bar = refl

enums-is_listed_example :
    (is_accessibility_level "bar" ≡ is_listed levels "bar")
    × (is_door_type "bar" ≡ is_listed door_types "bar")
    × (is_osm_type "bar" ≡ is_listed osm_types "bar")
    × (is_place_status "bar" ≡ is_listed place_statuses "bar")
    × (is_surface_type "bar" ≡ is_listed surface_types "bar")
    × (is_category "bar" && not (is_listed categories "bar") ≡ false)
enums-is_listed_example = enums-is_listed "bar"
