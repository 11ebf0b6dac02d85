-- ===== src/Bindings/Enums.antt =====
-- The enumerations of internal/api/v1/server.gen.go.
pub mod Constants
mod Tests
use inwheel_server.Prelude.{String, Bool, ◌||◌, ◌==◌}

-- AccessibilityLevel.Valid
unfoldable pub is_accessibility_level : String → Bool
is_accessibility_level e = e == "good" || e == "limited" || e == "no"

-- Category.Valid
unfoldable pub is_category : String → Bool
is_category e =
    e == "airport"
    || e == "cafe"
    || e == "entrance"
    || e == "mall"
    || e == "other"
    || e == "parking"
    || e == "restaurant"
    || e == "shop"
    || e == "toilet"
    || e == "train_station"

-- DoorType.Valid
unfoldable pub is_door_type : String → Bool
is_door_type e = e == "automatic" || e == "manual" || e == "none" || e == "revolving"

-- OSMType.Valid
unfoldable pub is_osm_type : String → Bool
is_osm_type e = e == "node" || e == "relation" || e == "way"

-- PlaceStatus.Valid
unfoldable pub is_place_status : String → Bool
is_place_status e = e == "active" || e == "closed" || e == "osm_removed"

-- SurfaceType.Valid
unfoldable pub is_surface_type : String → Bool
is_surface_type e =
    e == "asphalt"
    || e == "carpet"
    || e == "cobblestone"
    || e == "concrete"
    || e == "gravel"
    || e == "paving_stones"
    || e == "tiles"
    || e == "wood"
