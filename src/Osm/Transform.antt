-- ===== src/Osm/Transform.antt =====
-- internal/sources/osm/transformer.go. `fmt.Sprintf("%s/%d")` is a parameter of the arithmetic of
-- texts: `decimal` prints an id.
use Prim.Native.String.{◌++◌}
use inwheel_server.Prelude.{ℕ, String, Option, none, [], ◌∷◌, ◌==◌, if◌then◌else◌}
use inwheel_server.Prelude.Dict.{at}
use inwheel_server.Prelude.Result.{message, Result, ok, err}
use inwheel_server.Float64.{F64, Arithmetic}
use inwheel_server.Models.Profile.{Time, AccessibilityProfile}
use inwheel_server.Models.Place.{Category, Tags, ExternalRef, Place, status_active}
use inwheel_server.Osm.Rank.{derive_rank}
use inwheel_server.Osm.Profile.{map_tags_to_profile}

-- pbf.go: a node or way as the stream gives it; a way is at the centroid of its nodes.
pub record Element : Type 0 where
  pub id : ℕ
  pub lat : F64
  pub lng : F64
  pub tags : Tags

module _ (fl : Arithmetic) (decimal : ℕ → String) where
  abbrev osm_ref : String → ℕ → ExternalRef
  osm_ref osm_type id = record {
    id = osm_type ++ "/" ++ decimal id;
    confidence = fl.lit 10 1;
    matched_at = 0;
  }

  abbrev pub place_of : Element → Category → String → Place
  place_of e category osm_type = record {
    id = "";
    osm_id = e.id;
    osm_type = osm_type;
    name = at e.tags "name";
    lng = e.lng;
    lat = e.lat;
    geometry = none;
    category = category;
    rank = derive_rank category e.tags;
    parent_id = none;
    accessibility = none;
    tags = e.tags;
    external_ids = ("osm", osm_ref osm_type e.id) ∷ [];
    status = status_active;
    source = "osm";
    submitted_by = none;
    submitted_at = none;
    created_at = 0;
    updated_at = 0;
  }

  unfoldable pub transform :
      Time → Element → Category → String → Result (Place × Option AccessibilityProfile)
  transform now e category osm_type =
      if category == ""
      then err (message "transform: category is empty")
      else ok (place_of e category osm_type, map_tags_to_profile fl now e.tags)

  unfoldable pub transform_osm_node :
      Time → Element → Category → Result (Place × Option AccessibilityProfile)
  transform_osm_node now node category = transform now node category "node"

  unfoldable pub transform_osm_way :
      Time → Element → Category → Result (Place × Option AccessibilityProfile)
  transform_osm_way now way category = transform now way category "way"
