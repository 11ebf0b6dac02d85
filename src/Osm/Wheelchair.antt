-- ===== src/Osm/Wheelchair.antt =====
-- The wheelchair tag in internal/sources/osm/a11y.go.
use inwheel_server.Prelude.{String, ◌≡◌, ◌∙◌, false, refl, ◌==◌}
use inwheel_server.Prelude.Dict.{lookup, insert, lookup-insert, at}
use inwheel_server.Float64.{Arithmetic}
use inwheel_server.Models.Place.{Tags}
use inwheel_server.Osm.Profile.{map_entrance, map_restroom, map_parking, map_elevator}

module _ (v : String) (tags : Tags) where
  lookup_other :
      (k : String)
      → ("wheelchair" == k) ≡ false
      → lookup k (insert "wheelchair" v tags) ≡ lookup k tags
  lookup_other k ne = lookup-insert "wheelchair" k v tags ∙ rw ne

  at_other :
      (k : String) → ("wheelchair" == k) ≡ false → at (insert "wheelchair" v tags) k ≡ at tags k
  unfolding at
  at_other k ne = rw (lookup_other k ne)

-- Setting the wheelchair tag, to any value, changes none of the four components that tags give.
pub wheelchair_decides_nothing :
    (fl : Arithmetic) (v : String) (tags : Tags)
    → (map_entrance fl (insert "wheelchair" v tags) ≡ map_entrance fl tags)
      × (map_restroom (insert "wheelchair" v tags) ≡ map_restroom tags)
      × (map_parking (insert "wheelchair" v tags) ≡ map_parking tags)
      × (map_elevator (insert "wheelchair" v tags) ≡ map_elevator tags)
unfolding map_entrance map_restroom map_parking map_elevator
wheelchair_decides_nothing fl v tags = (
  cc (
    at_other v tags "automatic_door" refl,
    at_other v tags "step_count" refl,
    at_other v tags "entrance:step_count" refl,
    lookup_other v tags "ramp:wheelchair" refl,
    at_other v tags "ramp" refl,
    at_other v tags "width" refl,
    at_other v tags "door:width" refl,
    at_other v tags "incline" refl,
  ),
  cc (lookup_other v tags "toilets:wheelchair" refl),
  cc (lookup_other v tags "capacity:disabled" refl, at_other v tags "parking:disabled" refl),
  cc (at_other v tags "elevator" refl),
)
