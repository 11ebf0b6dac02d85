-- ===== src/Osm/Tests.antt =====
-- Runs of internal/sources/osm and witnesses of its theorems.
use inwheel_server.Prelude.{ℕ, String, true, Option, none, some, List, [], ◌∷◌, ◌≡◌, refl}
use inwheel_server.Prelude.Dict.{insert}
use inwheel_server.Prelude.Result.{Result, ok}
use inwheel_server.Models.Profile.{AccessibilityProfile}
use inwheel_server.Models.Place.{Place, Tags, status_active}
use inwheel_server.PlaceRepo.Places.{rank_ok}
use inwheel_server.Samples.{thousandths}
use inwheel_server.Osm.Filter.{evaluate}
use inwheel_server.Osm.Transform.{Element, transform}
use inwheel_server.Osm.Source.{Object, node, way, relation, full_import}
use inwheel_server.Osm.Emitted.{transform-evaluate}
use inwheel_server.Osm.Streamed.{start, all_handed, full_import_complete}

abbrev decimal : ℕ → String
decimal n = "7"

abbrev hospital : Element
hospital = record {
  id = 7;
  lat = 10;
  lng = 20;
  tags = ("amenity", "hospital") ∷ ("wheelchair", "yes") ∷ ("step_count", "2") ∷ [];
}

evaluate_hospital : evaluate hospital.tags ≡ some "healthcare"
unfolding evaluate
evaluate_hospital = refl

transform-evaluate_example :
    (p : Place) × (profile : Option AccessibilityProfile) × (transform thousandths decimal 5
        hospital "healthcare" "node"
      ≡ ok (p, profile))
    × (p.category ≡ "healthcare")
    × (rank_ok p ≡ true)
    × (p.status ≡ status_active)
    × (p.osm_id ≡ 7)
transform-evaluate_example =
    transform-evaluate thousandths decimal 5 hospital "node" "healthcare" evaluate_hospital

abbrev tagged : Tags
tagged = insert "wheelchair" "no" hospital.tags

-- The sink of a source that keeps the places it is given.
abbrev gather : Place → Option AccessibilityProfile → List Place → Result (Unit {0}) × List Place
gather p profile ps = (ok tt, p ∷ ps)

abbrev objects : List Object
objects =
    node hospital
    ∷ way 8 (record { x = 1; y = 2 } ∷ []) (("shop", "bakery") ∷ [])
    ∷ way 9 [] (("shop", "bakery") ∷ [])
    ∷ node (record hospital { tags = ("highway", "crossing") ∷ [] })
    ∷ relation
    ∷ []

import_ok : (full_import thousandths decimal (λ s. 5) gather objects none (start, [])).0 ≡ ok tt
unfolding full_import transform
import_ok = refl

full_import_complete_example :
    ((full_import thousandths decimal (λ s. 5) gather objects none (start, [])).1.1
      ≡ all_handed thousandths decimal (λ s. 5) gather objects [])
    × ((full_import thousandths decimal (λ s. 5) gather objects none (start, [])).1.0.emitted ≡ 2)
    × ((full_import thousandths decimal (λ s. 5) gather objects none (start, [])).1.0.skipped ≡ 0)
unfolding evaluate
full_import_complete_example =
    full_import_complete thousandths decimal (λ s. 5) gather objects none [] import_ok
