-- ===== src/Osm/Emitted.antt =====
-- filter.go, rank.go and transformer.go of internal/sources/osm together.
use inwheel_server.Prelude.{
  ℕ, String, Bool, true, false, not, ◌&&◌, Option, none, some, List, [], ◌∷◌, ◌≡◌, refl, arith,
  ◌==◌, inl, inr, Option-cases,
}
use inwheel_server.Prelude.Dict.{lookup, at}
use inwheel_server.Prelude.Result.{ok}
use inwheel_server.Float64.{Arithmetic}
use inwheel_server.Models.Profile.{Time, AccessibilityProfile}
use inwheel_server.Models.Place.{Category, Place, Tags, status_active}
use inwheel_server.PlaceRepo.Places.{rank_ok}
use inwheel_server.Osm.Filter.{amenity_to_category, evaluate, evaluate_rest}
use inwheel_server.Osm.Rank.{derive_rank}
use inwheel_server.Osm.Profile.{map_tags_to_profile}
use inwheel_server.Osm.Transform.{Element, place_of, transform}

abbrev all_values : {V : Type 0} → (V → Bool) → List (String × V) → Bool
all_values p [] = true
all_values p ((k, v) ∷ m) = p v && all_values p m

all_values-lookup :
    {V : Type 0} (p : V → Bool) (k : String) (m : List (String × V)) (v : V)
    → all_values p m ≡ true
    → lookup k m ≡ some v
    → p v ≡ true
unfolding lookup
all_values-lookup p k [] v h e = cc
all_values-lookup p k ((j, w) ∷ m) v h e = ground (arith, all_values-lookup p k m v)

abbrev is_named : Category → Bool
is_named c = not (c == "")

abbrev named : Option Category → Bool
named none = true
named (some c) = is_named c

evaluate_rest-named : (tags : Tags) → named (evaluate_rest tags) ≡ true
evaluate_rest-named tags = ground arith

evaluate-named : (tags : Tags) → named (evaluate tags) ≡ true
unfolding evaluate
evaluate-named tags = elim (Option-cases (lookup (at tags "amenity") amenity_to_category)) [
  | inl missing ↦ rw missing (evaluate_rest-named tags)
  | inr (c, found) ↦
      rw found (all_values-lookup is_named (at tags "amenity") amenity_to_category c refl found)
]

derive_rank-ok :
    (c : Category) (tags : Tags) (p : Place) → p.rank ≡ derive_rank c tags → rank_ok p ≡ true
unfolding derive_rank
derive_rank-ok c tags p e = ground arith

not-named : (c : Category) → is_named c ≡ true → (c == "") ≡ false
not-named c h = ground arith

-- An element that passes the filter is transformed without an error, into a place that the database
-- accepts: of the category that was found, with a rank of 1, 2 or 3, and active.
pub transform-evaluate :
    (fl : Arithmetic) (decimal : ℕ → String) (now : Time) (e : Element) (osm_type : String)
    (c : Category)
    → evaluate e.tags ≡ some c
    → (p : Place) × (profile : Option AccessibilityProfile) × (transform fl decimal now e c osm_type
        ≡ ok (p, profile))
      × (p.category ≡ c)
      × (rank_ok p ≡ true)
      × (p.status ≡ status_active)
      × (p.osm_id ≡ e.id)
unfolding transform
transform-evaluate fl decimal now e osm_type c found =
    let named' : named (some c) ≡ true = rw found at (evaluate-named e.tags) in
    (
      place_of fl decimal e c osm_type,
      map_tags_to_profile fl now e.tags,
      rw (not-named c named') refl,
      refl,
      derive_rank-ok c e.tags (place_of fl decimal e c osm_type) refl,
      refl,
      refl,
    )
