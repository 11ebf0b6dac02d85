-- ===== src/Identity/Compat/Laws.antt =====
-- internal/identity/compat.go as a relation.
use inwheel_server.Prelude.{Bool, ◌&&◌, ◌||◌, ◌≡◌, ◌==◌, eq_iff, arith}
use inwheel_server.Prelude.Dict.{member}
use inwheel_server.Models.Place.{Category}
use inwheel_server.Identity.Compat.{compatible}

-- The food-service cluster.
abbrev pub is_food : Category → Bool
is_food c = c == "cafe" || c == "restaurant" || c == "bar"

-- A category is searched among candidates exactly when it is the record's own, or when both belong
-- to the cluster of cafe, restaurant and bar.
pub compatible_iff : (c d : Category) → member d (compatible c) ≡ (c == d || is_food c && is_food d)
unfolding compatible member
compatible_iff c d = ground (
  arith,
  eq_iff c d,
  eq_iff "cafe" c,
  eq_iff "restaurant" c,
  eq_iff "bar" c,
  eq_iff "shop" c,
  eq_iff "healthcare" c,
  eq_iff c "cafe",
  eq_iff c "restaurant",
  eq_iff c "bar",
  eq_iff d "cafe",
  eq_iff d "restaurant",
  eq_iff d "bar",
  eq_iff "cafe" d,
  eq_iff "restaurant" d,
  eq_iff "bar" d,
  eq_iff "shop" d,
  eq_iff "healthcare" d,
)
