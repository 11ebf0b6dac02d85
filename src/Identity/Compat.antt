-- ===== src/Identity/Compat.antt =====
-- internal/identity/compat.go: the categories that a record may match against.
pub mod Laws
use Prim.Native.Nat.{Ordering}
use Prim.Native.String.{compare}
use inwheel_server.Prelude.{
  String, Bool, false, true, Option, none, some, List, [], ◌∷◌, if◌then◌else◌,
}
use inwheel_server.Prelude.Dict.{lookup}
use inwheel_server.Models.Place.{Category}

-- The map's value is a set of categories, written here as the list of its keys.
abbrev compat : List (Category × List Category)
compat =
    ("cafe", "cafe" ∷ "restaurant" ∷ "bar" ∷ [])
    ∷ ("restaurant", "restaurant" ∷ "cafe" ∷ "bar" ∷ [])
    ∷ ("bar", "bar" ∷ "restaurant" ∷ "cafe" ∷ [])
    ∷ ("shop", "shop" ∷ [])
    ∷ ("healthcare", "healthcare" ∷ [])
    ∷ []

abbrev text_le : String → String → Bool
text_le a b = elim (compare a b) [ Ordering.gt ↦ false | _ ↦ true ]

-- sort.Slice of texts. The set's order of iteration does not show in the result.
abbrev insert_sorted : String → List String → List String
insert_sorted a [] = a ∷ []
insert_sorted a (b ∷ bs) = if text_le a b then a ∷ b ∷ bs else b ∷ insert_sorted a bs

abbrev sort : List String → List String
sort [] = []
sort (a ∷ as') = insert_sorted a (sort as')

abbrev sorted_or : Category → Option (List Category) → List Category
sorted_or c none = c ∷ []
sorted_or c (some set) = sort set

unfoldable pub compatible : Category → List Category
unfolding lookup
compatible c = sorted_or c (lookup c compat)
