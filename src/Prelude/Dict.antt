-- ===== src/Prelude/Dict.antt =====
-- Go maps with text keys, as association lists. A literal or a built map holds a key once; where
-- the first entry of a key counts, a later one is never read.
use Prim.Native.String.{String}
use mathlib.Core.Path.{◌≡◌, refl}
use mathlib.Core.Bool.{Bool, false, ◌||◌}
use mathlib.Core.Option.{Option, none, some}
use mathlib.Core.List.{List, [], ◌∷◌}
use native.Mathlib.Omega.{arith}
use text.Mathlib.Text.{◌==◌}
use text.Mathlib.TextEquality.{eq_iff}
use inwheel_server.Prelude.Tests.{if◌then◌else◌}

module _ {ℓ} {V : Type ℓ} where
  unfoldable pub lookup : String → List (String × V) → Option V
  lookup key [] = none
  lookup key ((name, value) ∷ rest) =
      let later = lookup key rest in if name == key then some value else later

  -- A key that is there is replaced in its place, a new one goes to the end.
  unfoldable pub insert : String → V → List (String × V) → List (String × V)
  insert key new [] = (key, new) ∷ []
  insert key new ((name, value) ∷ rest) =
      let later = (name, value) ∷ insert key new rest in
      if name == key then (key, new) ∷ rest else later

  pub lookup-insert :
      (key other : String) (new : V) (entries : List (String × V))
      → lookup other (insert key new entries)
        ≡ (if key == other then some new else lookup other entries)
  unfolding insert lookup
  lookup-insert key other new [] = refl
  lookup-insert key other new ((name, value) ∷ rest) = ground (
    arith,
    lookup-insert key other new rest,
    eq_iff name key,
    eq_iff name other,
    eq_iff key other,
  )

abbrev pub or_empty : Option String → String
or_empty none = ""
or_empty (some v) = v

-- `m[k]` of a map of texts, "" where the key is missing.
unfoldable pub at : List (String × String) → String → String
at m k = or_empty (lookup k m)

-- A set of texts.
unfoldable pub member : String → List String → Bool
member k [] = false
member k (j ∷ js) = j == k || member k js
