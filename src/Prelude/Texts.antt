-- ===== src/Prelude/Texts.antt =====
-- The parts of Go's `strings`, `unicode` and `strconv` that the source uses, over the code points
-- of a text.
use Prim.Native.Char.{Char, code}
use Prim.Native.Nat.{ℕ, ◌+◌, ◌-◌, ◌*◌, ◌^◌}
use Prim.Native.String.{String}
use mathlib.Core.Bool.{Bool, true, false, ◌&&◌, ◌||◌}
use mathlib.Core.Option.{Option, none, some}
use mathlib.Core.List.{List, [], ◌∷◌, ◌++◌}
use inwheel_server.Prelude.Tests.{leb, ltb, eqb, if◌then◌else◌}

abbrev pub chars : String → List Char
chars String.[] = []
chars (String.◌∷◌ c s) = c ∷ chars s

abbrev pub text : List Char → String
text [] = String.[]
text (c ∷ cs) = String.◌∷◌ c (text cs)

-- unicode.IsSpace: the code points with the property White_Space.
unfoldable pub is_space : ℕ → Bool
is_space c =
    (leb 0x09 c && leb c 0x0d)
    || eqb c 0x20
    || eqb c 0x85
    || eqb c 0xa0
    || eqb c 0x1680
    || (leb 0x2000 c && leb c 0x200a)
    || eqb c 0x2028
    || eqb c 0x2029
    || eqb c 0x202f
    || eqb c 0x205f
    || eqb c 0x3000

abbrev is_space_char : Char → Bool
is_space_char c = is_space (code c)

-- strings.TrimLeft by white space.
pub trim_left : List Char → List Char
trim_left [] = []
trim_left (c ∷ cs) = if is_space (code c) then trim_left cs else c ∷ cs

-- strings.TrimRight by white space.
pub trim_right : List Char → List Char
trim_right [] = []
trim_right (c ∷ cs) =
    let rest = trim_right cs in
    elim rest [ [] ↦ if is_space (code c) then [] else c ∷ [] | d ∷ ds ↦ c ∷ d ∷ ds ]

-- strings.TrimSpace.
unfoldable pub trim_space : String → String
unfolding trim_left trim_right is_space
trim_space s = text (trim_right (trim_left (chars s)))

-- strconv.Atoi reads an optional sign and decimal digits, and refuses what does not fit an int64.
pub data GoInt : Type 0 where
  pos : ℕ → GoInt
  negsuc : ℕ → GoInt

digits_from : ℕ → List Char → Option ℕ
digits_from acc [] = some acc
digits_from acc (c ∷ cs) =
    let rest = digits_from (acc * 10 + (code c - b'0')) cs in
    if leb b'0' (code c) && leb (code c) b'9' then rest else none

unsigned : List Char → Option ℕ
unfolding digits_from
unsigned [] = none
unsigned (c ∷ cs) = digits_from 0 (c ∷ cs)

abbrev in_int64 : Bool → ℕ → Option GoInt
in_int64 true n = if leb n (2 ^ 63) then some (if eqb n 0 then pos 0 else negsuc (n - 1)) else none
in_int64 false n = if ltb n (2 ^ 63) then some (pos n) else none

abbrev signed : Bool → Option ℕ → Option GoInt
signed minus none = none
signed minus (some n) = in_int64 minus n

atoi_chars : List Char → Option GoInt
unfolding unsigned
atoi_chars [] = none
atoi_chars (c ∷ cs) =
    if eqb (code c) b'-'
    then signed true (unsigned cs)
    else if eqb (code c) b'+'
    then signed false (unsigned cs)
    else signed false (unsigned (c ∷ cs))

unfoldable pub atoi : String → Option GoInt
unfolding atoi_chars
atoi s = atoi_chars (chars s)

-- `n > 0`.
abbrev pub is_positive : GoInt → Bool
is_positive (pos n) = ltb 0 n
is_positive (negsuc n) = false

-- `+` of strings.
abbrev pub append : String → String → String
append a b = text (chars a ++ chars b)
