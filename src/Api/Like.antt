-- ===== src/Api/Like.antt =====
-- escapeLikePattern of cmd/api/main.go.
pub mod Matching
mod Tests
use Prim.Native.Char.{Char, code}
use inwheel_server.Prelude.{String, Bool, ◌||◌, List, [], ◌∷◌, ◌++◌, if◌then◌else◌, eqb}
use inwheel_server.Prelude.Texts.{chars, text}

-- strings.NewReplacer(`\`, `\\`, `%`, `\%`, `_`, `\_`)
abbrev pub is_like_special : Char → Bool
is_like_special c = eqb (code c) b'\\' || eqb (code c) b'%' || eqb (code c) b'_'

unfoldable pub escape_chars : List Char → List Char
escape_chars [] = []
escape_chars (c ∷ cs) =
    if is_like_special c then "\\" ∷ c ∷ escape_chars cs else c ∷ escape_chars cs

abbrev pub escape_like_pattern : String → String
escape_like_pattern s = text (escape_chars (chars s))

-- "%" + escapeLikePattern(q) + "%"
unfoldable pub like_pattern : String → String
unfolding escape_chars
like_pattern q = text ("%" ∷ escape_chars (chars q) ++ "%" ∷ [])
