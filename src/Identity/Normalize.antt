-- ===== src/Identity/Normalize.antt =====
-- internal/identity/normalize.go: the tokens of a name. The Unicode tables and transformations
-- (golang.org/x/text, package unicode) are a parameter.
use Prim.Native.Char.{Char, code}
use inwheel_server.Prelude.{
  String, Bool, not, ◌||◌, Option, none, some, List, [], ◌∷◌, ◌++◌, map, keep, if◌then◌else◌,
}
use inwheel_server.Prelude.Texts.{chars, text, is_space}
use inwheel_server.Prelude.Dict.{member}

-- `fold` is the chain NFKD, removal of non-spacing marks, NFC; `none` is its error.
pub record Unicode : Type 0 where
  pub fold : String → Option String
  pub to_lower : String → String
  pub is_letter : Char → Bool
  pub is_digit : Char → Bool
  pub equal_fold : String → String → Bool

abbrev pub business_suffixes : List String
business_suffixes = "inc" ∷ "ltd" ∷ "llc" ∷ "co" ∷ "corp" ∷ "gmbh" ∷ "oy" ∷ "ab" ∷ []

-- The loop of strings.Fields: `cur` is the field that is being read.
abbrev pub close_field : List Char → List String → List String
close_field [] rest = rest
close_field (c ∷ cs) rest = text (c ∷ cs) ∷ rest

pub fields_from : List Char → List Char → List String
fields_from cur [] = close_field cur []
fields_from cur (c ∷ cs) =
    let closed = close_field cur (fields_from [] cs) in
    let longer = fields_from (cur ++ c ∷ []) cs in if is_space (code c) then closed else longer

abbrev or_self : Option String → String → String
or_self none s = s
or_self (some folded) s = folded

module _ (uni : Unicode) where
  abbrev pub is_word : Char → Bool
  is_word c = uni.is_letter c || uni.is_digit c

  -- What is no letter and no digit becomes a space.
  abbrev pub blank : Char → Char
  blank c = if is_word c then c else " "

  unfoldable pub normalize : String → List String
  unfolding fields_from is_space member
  normalize s =
      let folded = uni.to_lower (or_self (uni.fold s) s) in
      keep (λ tok. not (member tok business_suffixes)) (fields_from [] (map blank (chars folded)))
