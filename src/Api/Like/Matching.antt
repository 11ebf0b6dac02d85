-- ===== src/Api/Like/Matching.antt =====
-- The pattern that cmd/api/main.go makes from a query, read as the documentation of PostgreSQL reads a
-- LIKE pattern with ESCAPE '\\'. `same` compares two characters, which ILIKE does without their case.
use Prim.Native.Char.{Char, code}
use inwheel_server.Prelude.{
  String, Bool, true, false, ◌&&◌, ◌||◌, Option, none, some, List, [], ◌∷◌, ◌++◌, ◌≡◌, refl, ap,
  ◌∙◌, inl, inr, if◌then◌else◌, eqb, map, Bool-cases, arith,
}
use inwheel_server.Prelude.Texts.{chars}
use inwheel_server.Pagination.RoundTrip.{chars-text}
use inwheel_server.Api.Like.{is_like_special, escape_chars, like_pattern}

pub data Token : Type 0 where
  any_text any_char : Token
  literal : Char → Token

abbrev pub token : Char → Token
token c = if eqb (code c) b'%' then any_text else if eqb (code c) b'_' then any_char else literal c

abbrev pub add_token : Token → Option (List Token) → Option (List Token)
add_token t none = none
add_token t (some ts) = some (t ∷ ts)

-- A backslash takes the next character literally; at the end of a pattern it is an error.
unfoldable pub like_tokens : List Char → Option (List Token)
like_tokens [] = some []
like_tokens (c ∷ []) = if eqb (code c) b'\\' then none else some (token c ∷ [])
like_tokens (c ∷ d ∷ cs) =
    let after = like_tokens cs in
    let rest = like_tokens (d ∷ cs) in
    if eqb (code c) b'\\' then add_token (literal d) after else add_token (token c) rest

-- Some end of the text, itself included.
abbrev pub any_suffix : (List Char → Bool) → List Char → Bool
any_suffix p [] = p []
any_suffix p (c ∷ cs) = p (c ∷ cs) || any_suffix p cs

module _ (same : Char → Char → Bool) where
  abbrev pub next_char : (Char → Bool) → (List Char → Bool) → List Char → Bool
  next_char t p [] = false
  next_char t p (c ∷ cs) = t c && p cs

  unfoldable pub matches : List Token → List Char → Bool
  matches [] [] = true
  matches [] (c ∷ cs) = false
  matches (any_text ∷ ts) s = any_suffix (matches ts) s
  matches (any_char ∷ ts) s = next_char (λ c. true) (matches ts) s
  matches (literal d ∷ ts) s = next_char (same d) (matches ts) s

  abbrev pub matched : Option (List Token) → List Char → Option Bool
  matched none s = none
  matched (some ts) s = some (matches ts s)

  -- `text ILIKE pattern ESCAPE '\\'`; `none` is an error.
  abbrev pub like : String → String → Option Bool
  like s pattern' = matched (like_tokens (chars pattern')) (chars s)

  abbrev pub starts_with : List Char → List Char → Bool
  starts_with [] s = true
  starts_with (d ∷ ds) [] = false
  starts_with (d ∷ ds) (c ∷ cs) = same d c && starts_with ds cs

  -- The query's characters stand somewhere in the text, side by side.
  abbrev pub contains : List Char → List Char → Bool
  contains q s = any_suffix (starts_with q) s

  matches-end : (s : List Char) → matches (any_text ∷ []) s ≡ true
  unfolding matches
  matches-end [] = refl
  matches-end (c ∷ cs) = ground (arith, matches-end cs)

  matches-literals :
      (q s : List Char) → matches (map literal q ++ any_text ∷ []) s ≡ starts_with q s
  unfolding matches
  matches-literals [] s = matches-end s
  matches-literals (d ∷ ds) [] = refl
  matches-literals (d ∷ ds) (c ∷ cs) = ap (λ b. same d c && b) (matches-literals ds cs)

  any_suffix-ext :
      (p p' : List Char → Bool)
      → ((s : List Char) → p s ≡ p' s)
      → (s : List Char) → any_suffix p s ≡ any_suffix p' s
  any_suffix-ext p p' h [] = h []
  any_suffix-ext p p' h (c ∷ cs) = ground (arith, h (c ∷ cs), any_suffix-ext p p' h cs)

like_tokens-plain :
    (c : Char) (cs : List Char)
    → eqb (code c) b'\\' ≡ false
    → like_tokens (c ∷ cs) ≡ add_token (token c) (like_tokens cs)
unfolding like_tokens
like_tokens-plain c [] h = rw h refl
like_tokens-plain c (d ∷ cs) h = rw h refl

like_tokens-escape :
    (cs : List Char)
    → like_tokens (escape_chars cs ++ "%" ∷ []) ≡ some (map literal cs ++ any_text ∷ [])
unfolding like_tokens escape_chars
like_tokens-escape [] = refl
like_tokens-escape (c ∷ cs) = elim (Bool-cases (is_like_special c)) [
  | inl y ↦ rw y (ap (add_token (literal c)) (like_tokens-escape cs))
  | inr n ↦
      let plain : eqb (code c) b'\\' ≡ false = ground (arith, n) in
      let itself : token c ≡ literal c = ground (arith, n) in
      rw n (
        like_tokens-plain c (escape_chars cs ++ "%" ∷ []) plain
        ∙ ap (add_token (token c)) (like_tokens-escape cs)
        ∙ ap (λ t. some (t ∷ map literal cs ++ any_text ∷ [])) itself)
]

-- A name matches the pattern of a query exactly if the query's characters stand in it side by side:
-- whatever the query is, the pattern is no error, and no character of it acts as a wildcard.
pub like-like_pattern :
    (same : Char → Char → Bool) (name q : String)
    → like same name (like_pattern q) ≡ some (contains same (chars q) (chars name))
unfolding like_pattern matches
like-like_pattern same name q =
    let cs = escape_chars (chars q) ++ "%" ∷ [] in
    ap (λ l. matched same (like_tokens l) (chars name)) (chars-text ("%" ∷ cs))
    ∙ ap (λ o. matched same o (chars name))
        (like_tokens-plain "%" cs refl ∙ ap (add_token any_text) (like_tokens-escape (chars q)))
    ∙ ap some (
        any_suffix-ext same (matches same (map literal (chars q) ++ any_text ∷ []))
          (starts_with same (chars q)) (matches-literals same (chars q)) (chars name))
