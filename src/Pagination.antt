-- ===== src/Pagination.antt =====
-- internal/pagination/pagination.go: the cursor of a list of places. The codecs that it calls (base64,
-- RFC 3339 times, UUIDs) are parameters; a time is a number of nanoseconds.
pub mod RoundTrip
pub mod Tests
use Prim.Native.Char.{Char, code}
use inwheel_server.Prelude.{
  ℕ, ◌-◌, ◌%◌, String, Bool, Option, none, some, List, [], ◌∷◌, ◌++◌, if◌then◌else◌, eqb,
}
use inwheel_server.Prelude.Texts.{chars, text}
use inwheel_server.Prelude.Result.{message, Result, ok, err}
use inwheel_server.Models.Profile.{Time}

pub record Codecs : Type 0 where
  -- base64.RawURLEncoding
  pub encode_to_string : String → String
  pub decode_string : String → Option String
  -- time.RFC3339Nano
  pub format : Time → String
  pub parse : String → Option Time
  -- uuid.Parse without an error
  pub is_uuid : String → Bool

-- t.Truncate(time.Microsecond)
abbrev pub truncate : Time → Time
truncate t = t - t % 1000

-- `strings.SplitN(s, "|", 2)` if it gives two parts.
unfoldable pub split_bar : List Char → Option (List Char × List Char)
split_bar [] = none
split_bar (c ∷ cs) =
    let later = split_bar cs in
    if eqb (code c) b'|'
    then some ([], cs)
    else elim later [ none ↦ none | some (a, b) ↦ some (c ∷ a, b) ]

abbrev pub joined : String → String → String
joined a b = text (chars a ++ "|" ∷ chars b)

module _ (c : Codecs) where
  unfoldable pub encode : Time → String → String
  encode t id = c.encode_to_string (joined (c.format (truncate t)) id)

  abbrev checked_id : Time → String → Result (Time × String)
  checked_id t id = if c.is_uuid id then ok (t, id) else err (message "invalid cursor id")

  abbrev pub parsed_parts : Option (List Char × List Char) → Result (Time × String)
  parsed_parts none = err (message "invalid cursor format")
  parsed_parts (some (a, b)) = elim (c.parse (text a)) [
    | none ↦ err (message "invalid cursor timestamp")
    | some t ↦ checked_id t (text b)
  ]

  unfoldable pub decode : String → Result (Time × String)
  unfolding split_bar
  decode cursor = elim (c.decode_string cursor) [
    | none ↦ err (message "invalid cursor encoding")
    | some raw ↦ parsed_parts (split_bar (chars raw))
  ]
