-- ===== src/Pagination/RoundTrip.antt =====
-- Encode and Decode of internal/pagination/pagination.go together.
use Prim.Native.Char.{Char, code}
use Prim.Native.String.{String}
use inwheel_server.Prelude.{
  Bool, true, false, some, List, [], ◌∷◌, ◌++◌, ◌≡◌, refl, ap, ◌∙◌, eqb, arith, if◌then◌else◌,
}
use inwheel_server.Prelude.Texts.{chars, text}
use inwheel_server.Prelude.Result.{ok}
use inwheel_server.Models.Profile.{Time}
use inwheel_server.Pagination.{Codecs, truncate, joined, split_bar, parsed_parts, encode, decode}

abbrev pub has_bar : List Char → Bool
has_bar [] = false
has_bar (c ∷ cs) = if eqb (code c) b'|' then true else has_bar cs

-- Base64 can be read back, and so can a time of whole microseconds, whose text has no "|".
pub record IsCodec (c : Codecs) : Type 0 where
  pub decode_encode : (s : String) → c.decode_string (c.encode_to_string s) ≡ some s
  pub parse_format : (t : Time) → c.parse (c.format (truncate t)) ≡ some (truncate t)
  pub plain : (t : Time) → has_bar (chars (c.format (truncate t))) ≡ false

pub chars-text : (cs : List Char) → chars (text cs) ≡ cs
chars-text [] = refl
chars-text (c ∷ cs) = ap (λ (l : List Char). c ∷ l) (chars-text cs)

text-chars : (s : String) → text (chars s) ≡ s
text-chars String.[] = refl
text-chars (String.◌∷◌ c s) = ap (λ (r : String). String.◌∷◌ c r) (text-chars s)

split_bar-append : (a b : List Char) → has_bar a ≡ false → split_bar (a ++ "|" ∷ b) ≡ some (a, b)
unfolding split_bar
split_bar-append [] b h = refl
split_bar-append (c ∷ cs) b h = ground (arith, split_bar-append cs b)

decode-some :
    (c : Codecs) (cursor raw : String)
    → c.decode_string cursor ≡ some raw
    → decode c cursor ≡ parsed_parts c (split_bar (chars raw))
unfolding decode
decode-some c cursor raw h = ground (arith, h)

chars-joined : (a b : String) → chars (joined a b) ≡ chars a ++ "|" ∷ chars b
chars-joined a b = chars-text (chars a ++ "|" ∷ chars b)

parsed-lem :
    (c : Codecs) (t : Time) (a id : String)
    → c.parse a ≡ some t
    → c.is_uuid id ≡ true
    → parsed_parts c (some (chars a, chars id)) ≡ ok (t, id)
parsed-lem c t a id h k = ground (arith, text-chars a, text-chars id)

-- A cursor of a place with a UUID decodes to the same id and to the time in whole microseconds.
pub decode-encode :
    (c : Codecs) (t : Time) (id : String)
    → IsCodec c
    → c.is_uuid id ≡ true
    → decode c (encode c t id) ≡ ok (truncate t, id)
unfolding encode
decode-encode c t id laws uuid =
    let stamp = c.format (truncate t) in
    decode-some c (encode c t id) (joined stamp id) (laws.decode_encode (joined stamp id))
    ∙ ap (λ l. parsed_parts c (split_bar l)) (chars-joined stamp id)
    ∙ ap (parsed_parts c) (split_bar-append (chars stamp) (chars id) (laws.plain t))
    ∙ parsed-lem c (truncate t) stamp id (laws.parse_format t) uuid
