-- ===== src/Pagination/Tests.antt =====
-- A witness for internal/pagination, with plain codecs: the identity for base64, a time as so many
-- letters.
use Prim.Native.Char.{Char}
use inwheel_server.Prelude.{
  ℕ, zero, suc, some, false, List, [], ◌∷◌, ◌≡◌, refl, ap, ◌∙◌, length, ◌==◌, ◌||◌,
}
use inwheel_server.Prelude.Texts.{chars, text}
use inwheel_server.Prelude.Result.{ok}
use inwheel_server.Pagination.{Codecs, truncate, encode, decode}
use inwheel_server.Pagination.RoundTrip.{has_bar, chars-text, IsCodec, decode-encode}

abbrev letters : ℕ → List Char
letters zero = []
letters (suc n) = "a" ∷ letters n

abbrev pub plain_codecs : Codecs
plain_codecs = record {
  encode_to_string = λ s. s;
  decode_string = λ s. some s;
  format = λ t. text (letters t);
  parse = λ s. some (length (chars s));
  is_uuid = λ s. s == "p1" || s == "p2";
}

length-letters : (n : ℕ) → length (letters n) ≡ n
length-letters zero = refl
length-letters (suc n) = ap suc (length-letters n)

has_bar-letters : (n : ℕ) → has_bar (letters n) ≡ false
has_bar-letters zero = refl
has_bar-letters (suc n) = has_bar-letters n

pub plain_codecs-IsCodec : IsCodec plain_codecs
plain_codecs-IsCodec = record {
  decode_encode = λ s. refl;
  parse_format = λ t.
      ap (λ l. some (length l)) (chars-text (letters (truncate t)))
      ∙ ap some (length-letters (truncate t));
  plain = λ t. ap has_bar (chars-text (letters (truncate t))) ∙ has_bar-letters (truncate t);
}

decode-encode_example : decode plain_codecs (encode plain_codecs 2500 "p1") ≡ ok (2000, "p1")
decode-encode_example = decode-encode plain_codecs 2500 "p1" plain_codecs-IsCodec refl
