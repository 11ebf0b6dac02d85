-- ===== src/Validation.antt =====
-- internal/validation/validation.go. `len` of a text is its number of bytes in UTF-8. The map of tags
-- is a list in some order of iteration. A reason's text keeps only what tells the rules apart: the
-- numbers and keys that fmt.Sprintf puts in are left out. The e-mail pattern (package regexp) and the
-- decoding of a cursor are parameters.
pub mod Rules
mod Tests
use Prim.Native.Char.{Char, code}
use inwheel_server.Prelude.{
  ℕ, ◌+◌, String, Bool, true, false, not, ◌&&◌, ◌||◌, Option, none, some, List, [], ◌∷◌, ◌++◌, ◌==◌,
  if◌then◌else◌, ltb, leb, eqb, length,
}
use inwheel_server.Prelude.Texts.{chars, trim_space}
use inwheel_server.Prelude.Result.{Result, ok, err}
use inwheel_server.Float64.{F64, Arithmetic}
use inwheel_server.Models.Profile.{Time, SourceReport, AccessibilityProfile}
use inwheel_server.Models.Place.{Place, Tags}
use inwheel_server.Pagination.{Codecs, decode}

pub record FieldError : Type 0 where
  pub field : String
  pub reason : String

abbrev pub field_error : String → String → FieldError
field_error field reason = record { field = field; reason = reason }

abbrev pub max_source_length : ℕ
max_source_length = 64

abbrev pub max_tag_entries : ℕ
max_tag_entries = 50

abbrev pub max_tag_key_length : ℕ
max_tag_key_length = 64

abbrev pub max_tag_value_length : ℕ
max_tag_value_length = 256

abbrev pub max_source_report_entries : ℕ
max_source_report_entries = 50

abbrev utf8_width : ℕ → ℕ
utf8_width c = if ltb c 0x80 then 1 else if ltb c 0x800 then 2 else if ltb c 0x10000 then 3 else 4

bytes_of : List Char → ℕ
bytes_of [] = 0
bytes_of (c ∷ cs) = utf8_width (code c) + bytes_of cs

unfoldable pub byte_length : String → ℕ
unfolding bytes_of
byte_length s = bytes_of (chars s)

abbrev pub is_blank : String → Bool
is_blank s = trim_space s == ""

abbrev pub one_if : Bool → FieldError → List FieldError
one_if c e = if c then e ∷ [] else []

unfoldable pub email : (String → Bool) → String → List FieldError
email email_regex s =
    one_if (not (email_regex s)) (field_error "email" "must be a valid email address")

unfoldable pub tag_errors : Tags → List FieldError
tag_errors [] = []
tag_errors ((k, v) ∷ tags) =
    one_if (ltb max_tag_key_length (byte_length k)) (field_error "tags" "key exceeds 64 characters")
    ++ one_if (ltb max_tag_value_length (byte_length v))
        (field_error "tags" "value exceeds 256 characters")
    ++ tag_errors tags

unfoldable pub validate_tags : Tags → List FieldError
validate_tags tags =
    let each = tag_errors tags in
    if ltb max_tag_entries (length tags)
    then field_error "tags" "must contain ≤ 50 entries" ∷ []
    else each

unfoldable pub place : Option Place → List FieldError
place none = field_error "body" "place is required" ∷ []
place (some p) =
    one_if (is_blank p.name) (field_error "name" "must not be blank") ++ validate_tags p.tags

unfoldable pub report_errors : List SourceReport → List FieldError
report_errors [] = []
report_errors (r ∷ rs) =
    one_if (ltb max_source_length (byte_length r.source))
      (field_error "source_reports" "source exceeds 64 characters")
    ++ one_if (ltb max_source_length (byte_length r.value))
        (field_error "source_reports" "value exceeds 64 characters")
    ++ report_errors rs

unfoldable pub accessibility_profile : Option AccessibilityProfile → List FieldError
accessibility_profile none = []
accessibility_profile (some p) =
    let each = report_errors p.source_reports in
    if ltb max_source_report_entries (length p.source_reports)
    then field_error "source_reports" "must contain ≤ 50 entries" ∷ []
    else each

pub record PlacesQueryParams : Type 0 where
  pub lng : Option F64
  pub lat : Option F64
  pub radius : Option F64
  pub min_lng : Option F64
  pub min_lat : Option F64
  pub max_lng : Option F64
  pub max_lat : Option F64
  pub cursor : Option String
  pub q : Option String

abbrev pub count_non_nil : List (Option F64) → ℕ
count_non_nil [] = 0
count_non_nil (none ∷ ps) = count_non_nil ps
count_non_nil (some a ∷ ps) = 1 + count_non_nil ps

abbrev pub circular_present : PlacesQueryParams → ℕ
circular_present p = count_non_nil (p.lng ∷ p.lat ∷ p.radius ∷ [])

abbrev pub bbox_present : PlacesQueryParams → ℕ
bbox_present p = count_non_nil (p.min_lng ∷ p.min_lat ∷ p.max_lng ∷ p.max_lat ∷ [])

module _ (fl : Arithmetic) (codecs : Codecs) where
  -- `*min >= *max`; a missing end, which would panic, is not reached.
  abbrev not_below : Option F64 → Option F64 → Bool
  not_below (some low) (some high) = fl.le high low
  not_below _ _ = false

  abbrev bad_cursor : Option String → Bool
  bad_cursor none = false
  bad_cursor (some c) = elim (decode codecs c) [ ok r ↦ false | err e ↦ true ]

  abbrev pub blank_query : Option String → Bool
  blank_query none = false
  blank_query (some q) = is_blank q

  abbrev pub value_errors : PlacesQueryParams → List FieldError
  value_errors p =
      one_if (eqb (bbox_present p) 4 && not_below p.min_lng p.max_lng)
        (field_error "min_lng" "must be less than max_lng")
      ++ one_if (eqb (bbox_present p) 4 && not_below p.min_lat p.max_lat)
          (field_error "min_lat" "must be less than max_lat")
      ++ one_if (bad_cursor p.cursor) (field_error "cursor" "invalid cursor")
      ++ one_if (blank_query p.q) (field_error "q" "must not be blank")

  unfoldable pub places_query : PlacesQueryParams → List FieldError
  places_query p =
      if not (eqb (circular_present p) 0) && not (eqb (circular_present p) 3)
      then field_error "query" "lng, lat, and radius must all be provided together" ∷ []
      else if not (eqb (bbox_present p) 0) && not (eqb (bbox_present p) 4)
      then field_error "query"
          "min_lng, min_lat, max_lng, and max_lat must all be provided together"
        ∷ []
      else if ltb 0 (circular_present p) && ltb 0 (bbox_present p)
      then field_error "query" "proximity and bounding-box parameters are mutually exclusive" ∷ []
      else value_errors p
