-- ===== src/Validation/Tests.antt =====
-- Runs of internal/validation and witnesses of its theorems.
use inwheel_server.Prelude.{◌≤◌, none, some, [], ◌∷◌, ◌≡◌, ◌≢◌, ◌↔◌, ◌⊎◌, refl, length, All, ◌==◌}
use inwheel_server.Prelude.Texts.{trim_space}
use inwheel_server.Models.Profile.{AccessibilityProfile, empty_profile}
use inwheel_server.Models.Place.{Place}
use inwheel_server.Samples.{thousandths-IsTotal, thousandths, cafe}
use inwheel_server.Pagination.{Codecs}
use inwheel_server.Validation.{
  field_error, byte_length, place, PlacesQueryParams, places_query, tag_errors, validate_tags,
}
use inwheel_server.Validation.Rules.{
  IsShortTag, place_iff, NoProximity, IsProximity, NoBox, IsBox, IsCursor, IsText, places_query_iff,
}

abbrev nameless : Place
nameless = record cafe { name = " "; tags = ("amenity", "cafe") ∷ [] }

place_nameless : place (some nameless) ≡ field_error "name" "must not be blank" ∷ []
unfolding place validate_tags tag_errors byte_length trim_space
place_nameless = refl

place_iff_example :
    (place (some nameless) ≡ [])
    ↔ ((trim_space " " ≢ "") × (length nameless.tags ≤ 50) × All IsShortTag nameless.tags)
place_iff_example = place_iff nameless

abbrev reported : AccessibilityProfile
reported = record empty_profile {
  source_reports = record { source = "osm"; value = "yes"; recorded_at = 1 } ∷ [];
}

abbrev no_codecs : Codecs
no_codecs = record {
  encode_to_string = λ s. s;
  decode_string = λ s. none;
  format = λ t. "";
  parse = λ s. none;
  is_uuid = λ s. s == "p1";
}

-- A box that is upside down.
abbrev box : PlacesQueryParams
box = record {
  lng = none;
  lat = none;
  radius = none;
  min_lng = some 1;
  min_lat = some 9;
  max_lng = some 2;
  max_lat = some 3;
  cursor = none;
  q = some "cup";
}

query_box :
    places_query thousandths no_codecs box ≡ field_error "min_lat" "must be less than max_lat" ∷ []
unfolding places_query trim_space
query_box = refl

places_query_iff_example : (places_query thousandths no_codecs box ≡ []) ↔ (
    ((NoProximity thousandths no_codecs box × NoBox thousandths no_codecs box)
      ⊎ ((IsProximity thousandths no_codecs box × NoBox thousandths no_codecs box)
          ⊎ (NoProximity thousandths no_codecs box × IsBox thousandths no_codecs box)))
    × IsCursor thousandths no_codecs none
    × IsText thousandths no_codecs (some "cup"))
places_query_iff_example = places_query_iff thousandths no_codecs thousandths-IsTotal box
