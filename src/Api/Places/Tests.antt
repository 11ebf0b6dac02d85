-- ===== src/Api/Places/Tests.antt =====
-- Runs of the place handlers of cmd/api/main.go, and a witness.
use inwheel_server.Prelude.{true, false, some, [], ◌∷◌, ◌≡◌, ◌≢◌, refl}
use inwheel_server.Prelude.Result.{ok}
use inwheel_server.Models.Profile.{AccessibilityProfile, empty_profile}
use inwheel_server.Db.{Db, statement}
use inwheel_server.PlaceRepo.Profiles.{
  JsonPatch, upsert_profile, upsert_profile_attempt, upsert_profile_ingestion,
}
use inwheel_server.Validation.{
  accessibility_profile, report_errors, place, validate_tags, tag_errors,
}
use inwheel_server.Prelude.Texts.{trim_space}
use inwheel_server.A11y.{with_audit_flags}
use inwheel_server.Api.List.{preload}
use inwheel_server.Api.Places.{
  patched_200, found_200, patch_place_accessibility, get_place, create_place, created_201,
  submitted,
}
use inwheel_server.Models.Place.{Place, status_active}
use inwheel_server.Audit.{log}
use inwheel_server.Api.Places.Stored.{read_back, get_place-create_place}
use inwheel_server.Api.Places.Kept.{ingestion-keeps_patch}
use inwheel_server.Samples.{server, cafe, city, verified}

abbrev unverified : AccessibilityProfile
unverified = record verified { user_verified = false }

abbrev pub unverified_city : Db
unverified_city = record city { profiles = unverified ∷ [] }

-- A patch that leaves the profile as it is.
abbrev pub same_profile : JsonPatch
same_profile = record { merge_patch = λ p raw. some raw; unmarshal = λ raw. some unverified }

abbrev answer : AccessibilityProfile
answer = record verified { submitted_by = some "u0"; submitted_at = some 100; updated_at = 100 }

patch_cafe :
    (patch_place_accessibility server same_profile "u0" "p1"
      (some empty_profile)
      "{}"
      unverified_city).0
    ≡ ok (patched_200 answer)
unfolding patch_place_accessibility upsert_profile upsert_profile_attempt statement
    accessibility_profile report_errors with_audit_flags
patch_cafe = refl

get_cafe : (get_place "p1" city).0 ≡ ok (found_200 (record cafe { accessibility = some verified }))
unfolding get_place statement preload
get_cafe = refl

ingestion-keeps_patch_example :
    let after =
      (patch_place_accessibility server same_profile "u0" "p1"
        (some empty_profile)
        "{}"
        unverified_city).1 in
    ((upsert_profile_ingestion server "p1" (some empty_profile) after).1.profiles ≡ after.profiles)
    × ((upsert_profile_ingestion server "p1" (some empty_profile) after).0 ≢ ok true)
ingestion-keeps_patch_example =
    ingestion-keeps_patch server same_profile "u0" "p1" "{}" (some empty_profile) answer
      empty_profile unverified_city refl tt patch_cafe

-- A kiosk with a profile that no row has yet.
abbrev kiosk : Place
kiosk = record cafe {
  id = "";
  osm_id = 9;
  name = "kiosk";
  status = "";
  accessibility = some empty_profile;
}

abbrev kiosk_row : Place
kiosk_row = record kiosk {
  id = "u0";
  status = status_active;
  submitted_by = some "k7";
  submitted_at = some 100;
  created_at = 100;
  updated_at = 100;
  accessibility = some (record empty_profile {
    id = "u1";
    place_id = "u0";
    user_verified = true;
    submitted_by = some "k7";
    submitted_at = some 100;
    updated_at = 100;
  });
}

create_kiosk : (create_place server "k7" kiosk city).0 ≡ ok (created_201 kiosk_row)
unfolding create_place submitted statement with_audit_flags log place trim_space validate_tags
    tag_errors
create_kiosk = refl

get_place-create_place_example :
    (get_place "u0" (create_place server "k7" kiosk city).1).0
    ≡ ok (found_200 (read_back server kiosk_row))
get_place-create_place_example =
    get_place-create_place server "k7" kiosk kiosk_row city refl (refl, tt) refl create_kiosk
