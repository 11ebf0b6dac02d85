-- ===== src/PlaceRepo/Tests.antt =====
-- Runs of internal/place and witnesses of its theorems.
use inwheel_server.Prelude.{true, false, none, some, [], ◌∷◌, ◌≡◌, ◌≢◌, refl, arith, find_first}
use inwheel_server.Prelude.Dict.{lookup}
use inwheel_server.Prelude.Result.{ok}
use inwheel_server.Models.Profile.{AccessibilityProfile, empty_profile}
use inwheel_server.Models.Place.{Place, ExternalRef}
use inwheel_server.Db.{Db, statement, defer}
use inwheel_server.Samples.{server, cafe, verified, city}
use inwheel_server.PlaceRepo.Places.Near.{IsNearFirst, IsDistance, find_candidates_lem}
use inwheel_server.Prelude.{◌≤◌, ◌&&◌, ◌==◌, length, All}
use inwheel_server.Prelude.Dict.{member}
use inwheel_server.Models.Place.{status_active}
use inwheel_server.PlaceRepo.Places.{
  find_candidates, sort_near, insert_near, conflicts, upsert_place, upsert_places, repeats_key,
  upsert_batch, attach_external_ref,
}
use inwheel_server.PlaceRepo.Places.Upsert.{
  HasUniqueKeys, upsert_batch-HasUniqueKeys, upsert_replaces_refs,
}
use inwheel_server.PlaceRepo.Profiles.{
  profile_of, upsert_profile_ingestion, profile_columns, patch_columns, upsert_profile,
}
use inwheel_server.PlaceRepo.Places.Attach.{ref_at, ref_at-attach}
use inwheel_server.PlaceRepo.Profiles.Retry.{raced, upsert_profile-retries}
use inwheel_server.PlaceRepo.Profiles.Locked.{calm, run_with, upsert-keeps_out}
use inwheel_server.PlaceRepo.Profiles.{JsonPatch, upsert_profile_attempt}
use inwheel_server.PlaceRepo.Profiles.Verified.{ingestion-keeps_verified}
use inwheel_server.PlaceRepo.Profiles.Race.{ingestion_overwrites_concurrent}

-- The same element, renamed, as an import brings it.
abbrev renamed : Place
renamed = record cafe { id = ""; name = "green cup" }

abbrev foo_ref : ExternalRef
foo_ref = record { id = "f1"; confidence = 900; matched_at = 100 }

abbrev matched_city : Db
matched_city = record city { places = record cafe { external_ids = ("foo", foo_ref) ∷ [] } ∷ [] }

city-HasUniqueKeys : HasUniqueKeys city.places
city-HasUniqueKeys q = ground arith

upsert_batch-HasUniqueKeys_example :
    HasUniqueKeys (upsert_batch server (renamed ∷ []) city).1.places
upsert_batch-HasUniqueKeys_example =
    upsert_batch-HasUniqueKeys server (renamed ∷ []) city city-HasUniqueKeys

upsert_renamed :
    (upsert_batch server (renamed ∷ []) matched_city).0 ≡ ok (record renamed { id = "p1" } ∷ [])
unfolding upsert_batch statement upsert_places upsert_place repeats_key
upsert_renamed = refl

found_cafe :
    find_first (conflicts renamed) matched_city.places
    ≡ some (record cafe { external_ids = ("foo", foo_ref) ∷ [] })
found_cafe = refl

unnamed_foo : lookup "foo" renamed.external_ids ≡ none
unfolding lookup
unnamed_foo = refl

upsert_replaces_refs_example :
    (row' : Place) × (find_first
        (conflicts renamed)
        (upsert_batch server (renamed ∷ []) matched_city).1.places
      ≡ some row')
    × (row'.id ≡ "p1")
    × (row'.parent_id ≡ none)
    × (record renamed { id = "p1" } ∷ [] ≡ record renamed { id = "p1" } ∷ [])
    × (lookup "foo" row'.external_ids ≡ none)
upsert_replaces_refs_example =
    upsert_replaces_refs server renamed (record cafe { external_ids = ("foo", foo_ref) ∷ [] }) "foo"
      matched_city (record renamed { id = "p1" } ∷ []) found_cafe unnamed_foo upsert_renamed

attach_cafe : (attach_external_ref "p1" "foo" foo_ref city).0 ≡ ok tt
unfolding attach_external_ref statement
attach_cafe = refl

ref_at-attach_example :
    ref_at "p1" "foo" (attach_external_ref "p1" "foo" foo_ref city).1.places ≡ some foo_ref
ref_at-attach_example = ref_at-attach "p1" "foo" foo_ref city "p1" "foo" attach_cafe

ingestion-keeps_verified_example :
    ((upsert_profile_ingestion server "p1" (some empty_profile) city).1.profiles ≡ verified ∷ [])
    × ((upsert_profile_ingestion server "p1" (some empty_profile) city).0 ≢ ok true)
ingestion-keeps_verified_example =
    ingestion-keeps_verified server "p1" empty_profile verified city tt refl refl

-- A user's correction that arrives between the two statements of the import.
abbrev unverified : AccessibilityProfile
unverified = record verified { user_verified = false }

abbrev racing : Db
racing = record city {
  profiles = unverified ∷ [];
  script =
      record { elapsed = 1; arrival = none; fault = none }
      ∷ record { elapsed = 1; arrival = some verified; fault = none }
      ∷ [];
}

ingestion_overwrites_concurrent_example :
    ((upsert_profile_ingestion server "p1" (some empty_profile) racing).0 ≡ ok true)
    × (row : AccessibilityProfile) × (profile_of "p1"
          (upsert_profile_ingestion server "p1" (some empty_profile) racing).1.profiles
        ≡ some row)
    × (row.user_verified ≡ true)
    × (row.submitted_by ≡ none)
    × (row.source_reports ≡ [])
    × (row.entrance ≡ none)
    × (row.pathways ≡ none)
    × (row.restroom ≡ none)
    × (row.parking ≡ none)
    × (row.elevator ≡ none)
ingestion_overwrites_concurrent_example =
    ingestion_overwrites_concurrent server empty_profile unverified verified racing 1 1 [] refl refl
      refl refl refl

server-IsDistance : IsDistance server 0 0
server-IsDistance = record { total = λ p q h. refl; transitive = λ p q r h k. refl }

near_cafe : (find_candidates server 0 0 50 ("bar" ∷ "cafe" ∷ []) city).0 ≡ ok (cafe ∷ [])
unfolding find_candidates sort_near insert_near statement member
near_cafe = refl

find_candidates_lem_example :
    (length (cafe ∷ []) ≤ 32)
    × All
        (λ p.
          (p.status == status_active
            && member p.category ("bar" ∷ "cafe" ∷ [])
            && server.st_dwithin p.lng p.lat 0 0 50)
          ≡ true)
        (cafe ∷ [])
    × IsNearFirst server 0 0 (cafe ∷ [])
find_candidates_lem_example =
    find_candidates_lem server 0 0 50 ("bar" ∷ "cafe" ∷ []) city (cafe ∷ []) server-IsDistance
      near_cafe

-- A patch that always merges to the same profile.
abbrev json : JsonPatch
json = record { merge_patch = λ p raw. some raw; unmarshal = λ raw. some unverified }

-- Another session's write, which says that the correction is withdrawn.
abbrev withdrawn : AccessibilityProfile
withdrawn = record verified { user_verified = false; submitted_by = none; updated_at = 90 }

upsert-keeps_out_example :
    upsert_profile_attempt server json "p1" "{}"
      (λ p. p)
      (run_with city 1 1 (record { elapsed = 1; arrival = some withdrawn; fault = none }) [])
    ≡ upsert_profile_attempt server json "p1" "{}"
        (λ p. p)
        (run_with city 1 1 (calm 1) (defer withdrawn []))
upsert-keeps_out_example =
    upsert-keeps_out server json "{}" (λ p. p) verified withdrawn city 1 1 1 [] refl refl "{}"
      unverified refl refl

-- The place without a profile, until another session creates one.
abbrev bare_city : Db
bare_city = record city { profiles = [] }

upsert_profile-retries_example :
    let r = upsert_profile server json "p1" "{}" (λ p. p) (raced verified bare_city 1 1 1) in
    (r.0 ≡ ok (record unverified { updated_at = 103 }, false))
    × (profile_of "p1" r.1.profiles
        ≡ some (
            profile_columns server
              (patch_columns 103 (record unverified { updated_at = 103 }) verified)))
upsert_profile-retries_example =
    upsert_profile-retries server json "{}" "{}" "{}" (λ p. p) verified unverified unverified
      bare_city 1 1 1 refl refl refl refl refl refl
