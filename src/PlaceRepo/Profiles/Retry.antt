-- ===== src/PlaceRepo/Profiles/Retry.antt =====
-- UpsertProfile of internal/place/repository.go when another session creates the profile first.
use inwheel_server.Prelude.{
  ℕ, ◌+◌, String, Bool, true, false, ◌||◌, none, some, List, [], ◌∷◌, ◌≡◌, refl, arith, any,
  eq_refl,
}
use inwheel_server.Prelude.Result.{ok, err, pg_error, has_pg_code}
use inwheel_server.Models.Profile.{Time, AccessibilityProfile}
use inwheel_server.Db.{Db, Postgres, statement, put_profile}
use inwheel_server.PlaceRepo.Places.{has_place}
use inwheel_server.PlaceRepo.Profiles.{
  JsonPatch, profile_of, of_place, unique_violation, update_rows, patch_columns, profile_columns,
  upsert_profile_attempt, upsert_profile,
}
use inwheel_server.PlaceRepo.Profiles.Race.{profile_of-put_profile, profile_of-update_rows}
use inwheel_server.PlaceRepo.Profiles.Locked.{calm}

or_any :
    (b : Bool) (a : AccessibilityProfile) (ps : List AccessibilityProfile)
    → (b || any (of_place a.place_id) (put_profile a ps)) ≡ true
unfolding put_profile
or_any b a [] = ground (arith, eq_refl a.place_id)
or_any b a (p ∷ ps) = ground (arith, eq_refl a.place_id, or_any b a ps)

-- The run in which `mine` is committed between the read and the insert of the first attempt.
abbrev pub raced : AccessibilityProfile → Db → ℕ → ℕ → ℕ → Db
raced mine db t u v = record db {
  script = calm t ∷ calm u ∷ record { elapsed = v; arrival = some mine; fault = none } ∷ [];
  locked = none;
}

abbrev pub after_race : AccessibilityProfile → Db → ℕ → ℕ → ℕ → Db
after_race mine db t u v = record db {
  clock = db.clock + t + u + v;
  script = [];
  profiles = put_profile mine db.profiles;
  locked = none;
}

module _ (pg : Postgres) (json : JsonPatch) (raw : String)
    (prepare : AccessibilityProfile → AccessibilityProfile) (mine : AccessibilityProfile) where
  attempt_loses :
      (db : Db) (t u v : ℕ) (text : String) (m : AccessibilityProfile)
      → any (has_place mine.place_id) db.places ≡ true
      → profile_of mine.place_id db.profiles ≡ none
      → json.merge_patch none raw ≡ some text
      → json.unmarshal text ≡ some m
      → upsert_profile_attempt pg json mine.place_id raw prepare (raced mine db t u v)
        ≡ (err (pg_error unique_violation), after_race mine db t u v)
  unfolding upsert_profile_attempt statement
  attempt_loses db t u v text m there missing patched' read =
      rw (there, missing, patched', read) (rw (or_any _ mine db.profiles) refl)

  -- What an attempt on a stored profile answers and stores.
  abbrev pub merged_at : Time → AccessibilityProfile → AccessibilityProfile
  merged_at now m = record (prepare m) { updated_at = now }

  attempt_merges :
      (s : Db) (text : String) (m : AccessibilityProfile)
      → any (has_place mine.place_id) s.places ≡ true
      → profile_of mine.place_id s.profiles ≡ some mine
      → json.merge_patch (some mine) raw ≡ some text
      → json.unmarshal text ≡ some m
      → upsert_profile_attempt pg json mine.place_id raw prepare (record s { script = [] }) ≡ (
        ok (merged_at s.clock m, false),
        record s {
          script = [];
          profiles =
              update_rows mine.id
                (λ p. profile_columns pg (patch_columns s.clock (merged_at s.clock m) p))
                s.profiles;
          locked = none;
        },
      )
  unfolding upsert_profile_attempt statement
  attempt_merges s text m there found patched' read = rw (there, found, patched', read) refl

-- If a place has no profile and another session commits one between the read and the insert of an
-- upsert, the upsert succeeds: its second attempt merges the patch with the other session's profile,
-- answers the result, not as created, and stores it in the other session's row, its times as the
-- columns keep them. The patch can be merged in both attempts, and nothing else happens meanwhile.
pub upsert_profile-retries :
    (pg : Postgres) (json : JsonPatch) (raw text text' : String)
    (prepare : AccessibilityProfile → AccessibilityProfile) (mine m m' : AccessibilityProfile)
    (db : Db) (t u v : ℕ)
    → any (has_place mine.place_id) db.places ≡ true
    → profile_of mine.place_id db.profiles ≡ none
    → json.merge_patch none raw ≡ some text
    → json.unmarshal text ≡ some m
    → json.merge_patch (some mine) raw ≡ some text'
    → json.unmarshal text' ≡ some m'
    → let now = db.clock + t + u + v in
      let r = upsert_profile pg json mine.place_id raw prepare (raced mine db t u v) in
      (r.0 ≡ ok (merged_at pg json raw prepare mine now m', false))
      × (profile_of mine.place_id r.1.profiles
          ≡ some (
              profile_columns pg
                (patch_columns now (merged_at pg json raw prepare mine now m') mine)))
unfolding upsert_profile has_pg_code
upsert_profile-retries pg json raw text text' prepare mine m m' db t u v there missing p q p' q' =
    let s = after_race mine db t u v in
    let now = db.clock + t + u + v in
    let change : AccessibilityProfile → AccessibilityProfile =
      λ p. profile_columns pg (patch_columns now (merged_at pg json raw prepare mine now m') p) in
    let found = profile_of-put_profile mine db.profiles in
    let second = attempt_merges pg json raw prepare mine s text' m' there found p' q' in
    rw (attempt_loses pg json raw prepare mine db t u v text m there missing p q, second)
      (
        refl,
        ground (
          arith,
          found,
          eq_refl mine.id,
          profile_of-update_rows mine.id mine.place_id change (λ x. refl)
              (put_profile mine db.profiles),
        ),
      )
