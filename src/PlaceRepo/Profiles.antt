-- ===== src/PlaceRepo/Profiles.antt =====
-- UpsertProfile and UpsertProfileIngestion of internal/place/repository.go. The JSON merge patch
-- (github.com/evanphx/json-patch, with the codecs around it) is a parameter: from the stored profile,
-- or `none` for "{}", and the raw patch it gives the merged profile, or the text of its error.
pub mod Verified
pub mod Patched
pub mod Race
pub mod Locked
pub mod Retry
pub mod Untouched
use inwheel_server.Prelude.{
  ℕ, suc, ◌+◌, String, Bool, true, false, not, ◌||◌, Option, none, some, List, [], ◌∷◌, ◌==◌,
  if◌then◌else◌, any, find_first,
}
use inwheel_server.Prelude.Result.{
  Error, sentinel, message, pg_error, wrap, has_pg_code, Result, ok, err, Action, ◌>>=◌, ◌>>◌, pure,
  fail, annotate,
}
use inwheel_server.Models.Profile.{Time, AccessibilityProfile}
use inwheel_server.Models.Place.{Place}
use inwheel_server.Db.{Db, Postgres, statement}
use inwheel_server.PlaceRepo.Places.{has_place, id_or}

abbrev pub place_not_found : Error
place_not_found = sentinel "place not found"

abbrev pub invalid_patch : String
invalid_patch = "invalid merge patch"

abbrev pub unique_violation : String
unique_violation = "23505"

abbrev pub of_place : String → AccessibilityProfile → Bool
of_place place_id p = p.place_id == place_id

abbrev pub profile_of : String → List AccessibilityProfile → Option AccessibilityProfile
profile_of place_id ps = find_first (of_place place_id) ps

-- tx.First(&existing), with or without FOR UPDATE.
abbrev pub lock_row : Bool → String → Option AccessibilityProfile → Db → Db
lock_row true place_id (some p) db = record db { locked = some place_id }
lock_row _ _ _ db = db

abbrev pub load_body : Bool → String → Action Db (Option AccessibilityProfile)
load_body for_update place_id db =
    let found = profile_of place_id db.profiles in (ok found, lock_row for_update place_id found db)

unfoldable pub load_existing : Bool → String → Action Db (Option AccessibilityProfile)
load_existing for_update place_id = statement (load_body for_update place_id)

-- What the columns keep of the times of a row.
abbrev pub kept_time : Postgres → Option Time → Option Time
kept_time pg none = none
kept_time pg (some t) = some (pg.timestamptz t)

abbrev pub profile_columns : Postgres → AccessibilityProfile → AccessibilityProfile
profile_columns pg a = record a {
  updated_at = pg.timestamptz a.updated_at;
  submitted_at = kept_time pg a.submitted_at;
}

-- tx.Create(&profile): the constraints are the id, the place's id, and that the place exists.
abbrev pub create_body : Postgres → AccessibilityProfile → Action Db AccessibilityProfile
create_body pg p db =
    let row = record p { id = id_or (pg.gen_random_uuid db.next_uuid) p.id } in
    if any (λ q. q.id == row.id) db.profiles || any (of_place p.place_id) db.profiles
    then (err (pg_error unique_violation), db)
    else if not (any (has_place p.place_id) db.places)
    then (err (pg_error "23503"), db)
    else (
      ok row,
      record db { profiles = profile_columns pg row ∷ db.profiles; next_uuid = suc db.next_uuid },
    )

unfoldable pub create_profile : Postgres → AccessibilityProfile → Action Db AccessibilityProfile
create_profile pg p = statement (create_body pg p)

-- tx.Model(&existing).Updates(…): the rows with the id are rewritten; the answer is RowsAffected > 0.
unfoldable pub update_rows :
    String
    → (AccessibilityProfile → AccessibilityProfile)
    → List AccessibilityProfile
    → List AccessibilityProfile
update_rows id f [] = []
update_rows id f (p ∷ ps) = (if p.id == id then f p else p) ∷ update_rows id f ps

unfoldable pub update_profile :
    String → (AccessibilityProfile → AccessibilityProfile) → Action Db Bool
update_profile id f = statement (λ db.
    (ok (any (λ p. p.id == id) db.profiles), record db { profiles = update_rows id f db.profiles }))

-- The row lock ends with the transaction. Each transaction writes in its last statement only, and the
-- entry of the script for that statement is that of the write and its commit: if either fails nothing
-- is stored, both errors are returned as they are, and a rollback has nothing to undo. The commit of a
-- transaction that has only read does not fail.
abbrev pub transaction {ℓ} : {A : Type ℓ} → Action Db A → Action Db A
transaction m db = let (r, db') = m db in (r, record db' { locked = none })

-- The map of columns in upsertProfileAttempt.
abbrev pub patch_columns : Time → AccessibilityProfile → AccessibilityProfile → AccessibilityProfile
patch_columns now merged p = record p {
  source_reports = merged.source_reports;
  entrance = merged.entrance;
  pathways = merged.pathways;
  restroom = merged.restroom;
  parking = merged.parking;
  elevator = merged.elevator;
  updated_at = now;
  submitted_by = merged.submitted_by;
  submitted_at = merged.submitted_at;
  user_verified = merged.user_verified;
}

-- The map of columns in UpsertProfileIngestion.
abbrev pub ingestion_columns :
    Time → AccessibilityProfile → AccessibilityProfile → AccessibilityProfile
ingestion_columns now profile p = record p {
  source_reports = profile.source_reports;
  entrance = profile.entrance;
  pathways = profile.pathways;
  restroom = profile.restroom;
  parking = profile.parking;
  elevator = profile.elevator;
  updated_at = now;
  submitted_by = none;
  submitted_at = none;
}

unfoldable pub check_place : String → Action Db (Unit {0})
check_place place_id = do
  found ←
      annotate "upsert profile: check place"
        (statement (λ db. (ok (any (has_place place_id) db.places), db)))
  if found then pure tt else fail place_not_found

-- What the attempt hands to the JSON packages: json.Marshal of the stored row and
-- jsonpatch.MergePatch, then json.Unmarshal; `none` is an error of theirs.
pub record JsonPatch : Type 0 where
  pub merge_patch : Option AccessibilityProfile → String → Option String
  pub unmarshal : String → Option AccessibilityProfile

abbrev pub unmarshalled : Option AccessibilityProfile → Result AccessibilityProfile
unmarshalled none = err (message "upsert profile: unmarshal merged")
unmarshalled (some p) = ok p

abbrev pub patched : JsonPatch → Option String → Result AccessibilityProfile
patched json none = err (wrap invalid_patch (sentinel invalid_patch))
patched json (some text) = unmarshalled (json.unmarshal text)

abbrev pub merged_with :
    JsonPatch → Option AccessibilityProfile → String → Action Db AccessibilityProfile
merged_with json existing raw db = (patched json (json.merge_patch existing raw), db)

abbrev pub save_merged :
    Postgres
    → String
    → Time
    → Option AccessibilityProfile
    → AccessibilityProfile
    → Action Db (AccessibilityProfile × Bool)
save_merged pg place_id now none merged = do
  row ← create_profile pg (record merged { place_id = place_id })
  pure (row, true)
save_merged pg place_id now (some existing) merged = do
  _ ← update_profile existing.id (λ p. profile_columns pg (patch_columns now merged p))
  pure (merged, false)

unfoldable pub upsert_profile_attempt :
    Postgres
    → JsonPatch
    → String
    → String
    → (AccessibilityProfile → AccessibilityProfile)
    → Action Db (AccessibilityProfile × Bool)
unfolding load_existing create_profile update_profile check_place
upsert_profile_attempt pg json place_id raw prepare db =
    transaction
      (do
        check_place place_id
        existing ← annotate "upsert profile: load existing" (load_existing true place_id)
        merged ← merged_with json existing raw
        save_merged pg place_id db.clock existing
            (record (prepare merged) { updated_at = db.clock }))
      db

abbrev pub retry_or :
    Result (AccessibilityProfile × Bool)
    → Action Db (AccessibilityProfile × Bool)
    → Action Db (AccessibilityProfile × Bool)
retry_or (ok r) again db = (ok r, db)
retry_or (err e) again db = if has_pg_code unique_violation e then again db else (err e, db)

-- The loop of two attempts.
unfoldable pub upsert_profile :
    Postgres
    → JsonPatch
    → String
    → String
    → (AccessibilityProfile → AccessibilityProfile)
    → Action Db (AccessibilityProfile × Bool)
upsert_profile pg json place_id raw prepare db =
    let (r, db') = upsert_profile_attempt pg json place_id raw prepare db in
    retry_or r (upsert_profile_attempt pg json place_id raw prepare) db'

abbrev pub save_ingested :
    Postgres → String → Time → AccessibilityProfile → Option AccessibilityProfile → Action Db Bool
save_ingested pg place_id now profile none = do
  _ ←
      create_profile pg
        (record profile { place_id = place_id; updated_at = now; user_verified = false })
  pure true
save_ingested pg place_id now profile (some existing) =
    if existing.user_verified
    then pure false
    else update_profile existing.id (λ p. profile_columns pg (ingestion_columns now profile p))

-- `none` is the nil profile.
unfoldable pub upsert_profile_ingestion :
    Postgres → String → Option AccessibilityProfile → Action Db Bool
unfolding load_existing create_profile update_profile
upsert_profile_ingestion pg place_id none db =
    (err (message "upsert profile ingestion: nil profile"), db)
upsert_profile_ingestion pg place_id (some profile) db =
    transaction
      (do
        existing ← annotate "upsert profile ingestion: load existing" (load_existing false place_id)
        save_ingested pg place_id db.clock profile existing)
      db
