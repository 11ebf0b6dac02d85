-- ===== src/PlaceRepo/Profiles/Race.antt =====
-- UpsertProfileIngestion of internal/place/repository.go against a write of another session that
-- falls between its two statements.
use mathlib.Core.Option
use inwheel_server.Prelude.{
  ℕ, String, true, false, none, some, List, [], ◌∷◌, ◌≡◌, refl, any, arith, if◌then◌else◌, ◌==◌,
  eq_iff, eq_refl,
}
use inwheel_server.Prelude.Result.{ok}
use inwheel_server.Models.Profile.{AccessibilityProfile}
use inwheel_server.Db.{Db, Step, Postgres, statement, put_profile}
use inwheel_server.PlaceRepo.Profiles.{
  profile_of, update_rows, profile_columns, ingestion_columns, upsert_profile_ingestion,
}

pub profile_of-put_profile :
    (a : AccessibilityProfile) (ps : List AccessibilityProfile)
    → profile_of a.place_id (put_profile a ps) ≡ some a
unfolding put_profile
profile_of-put_profile a [] = ground (arith, eq_refl a.place_id)
profile_of-put_profile a (p ∷ ps) = ground (arith, eq_refl a.place_id, profile_of-put_profile a ps)

any_id-put_profile :
    (a : AccessibilityProfile) (id : String) (ps : List AccessibilityProfile)
    → a.id ≡ id
    → any (λ p. p.id == id) (put_profile a ps) ≡ true
unfolding put_profile
any_id-put_profile a id [] h = ground (arith, eq_iff a.id id)
any_id-put_profile a id (p ∷ ps) h = ground (arith, eq_iff a.id id, any_id-put_profile a id ps h)

-- An update that keeps the places' ids.
pub profile_of-update_rows :
    (id k : String) (f : AccessibilityProfile → AccessibilityProfile)
    (same : (p : AccessibilityProfile) → (f p).place_id ≡ p.place_id)
    (ps : List AccessibilityProfile)
    → profile_of k (update_rows id f ps)
      ≡ Option.map (λ p. if p.id == id then f p else p) (profile_of k ps)
unfolding update_rows
profile_of-update_rows id k f same [] = refl
profile_of-update_rows id k f same (p ∷ ps) =
    ground (arith, same p, profile_of-update_rows id k f same ps)

-- If another session's profile of the same row is committed between the import's read of an
-- unverified profile and its update, the import reports a write, and the stored row has every
-- component and report of the import and no submitter, but is verified if the overwritten profile was.
pub ingestion_overwrites_concurrent :
    (pg : Postgres) (profile stored mine : AccessibilityProfile) (db : Db) (t u : ℕ)
    (rest : List Step)
    → db.locked ≡ none
    → profile_of mine.place_id db.profiles ≡ some stored
    → stored.user_verified ≡ false
    → mine.id ≡ stored.id
    → db.script
      ≡ record { elapsed = t; arrival = none; fault = none }
        ∷ record { elapsed = u; arrival = some mine; fault = none }
        ∷ rest
    → let r = upsert_profile_ingestion pg mine.place_id (some profile) db in
      (r.0 ≡ ok true)
      × (row : AccessibilityProfile) × (profile_of mine.place_id r.1.profiles ≡ some row)
      × (row.user_verified ≡ mine.user_verified)
      × (row.submitted_by ≡ none)
      × (row.source_reports ≡ profile.source_reports)
      × (row.entrance ≡ profile.entrance)
      × (row.pathways ≡ profile.pathways)
      × (row.restroom ≡ profile.restroom)
      × (row.parking ≡ profile.parking)
      × (row.elevator ≡ profile.elevator)
unfolding upsert_profile_ingestion statement
ingestion_overwrites_concurrent pg profile stored mine db t u rest free found fresh same script =
    let change : AccessibilityProfile → AccessibilityProfile =
      λ p. profile_columns pg (ingestion_columns db.clock profile p) in
    rw (script, found, fresh, free)
      (
        ground (arith, any_id-put_profile mine stored.id db.profiles same),
        change mine,
        ground (
          arith,
          profile_of-put_profile mine db.profiles,
          eq_iff mine.id stored.id,
          profile_of-update_rows stored.id mine.place_id change (λ p. refl)
              (put_profile mine db.profiles),
        ),
        refl,
        refl,
        refl,
        refl,
        refl,
        refl,
        refl,
        refl,
      )
