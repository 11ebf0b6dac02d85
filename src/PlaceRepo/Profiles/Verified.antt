-- ===== src/PlaceRepo/Profiles/Verified.antt =====
-- UpsertProfileIngestion of internal/place/repository.go over a verified profile.
use inwheel_server.Prelude.{
  String, true, none, some, ◌≡◌, ◌≢◌, refl, inl, inr, Option-cases, List-cases,
}
use inwheel_server.Prelude.Result.{ok}
use inwheel_server.Models.Profile.{AccessibilityProfile}
use inwheel_server.Db.{Db, Postgres, statement}
use inwheel_server.Db.Quiet.{IsQuiet}
use inwheel_server.PlaceRepo.Profiles.{profile_of, upsert_profile_ingestion}

-- An import of a profile for a place whose stored profile is verified writes nothing: the table is
-- unchanged, and the answer, if there is one, is that nothing was written. No other session writes
-- profiles meanwhile; time may pass and statements may fail.
pub ingestion-keeps_verified :
    (pg : Postgres) (place_id : String) (profile stored : AccessibilityProfile) (db : Db)
    → IsQuiet db.script
    → profile_of place_id db.profiles ≡ some stored
    → stored.user_verified ≡ true
    → ((upsert_profile_ingestion pg place_id (some profile) db).1.profiles ≡ db.profiles)
      × ((upsert_profile_ingestion pg place_id (some profile) db).0 ≢ ok true)
unfolding upsert_profile_ingestion statement
ingestion-keeps_verified pg place_id profile stored db quiet found verified =
    elim (List-cases db.script) [
      | inl e ↦ rw (e, found, verified) (refl, λ h. cc h)
      | inr (step, rest, e) ↦
          let none' : step.arrival ≡ none = (rw e at quiet).0 in
          elim (Option-cases step.fault) [
            | inl f ↦ rw (e, none', f, found, verified) (refl, λ h. cc h)
            | inr (x, f) ↦ rw (e, none', f) (refl, λ h. cc h)
          ]
    ]
