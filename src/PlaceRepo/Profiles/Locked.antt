-- ===== src/PlaceRepo/Profiles/Locked.antt =====
-- UpsertProfile of internal/place/repository.go against a write of another session that falls between
-- its read and its update.
use inwheel_server.Prelude.{ℕ, String, true, none, some, List, ◌∷◌, ◌≡◌, arith, any, eq_refl}
use inwheel_server.Models.Profile.{AccessibilityProfile}
use inwheel_server.Db.{Db, Step, Postgres, statement, defer}
use inwheel_server.PlaceRepo.Places.{has_place}
use inwheel_server.PlaceRepo.Profiles.{JsonPatch, profile_of, upsert_profile_attempt}

abbrev pub calm : ℕ → Step
calm t = record { elapsed = t; arrival = none; fault = none }

abbrev pub run_with : Db → ℕ → ℕ → Step → List Step → Db
run_with db t u step rest = record db { script = calm t ∷ calm u ∷ step ∷ rest }

-- If the place has a profile and another session tries to write it between the locked read and the
-- update of an attempt, everything ends, the answer and the database, as if that write had come right
-- after the attempt: it is neither seen by the merge nor lost. The place is there.
pub upsert-keeps_out :
    (pg : Postgres) (json : JsonPatch) (raw : String)
    (prepare : AccessibilityProfile → AccessibilityProfile) (stored mine : AccessibilityProfile)
    (db : Db) (t u v : ℕ) (rest : List Step)
    → profile_of mine.place_id db.profiles ≡ some stored
    → any (has_place mine.place_id) db.places ≡ true
    → (raw' : String) (merged : AccessibilityProfile)
    → json.merge_patch (some stored) raw ≡ some raw'
    → json.unmarshal raw' ≡ some merged
    → upsert_profile_attempt pg json mine.place_id raw prepare
        (run_with db t u (record { elapsed = v; arrival = some mine; fault = none }) rest)
      ≡ upsert_profile_attempt pg json mine.place_id raw prepare
          (run_with db t u (calm v) (defer mine rest))
unfolding upsert_profile_attempt statement
upsert-keeps_out pg json raw prepare stored mine db t u v rest found there raw' merged patch read =
    rw (there, found, patch, read) (ground (arith, eq_refl mine.place_id))
