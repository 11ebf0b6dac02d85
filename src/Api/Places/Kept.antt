-- ===== src/Api/Places/Kept.antt =====
-- PatchPlaceAccessibility of cmd/api/main.go, and an import of internal/place/repository.go after it.
use inwheel_server.Prelude.{
  String, Bool, true, false, Option, some, List, [], ◌∷◌, ◌≡◌, ◌≢◌, refl, arith, ◌==◌,
}
use inwheel_server.Prelude.Result.{Result, ok, err}
use inwheel_server.Models.Profile.{Time, AccessibilityProfile}
use inwheel_server.Db.{Db, Postgres}
use inwheel_server.Db.Quiet.{IsQuiet, Ends, statement-keeps}
use inwheel_server.Audit.{entry, append_log, log}
use inwheel_server.PlaceRepo.Profiles.{JsonPatch, upsert_profile, upsert_profile_ingestion}
use inwheel_server.PlaceRepo.Profiles.Patched.{IsVerified, upsert_profile-IsVerified}
use inwheel_server.PlaceRepo.Profiles.Verified.{ingestion-keeps_verified}
use inwheel_server.Validation.{FieldError, accessibility_profile}
use inwheel_server.Api.Places.{
  prepare_patch, audit_action, answered, patched_200, patch_valid, patch_place_accessibility,
}

prepare_patch-IsVerified :
    (key_id : String) (now : Time) (p : AccessibilityProfile)
    → (key_id == "") ≡ false
    → (prepare_patch key_id now p).user_verified ≡ true
prepare_patch-IsVerified key_id now p h = rw h refl

log-IsVerified :
    (id target_table record_id key_id action : String) (db : Db)
    → IsVerified id db
    → IsQuiet db.script
    → IsVerified id (log target_table record_id key_id action db)
      × IsQuiet (log target_table record_id key_id action db).script
unfolding log
log-IsVerified id target_table record_id key_id action db h quiet =
    statement-keeps (IsVerified id) (append_log (entry target_table record_id key_id action))
      (λ s t rest v. v) (λ s v q. (v, q)) db h quiet

-- What a 200 of the handler leaves behind.
answered-IsVerified :
    (id key_id : String) (r : Result (AccessibilityProfile × Bool)) (db : Db)
    (x : AccessibilityProfile)
    → Ends (λ a s. IsVerified id s) (r, db)
    → (answered key_id r db).0 ≡ ok (patched_200 x)
    → IsVerified id (answered key_id r db).1 × IsQuiet (answered key_id r db).1.script
answered-IsVerified id key_id (ok (p, was_created)) db x (h, quiet) e =
    log-IsVerified id "accessibility_profiles" p.id key_id (audit_action was_created) db h quiet
answered-IsVerified id key_id (err e') db x quiet e = absurd (ground (arith, e))

pub patch-IsVerified :
    (pg : Postgres) (json : JsonPatch) (key_id id raw : String) (x : AccessibilityProfile) (db : Db)
    (es : List FieldError)
    → (key_id == "") ≡ false
    → IsQuiet db.script
    → (patch_valid pg json key_id id raw es db).0 ≡ ok (patched_200 x)
    → IsVerified id (patch_valid pg json key_id id raw es db).1
      × IsQuiet (patch_valid pg json key_id id raw es db).1.script
patch-IsVerified pg json key_id id raw x db (e ∷ es) key quiet h = absurd (ground (arith, h))
patch-IsVerified pg json key_id id raw x db [] key quiet h =
    let prepare = prepare_patch key_id db.clock in
    let r = upsert_profile pg json id raw prepare db in
    answered-IsVerified id key_id r.0 r.1 x
      (upsert_profile-IsVerified pg id json raw prepare
        (λ p. prepare_patch-IsVerified key_id db.clock p key) db tt quiet)
      h

-- After a patch with an API key has answered 200, an import of a profile for the same place writes
-- nothing: the stored profiles are those that the patch left, and the import does not report a write.
-- No other session writes profiles meanwhile; time may pass and statements may fail.
pub ingestion-keeps_patch :
    (pg : Postgres) (json : JsonPatch) (key_id id raw : String) (body : Option AccessibilityProfile)
    (x profile : AccessibilityProfile) (db : Db)
    → (key_id == "") ≡ false
    → IsQuiet db.script
    → (patch_place_accessibility pg json key_id id body raw db).0 ≡ ok (patched_200 x)
    → let after = (patch_place_accessibility pg json key_id id body raw db).1 in
      ((upsert_profile_ingestion pg id (some profile) after).1.profiles ≡ after.profiles)
      × ((upsert_profile_ingestion pg id (some profile) after).0 ≢ ok true)
unfolding patch_place_accessibility
ingestion-keeps_patch pg json key_id id raw body x profile db key quiet h =
    let after = (patch_place_accessibility pg json key_id id body raw db).1 in
    let ((row, found, verified), quiet') =
      patch-IsVerified pg json key_id id raw x db (accessibility_profile body) key quiet h in
    ingestion-keeps_verified pg id profile row after quiet' found verified
