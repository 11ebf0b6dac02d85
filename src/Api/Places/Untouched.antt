-- ===== src/Api/Places/Untouched.antt =====
-- The handlers for a place of cmd/api/main.go and the table of API keys.
use inwheel_server.Prelude.{
  String, Bool, true, false, Option, none, some, List, [], ◌∷◌, ◌≡◌, refl, ◌∙◌, inl, inr,
  Bool-cases, any, suc, find_first, ◌==◌, ◌||◌,
}
use inwheel_server.Prelude.Result.{Result, ok, err, ◌>>=◌}
use inwheel_server.Models.Profile.{AccessibilityProfile}
use inwheel_server.Models.Place.{Place}
use inwheel_server.Db.{Db, Postgres, statement}
use inwheel_server.Audit.{entry, append_log, log}
use inwheel_server.PlaceRepo.Places.{has_place, id_or, rank_ok, conflicts}
use inwheel_server.PlaceRepo.Profiles.{JsonPatch, upsert_profile}
use inwheel_server.Validation.{FieldError, accessibility_profile, place}
use inwheel_server.Api.List.{preload}
use inwheel_server.Api.Places
use inwheel_server.PlaceRepo.Profiles.Untouched.{
  SameKeys, statement-SameKeys, bind-SameKeys, upsert_profile-SameKeys,
}
use inwheel_server.Api.List.Untouched.{preload-SameKeys}

log-SameKeys :
    (target_table record_id key_id action : String) (db : Db)
    → (log target_table record_id key_id action db).api_keys ≡ db.api_keys
unfolding log
log-SameKeys target_table record_id key_id action =
    statement-SameKeys (append_log (entry target_table record_id key_id action)) (λ db. refl)

module _ (pg : Postgres) (key_id : String) where
  answered-SameKeys :
      (r : Result (AccessibilityProfile × Bool)) → SameKeys (Places.answered key_id r)
  answered-SameKeys (ok (p, true)) db =
      log-SameKeys "accessibility_profiles" p.id key_id "create" db
  answered-SameKeys (ok (p, false)) db =
      log-SameKeys "accessibility_profiles" p.id key_id "update" db
  answered-SameKeys (err e) db = refl

  patch_valid-SameKeys :
      (json : JsonPatch) (id raw : String) (es : List FieldError)
      → SameKeys (Places.patch_valid pg json key_id id raw es)
  patch_valid-SameKeys json id raw (e ∷ es) db = refl
  patch_valid-SameKeys json id raw [] db =
      let prepare = Places.prepare_patch key_id db.clock in
      let r = upsert_profile pg json id raw prepare db in
      answered-SameKeys r.0 r.1 ∙ upsert_profile-SameKeys pg json id raw prepare db

  pub patch-SameKeys :
      (json : JsonPatch) (id raw : String) (body : Option AccessibilityProfile)
      → SameKeys (Places.patch_place_accessibility pg json key_id id body raw)
  unfolding Places.patch_place_accessibility
  patch-SameKeys json id raw body = patch_valid-SameKeys json id raw (accessibility_profile body)

  insert_nested-SameKeys :
      (p : Place) (o : Option AccessibilityProfile) → SameKeys (Places.insert_nested pg p o)
  insert_nested-SameKeys p none db = refl
  insert_nested-SameKeys p (some a) db =
      let row_id = id_or (pg.gen_random_uuid (suc db.next_uuid)) a.id in
      elim (Bool-cases (any (λ q. q.id == row_id || q.place_id == p.id) db.profiles)) [
        | inl y ↦ rw y refl
        | inr n ↦ rw n refl
      ]

  create_body-keeps : (p : Place) → SameKeys (Places.create_body pg p)
  create_body-keeps p db =
      let row = Places.placed pg db p in
      elim (Bool-cases (rank_ok p)) [
        | inr n ↦ rw n refl
        | inl y ↦ elim (Bool-cases (any (λ q. q.id == row.id || conflicts p q) db.places)) [
          | inl z ↦ rw (y, z) refl
          | inr z ↦ elim (Bool-cases (Places.parent_ok db.places p.parent_id)) [
            | inr n ↦ rw (y, z, n) refl
            | inl u ↦ rw (y, z, u) (insert_nested-SameKeys row p.accessibility db)
          ]
        ]
      ]

  log_profile-SameKeys :
      (o : Option AccessibilityProfile) (db : Db)
      → (Places.log_profile key_id o db).api_keys ≡ db.api_keys
  log_profile-SameKeys none db = refl
  log_profile-SameKeys (some a) db = log-SameKeys "accessibility_profiles" a.id key_id "create" db

  created-SameKeys : (r : Result Place) → SameKeys (Places.created key_id r)
  created-SameKeys (err e) db = refl
  created-SameKeys (ok p) db =
      log_profile-SameKeys p.accessibility (log "places" p.id key_id "create" db)
      ∙ log-SameKeys "places" p.id key_id "create" db

  create_valid-SameKeys :
      (p : Place) (es : List FieldError) → SameKeys (Places.create_valid pg key_id p es)
  create_valid-SameKeys p (e ∷ es) db = refl
  create_valid-SameKeys p [] db =
      let body = Places.create_body pg (Places.submitted key_id db.clock p) in
      let r = statement body db in
      created-SameKeys r.0 r.1
      ∙ statement-SameKeys body (create_body-keeps (Places.submitted key_id db.clock p)) db

  pub create_place-SameKeys : (p : Place) → SameKeys (Places.create_place pg key_id p)
  unfolding Places.create_place
  create_place-SameKeys p = create_valid-SameKeys p (place (some p))

first_place-SameKeys : (id : String) → SameKeys (Places.first_place id)
unfolding Places.first_place
first_place-SameKeys id =
    let row = statement (λ s. (ok (find_first (has_place id) s.places), s)) in
    bind-SameKeys row
      (λ o. preload (Places.as_list o) >>= (λ places s. (ok (Places.first_of places), s)))
      (statement-SameKeys (λ s. (ok (find_first (has_place id) s.places), s)) (λ s. refl))
      (λ o.
        bind-SameKeys (preload (Places.as_list o)) (λ places s. (ok (Places.first_of places), s))
          (preload-SameKeys (Places.as_list o)) (λ places s. refl))

with_parent-SameKeys : (p : Place) (parent : Option String) → SameKeys (Places.with_parent p parent)
with_parent-SameKeys p none db = refl
with_parent-SameKeys p (some id) db = first_place-SameKeys id db

got-SameKeys : (r : Result (Option Place)) → SameKeys (Places.got r)
got-SameKeys (err e) db = refl
got-SameKeys (ok none) db = refl
got-SameKeys (ok (some p)) db = with_parent-SameKeys p p.parent_id db

pub get_place-SameKeys : (id : String) → SameKeys (Places.get_place id)
unfolding Places.get_place
get_place-SameKeys id db =
    let r = Places.first_place id db in got-SameKeys r.0 r.1 ∙ first_place-SameKeys id db
