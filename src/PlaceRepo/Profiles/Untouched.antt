-- ===== src/PlaceRepo/Profiles/Untouched.antt =====
-- UpsertProfile of internal/place/repository.go and the table of API keys.
use inwheel_server.Prelude.{
  String, Bool, true, false, Option, none, some, ◌≡◌, refl, ap, ◌∙◌, inl, inr, Bool-cases, any,
  ◌==◌, ◌||◌, if◌then◌else◌,
}
use inwheel_server.Prelude.Result.{
  Result, ok, err, Action, continue, ◌>>=◌, annotate, pure, fail, has_pg_code,
}
use inwheel_server.Models.Profile.{Time, AccessibilityProfile}
use inwheel_server.Db.{Db, Postgres, statement}
use inwheel_server.Db.Laws.{statement-cases}
use inwheel_server.PlaceRepo.Places.{has_place, id_or}
use inwheel_server.PlaceRepo.Profiles.{
  of_place, JsonPatch, load_body, lock_row, load_existing, create_body, create_profile,
  update_profile, check_place, merged_with, save_merged, upsert_profile_attempt, upsert_profile,
  retry_or, profile_of, place_not_found, unique_violation,
}

abbrev pub SameKeys : {A : Type 0} → Action Db A → Type 0
SameKeys m = (db : Db) → (m db).1.api_keys ≡ db.api_keys

pub statement-SameKeys :
    {A : Type 0} (body : Action Db A) → SameKeys body → SameKeys (statement body)
statement-SameKeys body same db =
    let (s, rows, cases) = statement-cases body db in
    elim cases [
      | inl e ↦ ap (λ r. r.1.api_keys) e ∙ same s ∙ rows.api_keys
      | inr (x, e) ↦ ap (λ r. r.1.api_keys) e ∙ rows.api_keys
    ]

continue-SameKeys :
    {A B : Type 0} (r : Result A) (f : A → Action Db B)
    → ((a : A) → SameKeys (f a))
    → SameKeys (continue r f)
continue-SameKeys (ok a) f same db = same a db
continue-SameKeys (err e) f same db = refl

pub bind-SameKeys :
    {A B : Type 0} (m : Action Db A) (f : A → Action Db B)
    → SameKeys m
    → ((a : A) → SameKeys (f a))
    → SameKeys (m >>= f)
bind-SameKeys m f first rest db = continue-SameKeys (m db).0 f rest (m db).1 ∙ first db

lock_row-keys :
    (for_update : Bool) (id : String) (o : Option AccessibilityProfile) (db : Db)
    → (lock_row for_update id o db).api_keys ≡ db.api_keys
lock_row-keys true id (some p) db = refl
lock_row-keys true id none db = refl
lock_row-keys false id (some p) db = refl
lock_row-keys false id none db = refl

module _ (pg : Postgres) (json : JsonPatch) (id raw : String)
    (prepare : AccessibilityProfile → AccessibilityProfile) where
  create_body-SameKeys : (p : AccessibilityProfile) → SameKeys (create_body pg p)
  create_body-SameKeys p db =
      let row = record p { id = id_or (pg.gen_random_uuid db.next_uuid) p.id } in
      elim (Bool-cases
        (any (λ q. q.id == row.id) db.profiles || any (of_place p.place_id) db.profiles)) [
          | inl y ↦ rw y refl
          | inr n ↦ elim (Bool-cases (any (has_place p.place_id) db.places)) [
            | inl y ↦ rw (n, y) refl
            | inr m ↦ rw (n, m) refl
          ]
        ]

  save_merged-SameKeys :
      (now : Time) (existing : Option AccessibilityProfile) (merged : AccessibilityProfile)
      → SameKeys (save_merged pg id now existing merged)
  unfolding create_profile update_profile
  save_merged-SameKeys now none merged =
      bind-SameKeys _ _
        (statement-SameKeys _ (create_body-SameKeys (record merged { place_id = id })))
        (λ row db. refl)
  save_merged-SameKeys now (some existing) merged =
      bind-SameKeys _ _ (statement-SameKeys _ (λ db. refl)) (λ _ db. refl)

  load_existing-SameKeys : SameKeys (load_existing true id)
  unfolding load_existing
  load_existing-SameKeys =
      statement-SameKeys (load_body true id)
        (λ s. lock_row-keys true id (profile_of id s.profiles) s)

  found-SameKeys : (found : Bool) → SameKeys (if found then pure tt else fail place_not_found)
  found-SameKeys true db = refl
  found-SameKeys false db = refl

  check_place-SameKeys : SameKeys (check_place id)
  unfolding check_place
  check_place-SameKeys =
      let found =
        annotate "upsert profile: check place"
          (statement (λ db. (ok (any (has_place id) db.places), db))) in
      bind-SameKeys found (λ b. if b then pure tt else fail place_not_found)
        (statement-SameKeys (λ db. (ok (any (has_place id) db.places), db)) (λ db. refl))
        found-SameKeys

  merge_and_save : Time → Option AccessibilityProfile → Action Db (AccessibilityProfile × Bool)
  merge_and_save now existing = do
    merged ← merged_with json existing raw
    save_merged pg id now existing (record (prepare merged) { updated_at = now })

  merge_and_save-SameKeys :
      (now : Time) (existing : Option AccessibilityProfile) → SameKeys (merge_and_save now existing)
  unfolding merge_and_save
  merge_and_save-SameKeys now existing =
      bind-SameKeys (merged_with json existing raw)
        (λ merged. save_merged pg id now existing (record (prepare merged) { updated_at = now }))
        (λ s. refl)
        (λ merged. save_merged-SameKeys now existing (record (prepare merged) { updated_at = now }))

  attempt-SameKeys : SameKeys (upsert_profile_attempt pg json id raw prepare)
  unfolding upsert_profile_attempt merge_and_save
  attempt-SameKeys db =
      let now = db.clock in
      let load = annotate "upsert profile: load existing" (load_existing true id) in
      bind-SameKeys (check_place id) (λ _. load >>= merge_and_save now) check_place-SameKeys
        (λ _.
          bind-SameKeys load (merge_and_save now) load_existing-SameKeys
            (merge_and_save-SameKeys now))
        db

  retry-SameKeys :
      (r : Result (AccessibilityProfile × Bool))
      → SameKeys (retry_or r (upsert_profile_attempt pg json id raw prepare))
  retry-SameKeys (ok a) db = refl
  retry-SameKeys (err e) db = elim (Bool-cases (has_pg_code unique_violation e)) [
    | inl y ↦ rw y (attempt-SameKeys db)
    | inr n ↦ rw n refl
  ]

  pub upsert_profile-SameKeys : SameKeys (upsert_profile pg json id raw prepare)
  unfolding upsert_profile
  upsert_profile-SameKeys db =
      let first = upsert_profile_attempt pg json id raw prepare db in
      retry-SameKeys first.0 first.1 ∙ attempt-SameKeys db
