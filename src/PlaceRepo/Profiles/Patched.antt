-- ===== src/PlaceRepo/Profiles/Patched.antt =====
-- UpsertProfile of internal/place/repository.go, with a patch that marks the profile as verified.
use inwheel_server.Prelude.{
  String, Bool, true, false, Option, none, some, ◌≡◌, refl, arith, if◌then◌else◌, ◌==◌, eq_refl,
  eq_iff, ◌||◌, any, inl, inr, Bool-cases, Option-cases,
}
use inwheel_server.Prelude.Result.{
  Result, ok, err, Action, annotate, ◌>>=◌, ◌>>◌, pure, fail, has_pg_code,
}
use inwheel_server.Models.Profile.{Time, AccessibilityProfile}
use inwheel_server.Db.{Db, Postgres, statement}
use inwheel_server.Db.Quiet.{
  IsQuiet, Ends, Ensures, Ensures-bind, Ensures-annotate, Ensures-statement,
}
use inwheel_server.PlaceRepo.Places.{has_place, id_or}
use inwheel_server.PlaceRepo.Profiles.{
  place_not_found, profile_columns, of_place, profile_of, load_body, create_body, load_existing,
  create_profile, update_profile, update_rows, patch_columns, check_place, JsonPatch, merged_with,
  patched, save_merged, upsert_profile_attempt, retry_or, unique_violation, upsert_profile,
}
use inwheel_server.PlaceRepo.Profiles.Race.{profile_of-update_rows}

abbrev pub Anything : Db → Type 0
Anything db = Unit {0}

-- The place has a stored profile, and it is verified.
abbrev pub IsVerified : String → Db → Type 0
IsVerified id db =
    (row : AccessibilityProfile) × (profile_of id db.profiles ≡ some row)
    × (row.user_verified ≡ true)

check_place-quiet : (id : String) → Ensures Anything (check_place id) (λ a db. Unit {0})
unfolding check_place
check_place-quiet id =
    Ensures-bind Anything (λ found db. Unit {0}) (λ a db. Unit {0})
      (annotate "upsert profile: check place"
        (statement (λ db. (ok (any (has_place id) db.places), db))))
      (λ found. if found then pure tt else fail place_not_found)
      (Ensures-annotate Anything (λ found db. Unit {0}) "upsert profile: check place"
        (statement (λ db. (ok (any (has_place id) db.places), db)))
        (Ensures-statement Anything (λ found db. Unit {0})
          (λ db. (ok (any (has_place id) db.places), db)) (λ db t rest h. tt)
          (λ db h quiet. (tt, quiet))))
      (λ found. elim (Bool-cases found) [
        | inl y ↦ rw y (λ db h quiet. (tt, quiet))
        | inr n ↦ rw n (λ db h quiet. quiet)
      ])

-- The read gives the stored profile, and leaves it.
load_existing-quiet :
    (id : String)
    → Ensures Anything (load_existing true id) (λ existing db. profile_of id db.profiles ≡ existing)
unfolding load_existing
load_existing-quiet id =
    Ensures-statement Anything (λ existing db. profile_of id db.profiles ≡ existing)
      (load_body true id) (λ db t rest h. tt)
      (λ db h quiet. elim (Option-cases (profile_of id db.profiles)) [
        | inl e ↦ rw e (e, quiet)
        | inr (p, e) ↦ rw e (e, quiet)
      ])

module _ (pg : Postgres) (id : String) where
  create_profile-IsVerified :
      (p : AccessibilityProfile)
      → p.place_id ≡ id
      → p.user_verified ≡ true
      → Ensures Anything (create_profile pg p) (λ row db. IsVerified id db)
  unfolding create_profile
  create_profile-IsVerified p h k =
      Ensures-statement Anything (λ row db. IsVerified id db) (create_body pg p) (λ db t rest h. tt)
        (λ db u quiet.
          let row = record p { id = id_or (pg.gen_random_uuid db.next_uuid) p.id } in
          elim (Bool-cases
            (any (λ q. q.id == row.id) db.profiles || any (of_place p.place_id) db.profiles)) [
              | inl y ↦ rw y quiet
              | inr n ↦ elim (Bool-cases (any (has_place p.place_id) db.places)) [
                | inl there ↦
                    rw (n, there)
                      ((profile_columns pg row, ground (arith, eq_iff p.place_id id), k), quiet)
                | inr missing ↦ rw (n, missing) quiet
              ]
            ])

  update_profile-IsVerified :
      (f : AccessibilityProfile → AccessibilityProfile) (existing : AccessibilityProfile)
      → ((p : AccessibilityProfile) → (f p).place_id ≡ p.place_id)
      → ((p : AccessibilityProfile) → (f p).user_verified ≡ true)
      → Ensures
          (λ db. profile_of id db.profiles ≡ some existing)
          (update_profile existing.id f)
          (λ a db. IsVerified id db)
  unfolding update_profile
  update_profile-IsVerified f existing same v =
      Ensures-statement (λ db. profile_of id db.profiles ≡ some existing) (λ a db. IsVerified id db)
        (λ db. (
          ok (any (λ p. p.id == existing.id) db.profiles),
          record db { profiles = update_rows existing.id f db.profiles },
        ))
        (λ db t rest h. h)
        (λ db h quiet. (
          (
            f existing,
            ground (
              arith,
              h,
              profile_of-update_rows existing.id id f same db.profiles,
              eq_refl existing.id,
            ),
            v existing,
          ),
          quiet,
        ))

  module _ (json : JsonPatch) (raw : String) (prepare : AccessibilityProfile → AccessibilityProfile)
      (marks : (p : AccessibilityProfile) → (prepare p).user_verified ≡ true) where
    save_merged-IsVerified :
        (now : Time) (existing : Option AccessibilityProfile) (merged : AccessibilityProfile)
        → merged.user_verified ≡ true
        → Ensures
            (λ db. profile_of id db.profiles ≡ existing)
            (save_merged pg id now existing merged)
            (λ r db. IsVerified id db)
    save_merged-IsVerified now none merged h =
        Ensures-bind (λ db. profile_of id db.profiles ≡ none) (λ row db. IsVerified id db)
          (λ r db. IsVerified id db) (create_profile pg (record merged { place_id = id }))
          (λ row. pure (row, true))
          (λ db missing. create_profile-IsVerified (record merged { place_id = id }) refl h db tt)
          (λ row db v quiet. (v, quiet))
    save_merged-IsVerified now (some existing) merged h =
        let change : AccessibilityProfile → AccessibilityProfile =
          λ p. profile_columns pg (patch_columns now merged p) in
        Ensures-bind (λ db. profile_of id db.profiles ≡ some existing) (λ row db. IsVerified id db)
          (λ r db. IsVerified id db) (update_profile existing.id change) (λ _. pure (merged, false))
          (update_profile-IsVerified change existing (λ p. refl) (λ p. h))
          (λ a db v quiet. (v, quiet))

    Ends-transaction :
        (r : Result (AccessibilityProfile × Bool)) (db : Db)
        → Ends (λ a s. IsVerified id s) (r, db)
        → Ends (λ a s. IsVerified id s) (r, record db { locked = none })
    Ends-transaction (ok a) db h = h
    Ends-transaction (err e) db h = h

    merge_and_save : Time → Option AccessibilityProfile → Action Db (AccessibilityProfile × Bool)
    merge_and_save now existing = do
      merged ← merged_with json existing raw
      save_merged pg id now existing (record (prepare merged) { updated_at = now })

    merge_and_save-IsVerified :
        (now : Time) (existing : Option AccessibilityProfile)
        → Ensures
            (λ db. profile_of id db.profiles ≡ existing)
            (merge_and_save now existing)
            (λ r db. IsVerified id db)
    unfolding merge_and_save
    merge_and_save-IsVerified now existing =
        Ensures-bind (λ db. profile_of id db.profiles ≡ existing)
          (λ merged db. profile_of id db.profiles ≡ existing) (λ r db. IsVerified id db)
          (merged_with json existing raw)
          (λ merged. save_merged pg id now existing (record (prepare merged) { updated_at = now }))
          (λ db h quiet.
            merged-ends (patched json (json.merge_patch existing raw)) existing db h quiet)
          (λ merged.
            save_merged-IsVerified now existing (record (prepare merged) { updated_at = now })
              (marks merged))
      where
        merged-ends :
            (r : Result AccessibilityProfile) (existing : Option AccessibilityProfile) (db : Db)
            → profile_of id db.profiles ≡ existing
            → IsQuiet db.script
            → Ends (λ merged s. profile_of id s.profiles ≡ existing) (r, db)
        merged-ends (ok a) existing db h quiet = (h, quiet)
        merged-ends (err e) existing db h quiet = quiet

    attempt-IsVerified :
        Ensures Anything (upsert_profile_attempt pg json id raw prepare) (λ r db. IsVerified id db)
    unfolding upsert_profile_attempt merge_and_save
    attempt-IsVerified db u quiet =
        let now = db.clock in
        let load = annotate "upsert profile: load existing" (load_existing true id) in
        let m : Action Db (AccessibilityProfile × Bool) =
          check_place id >> (load >>= merge_and_save now) in
        let body : Ensures Anything m (λ r s. IsVerified id s) =
          Ensures-bind Anything (λ a s. Anything s) (λ r s. IsVerified id s) (check_place id)
            (λ _. load >>= merge_and_save now) (check_place-quiet id)
            (λ a.
              Ensures-bind Anything (λ existing s. profile_of id s.profiles ≡ existing)
                (λ r s. IsVerified id s) load (merge_and_save now)
                (Ensures-annotate Anything (λ existing s. profile_of id s.profiles ≡ existing)
                  "upsert profile: load existing" (load_existing true id) (load_existing-quiet id))
                (merge_and_save-IsVerified now)) in
        Ends-transaction (m db).0 (m db).1 (body db u quiet)

    retry-IsVerified :
        (r : Result (AccessibilityProfile × Bool)) (db : Db)
        → Ends (λ a s. IsVerified id s) (r, db)
        → Ends
            (λ a s. IsVerified id s)
            (retry_or r (upsert_profile_attempt pg json id raw prepare) db)
    retry-IsVerified (ok a) db h = h
    retry-IsVerified (err e) db quiet = elim (Bool-cases (has_pg_code unique_violation e)) [
      | inl y ↦ rw y (attempt-IsVerified db tt quiet)
      | inr n ↦ rw n quiet
    ]

    -- After an upsert that answers, the stored profile of the place is verified.
    pub upsert_profile-IsVerified :
        Ensures Anything (upsert_profile pg json id raw prepare) (λ r db. IsVerified id db)
    unfolding upsert_profile
    upsert_profile-IsVerified db u quiet =
        let first = upsert_profile_attempt pg json id raw prepare db in
        retry-IsVerified first.0 first.1 (attempt-IsVerified db u quiet)
