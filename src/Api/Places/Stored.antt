-- ===== src/Api/Places/Stored.antt =====
-- GetPlace of cmd/api/main.go after CreatePlace, from a database that nobody else uses.
use inwheel_server.Prelude.{
  suc, ◌+◌, String, true, false, Option, none, some, List, [], ◌∷◌, ◌≡◌, refl, sym, ap, ◌∙◌, subst,
  arith, ◌==◌, ◌||◌, inl, inr, Bool-cases, any, find_first, All, eq_refl, eq_iff,
}
use inwheel_server.Prelude.Result.{Result, ok, err}
use inwheel_server.Models.Profile.{AccessibilityProfile}
use inwheel_server.Models.Place.{Place}
use inwheel_server.Db.{Db, Postgres}
use inwheel_server.Db.Quiet.{statement-quiet}
use inwheel_server.Audit.{entry, append_log, log}
use inwheel_server.PlaceRepo.Places.{has_place, id_or, rank_ok, conflicts}
use inwheel_server.PlaceRepo.Profiles.{profile_columns, profile_of}
use inwheel_server.Validation.{FieldError, place}
use inwheel_server.Api.List.{with_profile}
use inwheel_server.Api.List.Page.{preload-lem}
use inwheel_server.Api.Places.{
  map_profile, place_columns, submitted, parent_ok, placed, insert_nested, create_body, log_profile,
  created, CreateResponse, created_201, create_valid, create_place, found_200, as_list, first_place,
  get_place,
}

-- Every profile has its place, as the foreign key says.
abbrev pub HasPlaces : Db → Type 0
HasPlaces db = All (λ a. any (has_place a.place_id) db.places ≡ true) db.profiles

first_place-lem :
    (id : String) (row : Place) (db : Db)
    → db.script ≡ []
    → find_first (has_place id) db.places ≡ some row
    → first_place id db ≡ (ok (some (with_profile db.profiles row)), db)
unfolding first_place
first_place-lem id row db calm found =
    rw
      (
        statement-quiet (λ s. (ok (find_first (has_place id) s.places), s)) db calm,
        found,
        preload-lem (as_list (some row)) db calm,
      )
      refl

get_place-lem :
    (id : String) (row : Place) (db : Db)
    → db.script ≡ []
    → find_first (has_place id) db.places ≡ some row
    → row.parent_id ≡ none
    → get_place id db ≡ (ok (found_200 (with_profile db.profiles row)), db)
unfolding get_place
get_place-lem id row db calm found root = rw (first_place-lem id row db calm found, root) refl

-- The row of a place and that of its profile are there, and nothing happens meanwhile.
abbrev pub IsStored : Postgres → Place → Db → Type 0
IsStored pg p db =
    (db.script ≡ [])
    × (find_first (has_place p.id) db.places
        ≡ some (record (place_columns pg p) { accessibility = none }))
    × (profile_of p.id db.profiles ≡ map_profile (profile_columns pg) p.accessibility)

log-IsStored :
    (pg : Postgres) (p : Place) (target_table record_id key_id action : String) (db : Db)
    → IsStored pg p db
    → IsStored pg p (log target_table record_id key_id action db)
unfolding log
log-IsStored pg p target_table record_id key_id action db (calm, found, same) =
    subst (λ (r : Result (Unit {0}) × Db). IsStored pg p r.1)
      (sym (statement-quiet (append_log (entry target_table record_id key_id action)) db calm))
      (calm, found, same)

log_profile-IsStored :
    (pg : Postgres) (p : Place) (key_id : String) (a : Option AccessibilityProfile) (db : Db)
    → IsStored pg p db
    → IsStored pg p (log_profile key_id a db)
log_profile-IsStored pg p key_id none db h = h
log_profile-IsStored pg p key_id (some a) db h =
    log-IsStored pg p "accessibility_profiles" a.id key_id "create" db h

-- A place that is not there has no profile.
profile_of-missing :
    (id : String) (places : List Place) (ps : List AccessibilityProfile)
    → any (has_place id) places ≡ false
    → All (λ a. any (has_place a.place_id) places ≡ true) ps
    → profile_of id ps ≡ none
profile_of-missing id places [] new h = refl
profile_of-missing id places (a ∷ ps) new (there, h) = elim (Bool-cases (a.place_id == id)) [
  | inl y ↦
      let same : a.place_id ≡ id = ground (arith, y, eq_iff a.place_id id) in
      let there' : any (has_place id) places ≡ true =
        subst (λ i. any (has_place i) places ≡ true) same there in
      absurd (ground (arith, new, there'))
  | inr n ↦ rw n (profile_of-missing id places ps new h)
]

any-has_place :
    (p row : Place) (qs : List Place)
    → any (λ q. q.id == row.id || conflicts p q) qs ≡ false
    → any (has_place row.id) qs ≡ false
any-has_place p row [] h = refl
any-has_place p row (q ∷ qs) h = ground (arith, h, any-has_place p row qs)

abbrev value_or : {A : Type 0} → A → Result A → A
value_or d (ok a) = a
value_or d (err e) = d

insert_nested-IsStored :
    (pg : Postgres) (row p : Place) (a : Option AccessibilityProfile) (db : Db)
    → db.script ≡ []
    → HasPlaces db
    → any (has_place row.id) db.places ≡ false
    → row.accessibility ≡ a
    → (insert_nested pg row a db).0 ≡ ok p
    → IsStored pg p (insert_nested pg row a db).1 × (p.parent_id ≡ row.parent_id)
insert_nested-IsStored pg row p none db calm places new bare h =
    subst (λ q. IsStored pg q (insert_nested pg row none db).1 × (q.parent_id ≡ row.parent_id))
      (ap (value_or row) h)
      (
        (
          calm,
          rw (eq_refl row.id)
              (ap (λ o. some (record (place_columns pg row) { accessibility = o })) bare),
          profile_of-missing row.id db.places db.profiles new places
              ∙ ap (map_profile (profile_columns pg)) (sym bare),
        ),
        refl,
      )
insert_nested-IsStored pg row p (some a) db calm places new bare h =
    let own = record a {
      id = id_or (pg.gen_random_uuid (suc db.next_uuid)) a.id;
      place_id = row.id;
    } in
    elim (Bool-cases (any (λ q. q.id == own.id || q.place_id == row.id) db.profiles)) [
      | inl y ↦ absurd (ground (arith, y, h))
      | inr n ↦
          let same : record row { accessibility = some own } ≡ p = ap (value_or row) (rw n at h) in
          rw n (
            subst
              (λ q.
                IsStored pg q (record db {
                  places = record (place_columns pg row) { accessibility = none } ∷ db.places;
                  profiles = profile_columns pg own ∷ db.profiles;
                  next_uuid = db.next_uuid + 2;
                })
                × (q.parent_id ≡ row.parent_id))
              same ((calm, rw (eq_refl row.id) refl, rw (eq_refl row.id) refl), refl))
    ]

create_body-IsStored :
    (pg : Postgres) (p q : Place) (db : Db)
    → db.script ≡ []
    → HasPlaces db
    → (create_body pg q db).0 ≡ ok p
    → IsStored pg p (create_body pg q db).1 × (p.parent_id ≡ q.parent_id)
create_body-IsStored pg p q db calm places h =
    let row = placed pg db q in
    elim (Bool-cases (rank_ok q)) [
      | inr n ↦ absurd (ground (arith, n, h))
      | inl ranked ↦ elim (Bool-cases (any (λ o. o.id == row.id || conflicts q o) db.places)) [
        | inl y ↦ absurd (ground (arith, ranked, y, h))
        | inr new ↦ elim (Bool-cases (parent_ok db.places q.parent_id)) [
          | inr n ↦ absurd (ground (arith, ranked, new, n, h))
          | inl known ↦
              rw (ranked, new, known)
                (insert_nested-IsStored pg row p q.accessibility db calm places
                  (any-has_place q row db.places new) refl (rw (ranked, new, known) at h))
        ]
      ]
    ]

abbrev created_or : Place → Result CreateResponse → Place
created_or d (ok (created_201 p)) = p
created_or d _ = d

created-IsStored :
    (pg : Postgres) (key_id : String) (r : Result Place) (s : Db) (p : Place)
    (parent : Option String)
    → ((q : Place) → r ≡ ok q → IsStored pg q s × (q.parent_id ≡ parent))
    → (created key_id r s).0 ≡ ok (created_201 p)
    → IsStored pg p (created key_id r s).1 × (p.parent_id ≡ parent)
created-IsStored pg key_id (err e) s p parent stored h = absurd (ground (arith, h))
created-IsStored pg key_id (ok q) s p parent stored h =
    let (here, root) = stored q refl in
    let after =
      log_profile-IsStored pg q key_id q.accessibility (log "places" q.id key_id "create" s)
        (log-IsStored pg q "places" q.id key_id "create" s here) in
    subst (λ x. IsStored pg x (created key_id (ok q) s).1 × (x.parent_id ≡ parent))
      (ap (created_or q) h) (after, root)

create_valid-IsStored :
    (pg : Postgres) (key_id : String) (q p : Place) (es : List FieldError) (db : Db)
    → db.script ≡ []
    → HasPlaces db
    → (create_valid pg key_id q es db).0 ≡ ok (created_201 p)
    → IsStored pg p (create_valid pg key_id q es db).1 × (p.parent_id ≡ q.parent_id)
unfolding submitted
create_valid-IsStored pg key_id q p (e ∷ es) db calm places h = absurd (ground (arith, h))
create_valid-IsStored pg key_id q p [] db calm places h =
    let body = create_body pg (submitted key_id db.clock q) in
    let quiet = statement-quiet body db calm in
    let handler = λ (x : Result Place × Db). created key_id x.0 x.1 in
    subst (λ (x : Result CreateResponse × Db). IsStored pg p x.1 × (p.parent_id ≡ q.parent_id))
      (sym (ap handler quiet))
      (created-IsStored pg key_id (body db).0 (body db).1 p q.parent_id
        (λ o same. create_body-IsStored pg o (submitted key_id db.clock q) db calm places same)
        (ap (λ x. (handler x).0) (sym quiet) ∙ h))

-- A place as it is read back: its times, and those of its profile, are what the columns keep of them.
abbrev pub read_back : Postgres → Place → Place
read_back pg p = record (place_columns pg p) {
  accessibility = map_profile (profile_columns pg) p.accessibility;
}

-- If CreatePlace answers with 201, GetPlace answers with 200 for the id in that answer, with that place
-- and its profile, their times as the columns keep them: for a place without a parent, if every stored
-- profile has its place, no other session writes and no statement fails. A nil map and an empty one are
-- not told apart.
pub get_place-create_place :
    (pg : Postgres) (key_id : String) (q p : Place) (db : Db)
    → db.script ≡ []
    → HasPlaces db
    → q.parent_id ≡ none
    → (create_place pg key_id q db).0 ≡ ok (created_201 p)
    → (get_place p.id (create_place pg key_id q db).1).0 ≡ ok (found_200 (read_back pg p))
unfolding create_place
get_place-create_place pg key_id q p db calm places root h =
    let after = (create_place pg key_id q db).1 in
    let ((calm', found, own), parent) =
      create_valid-IsStored pg key_id q p (place (some q)) db calm places h in
    let row = record (place_columns pg p) { accessibility = none } in
    ap (λ x. x.0) (get_place-lem p.id row after calm' found (parent ∙ root))
    ∙ ap (λ o. ok (found_200 (record row { accessibility = o }))) own
