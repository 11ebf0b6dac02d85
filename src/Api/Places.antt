-- ===== src/Api/Places.antt =====
-- CreatePlace, GetPlace and PatchPlaceAccessibility of cmd/api/main.go. The error of a handler is
-- answered with 500. `key_id` is the id of the authenticated key, "" without one. The ids of a body are
-- read-only in api/openapi.yaml, so GORM's upsert of an association whose id is taken is left out: a
-- taken id is refused.
pub mod Kept
pub mod Stored
pub mod Untouched
pub mod Tests
use inwheel_server.Prelude.{
  ℕ, suc, ◌+◌, String, Bool, true, false, not, ◌&&◌, ◌||◌, Option, none, some, List, [], ◌∷◌, ◌==◌,
  if◌then◌else◌, any, find_first,
}
use inwheel_server.Prelude.Result.{
  Error, sentinel, pg_error, is_sentinel, Result, ok, err, Action, continue, ◌>>=◌,
}
use inwheel_server.Models.Profile.{Time, AccessibilityProfile}
use inwheel_server.Models.Place.{Place}
use inwheel_server.Db.{Db, Postgres, statement}
use inwheel_server.A11y.{with_audit_flags, compute_effective_profile}
use inwheel_server.Audit.{log}
use inwheel_server.PlaceRepo.Places.{has_place, id_or, rank_ok, conflicts, stamp}
use inwheel_server.PlaceRepo.Profiles.{
  kept_time, profile_columns, profile_of, unique_violation, invalid_patch, JsonPatch,
  upsert_profile,
}
use inwheel_server.Validation.{FieldError, field_error, place, accessibility_profile}
use inwheel_server.Api.List.{preload}

-- `if keyID != "" { p.SubmittedBy = &keyID; p.UserVerified = true }`
abbrev pub attributed : String → AccessibilityProfile → AccessibilityProfile
attributed key_id p =
    if key_id == "" then p else record p { submitted_by = some key_id; user_verified = true }

abbrev pub submitted_profile : String → Time → AccessibilityProfile → AccessibilityProfile
submitted_profile key_id now p =
    with_audit_flags
      (record (attributed key_id (record p { updated_at = now })) { submitted_at = some now })

abbrev submitter : String → Option String → Option String
submitter key_id old = if key_id == "" then old else some key_id

abbrev pub map_profile :
    (AccessibilityProfile → AccessibilityProfile)
    → Option AccessibilityProfile
    → Option AccessibilityProfile
map_profile f none = none
map_profile f (some p) = some (f p)

-- What CreatePlace sets before it writes.
unfoldable pub submitted : String → Time → Place → Place
submitted key_id now p = record p {
  submitted_by = submitter key_id p.submitted_by;
  submitted_at = some now;
  accessibility = map_profile (submitted_profile key_id now) p.accessibility;
}

pub data CreateResponse : Type 0 where
  created_201 : Place → CreateResponse
  create_invalid_400 : List FieldError → CreateResponse

abbrev pub parent_ok : List Place → Option String → Bool
parent_ok places none = true
parent_ok places (some id) = any (has_place id) places

-- The place that is inserted and answered: its default id and status, and the zero times.
abbrev pub placed : Postgres → Db → Place → Place
placed pg db p = record p {
  id = id_or (pg.gen_random_uuid db.next_uuid) p.id;
  status = if p.status == "" then "active" else p.status;
  created_at = stamp db.clock p.created_at;
  updated_at = stamp db.clock p.updated_at;
}

-- What the columns keep of a place. A nil map is stored as {}, which is the same here.
abbrev pub place_columns : Postgres → Place → Place
place_columns pg p = record p {
  submitted_at = kept_time pg p.submitted_at;
  created_at = pg.timestamptz p.created_at;
  updated_at = pg.timestamptz p.updated_at;
}

abbrev pub insert_nested : Postgres → Place → Option AccessibilityProfile → Action Db Place
insert_nested pg p none db =
    (ok p, record db { places = place_columns pg p ∷ db.places; next_uuid = suc db.next_uuid })
insert_nested pg p (some a) db =
    let row = record a {
      id = id_or (pg.gen_random_uuid (suc db.next_uuid)) a.id;
      place_id = p.id;
    } in
    if any (λ q. q.id == row.id || q.place_id == p.id) db.profiles
    then (err (pg_error unique_violation), db)
    else (
      ok (record p { accessibility = some row }),
      record db {
        places = record (place_columns pg p) { accessibility = none } ∷ db.places;
        profiles = profile_columns pg row ∷ db.profiles;
        next_uuid = db.next_uuid + 2;
      },
    )

-- db.Create(&place), one transaction: the CHECK of the rank, the keys, the parent.
abbrev pub create_body : Postgres → Place → Action Db Place
create_body pg p db =
    let row = placed pg db p in
    if not (rank_ok p)
    then (err (pg_error "23514"), db)
    else if any (λ q. q.id == row.id || conflicts p q) db.places
    then (err (pg_error unique_violation), db)
    else if not (parent_ok db.places p.parent_id)
    then (err (pg_error "23503"), db)
    else insert_nested pg row p.accessibility db

abbrev pub log_profile : String → Option AccessibilityProfile → Db → Db
log_profile key_id none db = db
log_profile key_id (some a) db = log "accessibility_profiles" a.id key_id "create" db

abbrev pub created : String → Result Place → Db → Result CreateResponse × Db
created key_id (err e) db = (err e, db)
created key_id (ok p) db =
    (ok (created_201 p), log_profile key_id p.accessibility (log "places" p.id key_id "create" db))

abbrev pub create_valid : Postgres → String → Place → List FieldError → Action Db CreateResponse
create_valid pg key_id p (e ∷ es) db = (ok (create_invalid_400 (e ∷ es)), db)
create_valid pg key_id p [] db =
    let (r, db') = statement (create_body pg (submitted key_id db.clock p)) db in
    created key_id r db'

unfoldable pub create_place : Postgres → String → Place → Action Db CreateResponse
create_place pg key_id p = create_valid pg key_id p (place (some p))

pub data GetResponse : Type 0 where
  found_200 : Place → GetResponse
  missing_404 : GetResponse

abbrev first_of : List Place → Option Place
first_of [] = none
first_of (p ∷ ps) = some p

abbrev pub as_list : Option Place → List Place
as_list none = []
as_list (some p) = p ∷ []

-- db.Preload("Accessibility").First(…); `none` is ErrRecordNotFound.
unfoldable pub first_place : String → Action Db (Option Place)
first_place id = do
  row ← statement (λ s. (ok (find_first (has_place id) s.places), s))
  places ← preload (as_list row)
  λ s. (ok (first_of places), s)

abbrev set_place_id : String → AccessibilityProfile → AccessibilityProfile
set_place_id id a = record a { place_id = id }

abbrev pub inherited : Place → Result (Option Place) → Place
inherited p (ok (some parent)) = record p {
  accessibility =
      map_profile (set_place_id p.id) (compute_effective_profile (some p) (some parent));
}
inherited p _ = p

abbrev pub with_parent : Place → Option String → Action Db GetResponse
with_parent p none db = (ok (found_200 p), db)
with_parent p (some parent_id) db =
    let (r, db') = first_place parent_id db in (ok (found_200 (inherited p r)), db')

abbrev pub got : Result (Option Place) → Action Db GetResponse
got (err e) db = (err e, db)
got (ok none) db = (ok missing_404, db)
got (ok (some p)) db = with_parent p p.parent_id db

unfoldable pub get_place : String → Action Db GetResponse
unfolding first_place
get_place id db = let (r, db') = first_place id db in got r db'

pub data PatchResponse : Type 0 where
  patched_200 : AccessibilityProfile → PatchResponse
  patch_invalid_400 : List FieldError → PatchResponse
  place_missing_404 : PatchResponse

-- What PatchPlaceAccessibility sets on the merged profile.
abbrev pub prepare_patch : String → Time → AccessibilityProfile → AccessibilityProfile
prepare_patch key_id now p = record (attributed key_id (with_audit_flags p)) {
  submitted_at = some now;
}

-- The reason keeps only its first words.
abbrev pub patch_error : Error → Result PatchResponse
patch_error e =
    if is_sentinel "place not found" e
    then ok place_missing_404
    else if is_sentinel invalid_patch e
    then ok (patch_invalid_400 (field_error "body" invalid_patch ∷ []))
    else err e

abbrev pub audit_action : Bool → String
audit_action was_created = if was_created then "create" else "update"

abbrev pub answered : String → Result (AccessibilityProfile × Bool) → Db → Result PatchResponse × Db
answered key_id (err e) db = (patch_error e, db)
answered key_id (ok (p, was_created)) db =
    (ok (patched_200 p), log "accessibility_profiles" p.id key_id (audit_action was_created) db)

abbrev pub patch_valid :
    Postgres → JsonPatch → String → String → String → List FieldError → Action Db PatchResponse
patch_valid pg json key_id id raw (e ∷ es) db = (ok (patch_invalid_400 (e ∷ es)), db)
patch_valid pg json key_id id raw [] db =
    let (r, db') = upsert_profile pg json id raw (prepare_patch key_id db.clock) db in
    answered key_id r db'

-- `body` is the parsed patch, `raw` its text.
unfoldable pub patch_place_accessibility :
    Postgres
    → JsonPatch
    → String
    → String
    → Option AccessibilityProfile
    → String
    → Action Db PatchResponse
patch_place_accessibility pg json key_id id body raw =
    patch_valid pg json key_id id raw (accessibility_profile body)
