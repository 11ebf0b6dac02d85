-- ===== src/Api/List.antt =====
-- ListPlaces of cmd/api/main.go, with the query scopes of internal/geo/queries.go. The error of a
-- handler is answered with 500; to read a missing coordinate, or the last place of an empty page, would
-- panic. A cursor's time is compared as it was decoded, since a time of the table has whole
-- microseconds.
pub mod Order
pub mod Page
mod Tests
pub mod Walk
pub mod Unordered
pub mod Untouched
use inwheel_server.Prelude.{
  ℕ, suc, ◌+◌, String, Bool, true, false, not, ◌&&◌, ◌||◌, Option, none, some, List, [], ◌∷◌, ◌++◌,
  ◌==◌, if◌then◌else◌, eqb, ltb, keep, take, map, length,
}
use inwheel_server.Prelude.Texts.{trim_space}
use inwheel_server.Prelude.Result.{panic, Result, ok, err, Action, continue, ◌>>=◌, pure, fail}
use inwheel_server.Float64.{F64, Arithmetic}
use inwheel_server.Models.Profile.{Time, AccessibilityProfile}
use inwheel_server.Models.Place.{Place}
use inwheel_server.Db.{Db, Postgres, statement}
use inwheel_server.Pagination.{Codecs, encode, decode}
use inwheel_server.PlaceRepo.Profiles.{profile_of}
use inwheel_server.Validation.{FieldError, PlacesQueryParams, places_query}
use inwheel_server.Api.Like.{like_pattern}

pub record ListParams : Type 0 where
  pub limit : Option ℕ
  pub query : PlacesQueryParams

abbrev pub trimmed : Option String → Option String
trimmed none = none
trimmed (some q) = some (trim_space q)

abbrev pub limit_or : Option ℕ → ℕ
limit_or none = 20
limit_or (some n) = n

pub data ListResponse : Type 0 where
  page_200 : List Place → Option String → ListResponse
  invalid_400 : List FieldError → ListResponse

-- ORDER BY updated_at DESC, id ASC
abbrev pub before : Postgres → Place → Place → Bool
before pg a b =
    ltb b.updated_at a.updated_at || eqb a.updated_at b.updated_at && pg.uuid_less a.id b.id

unfoldable pub insert_listed : Postgres → Place → List Place → List Place
insert_listed pg p [] = p ∷ []
insert_listed pg p (q ∷ qs) =
    let later = q ∷ insert_listed pg p qs in if before pg p q then p ∷ q ∷ qs else later

unfoldable pub sort_listed : Postgres → List Place → List Place
sort_listed pg [] = []
sort_listed pg (p ∷ ps) = insert_listed pg p (sort_listed pg ps)

-- places.updated_at < ? OR (places.updated_at = ? AND places.id > ?)
abbrev pub beyond : Postgres → Time × String → Place → Bool
beyond pg (t, id) p = ltb p.updated_at t || eqb p.updated_at t && pg.uuid_less id p.id

abbrev pub after_decoded : Postgres → Result (Time × String) → Place → Bool
after_decoded pg (err e) p = true
after_decoded pg (ok at) p = beyond pg at p

unfoldable pub after_cursor : Postgres → Codecs → Option String → Place → Bool
after_cursor pg codecs none p = true
after_cursor pg codecs (some c) p = after_decoded pg (decode codecs c) p

unfoldable pub name_matches : Postgres → Option String → Place → Bool
name_matches pg none p = true
name_matches pg (some q) p = pg.ilike p.name (like_pattern q)

-- geo.FindNearbyPlaces
abbrev pub nearby : Postgres → F64 → F64 → F64 → Place → Bool
nearby pg lng lat radius p = pg.st_dwithin p.lng p.lat lng lat radius

-- geo.FindPlacesInBoundingBox
abbrev pub in_box : Postgres → F64 → F64 → F64 → F64 → Place → Bool
in_box pg min_lng min_lat max_lng max_lat p =
    pg.st_in_envelope min_lng min_lat max_lng max_lat p.lng p.lat

abbrev nearby_of : Postgres → F64 → Option F64 → Option F64 → Result (Place → Bool)
nearby_of pg lng (some lat) (some radius) = ok (nearby pg lng lat radius)
nearby_of pg lng _ _ = err panic

abbrev box_of : Postgres → F64 → Option F64 → Option F64 → Option F64 → Result (Place → Bool)
box_of pg min_lng (some min_lat) (some max_lng) (some max_lat) =
    ok (in_box pg min_lng min_lat max_lng max_lat)
box_of pg min_lng _ _ _ = err panic

abbrev box_or_all :
    Postgres → Option F64 → Option F64 → Option F64 → Option F64 → Result (Place → Bool)
box_or_all pg none min_lat max_lng max_lat = ok (λ p. true)
box_or_all pg (some min_lng) min_lat max_lng max_lat = box_of pg min_lng min_lat max_lng max_lat

-- The switch on the parameters of the area.
unfoldable pub area : Postgres → PlacesQueryParams → Result (Place → Bool)
area pg q = elim (q.lng) [
  | some lng ↦ nearby_of pg lng q.lat q.radius
  | none ↦ box_or_all pg q.min_lng q.min_lat q.max_lng q.max_lat
]

abbrev pub with_profile : List AccessibilityProfile → Place → Place
with_profile profiles p = record p { accessibility = profile_of p.id profiles }

-- Preload("Accessibility"): a statement of its own, if there are places.
unfoldable pub preload : List Place → Action Db (List Place)
preload [] db = (ok [], db)
preload (p ∷ ps) db = statement (λ s. (ok (map (with_profile s.profiles) (p ∷ ps)), s)) db

module _ (fl : Arithmetic) (codecs : Codecs) (pg : Postgres) where
  abbrev pub selected : (Place → Bool) → Option String → Option String → Place → Bool
  selected in_area cursor q p = in_area p && name_matches pg q p && after_cursor pg codecs cursor p

  unfoldable pub find_listed :
      ℕ → (Place → Bool) → Option String → Option String → Action Db (List Place)
  find_listed n in_area cursor q = do
    places ←
        statement
          (λ s. (ok (take n (sort_listed pg (keep (selected in_area cursor q) s.places))), s))
    preload places

  -- The cursor of `places[len(places)-1]`.
  abbrev pub cursor_of : List Place → Result String
  cursor_of [] = err panic
  cursor_of (p ∷ []) = ok (encode codecs p.updated_at p.id)
  cursor_of (p ∷ q ∷ ps) = cursor_of (q ∷ ps)

  abbrev pub paged : List Place → Result String → Result ListResponse
  paged ps (ok c) = ok (page_200 ps (some c))
  paged ps (err e) = err e

  unfoldable pub cut_page : ℕ → List Place → Result ListResponse
  cut_page limit ps =
      if ltb limit (length ps)
      then paged (take limit ps) (cursor_of (take limit ps))
      else ok (page_200 ps none)

  abbrev pub respond : ℕ → Result (List Place) × Db → Result ListResponse × Db
  respond limit (ok ps, db) = (cut_page limit ps, db)
  respond limit (err e, db) = (err e, db)

  abbrev pub list_area : ListParams → Result (Place → Bool) → Action Db ListResponse
  list_area params (err e) db = (err e, db)
  list_area params (ok in_area) db = respond (limit_or params.limit) (
      find_listed (limit_or params.limit + 1) in_area params.query.cursor (trimmed params.query.q)
        db)

  abbrev pub list_valid : ListParams → List FieldError → Action Db ListResponse
  list_valid params (e ∷ es) db = (ok (invalid_400 (e ∷ es)), db)
  list_valid params [] db = list_area params (area pg params.query) db

  unfoldable pub list_places : ListParams → Action Db ListResponse
  list_places params =
      list_valid params
        (places_query fl codecs (record params.query { q = trimmed params.query.q }))
