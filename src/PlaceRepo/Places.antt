-- ===== src/PlaceRepo/Places.antt =====
-- UpsertBatch, FindCandidates and AttachExternalRef of internal/place/repository.go.
pub mod Upsert
pub mod Attach
pub mod Near
use inwheel_server.Prelude.{
  ℕ, suc, ◌+◌, String, Bool, true, false, not, ◌&&◌, ◌||◌, Option, none, some, List, [], ◌∷◌, ◌==◌,
  if◌then◌else◌, eqb, keep, any, take, length,
}
use inwheel_server.Prelude.Result.{message, pg_error, Result, ok, err, Action, annotate}
use inwheel_server.Prelude.Dict.{insert, member}
use inwheel_server.Float64.{F64}
use inwheel_server.Models.Profile.{Time}
use inwheel_server.Models.Place.{Category, Place, ExternalRef, status_active}
use inwheel_server.Db.{Db, Postgres, statement}

-- The partial unique index on (osm_id, osm_type) where osm_id <> 0.
abbrev pub conflicts : Place → Place → Bool
conflicts p row = not (eqb p.osm_id 0) && eqb row.osm_id p.osm_id && row.osm_type == p.osm_type

abbrev pub stamp : Time → Time → Time
stamp now t = if eqb t 0 then now else t

-- The columns of `DoUpdates`; `p` is EXCLUDED.
abbrev pub overwrite : Time → Place → Place → Place
overwrite now p row = record row {
  name = p.name;
  lat = p.lat;
  lng = p.lng;
  category = p.category;
  rank = p.rank;
  tags = p.tags;
  external_ids = p.external_ids;
  status = p.status;
  updated_at = stamp now p.updated_at;
}

abbrev pub id_or : String → String → String
id_or fresh id = if id == "" then fresh else id

-- The inserted row: GORM fills the zero timestamps, the column default the id.
abbrev pub inserted : String → Time → Place → Place
inserted fresh now p = record p {
  id = id_or fresh p.id;
  created_at = stamp now p.created_at;
  updated_at = stamp now p.updated_at;
}

-- One row of the INSERT … ON CONFLICT: the id that RETURNING gives, and the table.
unfoldable pub upsert_place : String → Time → Place → List Place → String × List Place
upsert_place fresh now p [] = (id_or fresh p.id, inserted fresh now p ∷ [])
upsert_place fresh now p (row ∷ rows) =
    let (id, rows') = upsert_place fresh now p rows in
    if conflicts p row then (row.id, overwrite now p row ∷ rows) else (id, row ∷ rows')

-- Every row of the batch in turn; the places come back with their ids.
unfoldable pub upsert_places :
    Postgres → ℕ → Time → List Place → List Place → List Place × List Place
upsert_places pg n now [] rows = ([], rows)
upsert_places pg n now (p ∷ ps) rows =
    let (id, rows') = upsert_place (pg.gen_random_uuid n) now p rows in
    let (done, rows'') = upsert_places pg (suc n) now ps rows' in
    (record p { id = id } ∷ done, rows'')

-- PostgreSQL refuses a command that would touch a row twice (21000), a rank outside 1, 2, 3 (23514)
-- and an id that is taken (23505).
abbrev pub rank_ok : Place → Bool
rank_ok p = eqb p.rank 1 || eqb p.rank 2 || eqb p.rank 3

unfoldable pub repeats_key : List Place → Bool
repeats_key [] = false
repeats_key (p ∷ ps) = any (conflicts p) ps || repeats_key ps

abbrev pub taken : List Place → Place → Bool
taken rows p = not (p.id == "") && any (λ row. row.id == p.id && not (conflicts p row)) rows

abbrev pub upsert_body : Postgres → List Place → Action Db (List Place)
upsert_body pg ps db =
    if repeats_key ps
    then (err (pg_error "21000"), db)
    else if any (λ p. not (rank_ok p)) ps
    then (err (pg_error "23514"), db)
    else if any (taken db.places) ps
    then (err (pg_error "23505"), db)
    else let (done, rows) = upsert_places pg db.next_uuid db.clock ps db.places in
      (ok done, record db { places = rows; next_uuid = db.next_uuid + length ps })

unfoldable pub upsert_batch : Postgres → List Place → Action Db (List Place)
upsert_batch pg [] db = (ok [], db)
upsert_batch pg (p ∷ ps) db = annotate "upsert places" (statement (upsert_body pg (p ∷ ps))) db

-- ORDER BY ST_Distance: an insertion sort.
abbrev nearer : Postgres → F64 → F64 → Place → Place → Bool
nearer pg lng lat a b = pg.st_nearer lng lat a.lng a.lat b.lng b.lat

unfoldable pub insert_near : Postgres → F64 → F64 → Place → List Place → List Place
insert_near pg lng lat p [] = p ∷ []
insert_near pg lng lat p (q ∷ qs) =
    if nearer pg lng lat p q then p ∷ q ∷ qs else q ∷ insert_near pg lng lat p qs

unfoldable pub sort_near : Postgres → F64 → F64 → List Place → List Place
sort_near pg lng lat [] = []
sort_near pg lng lat (p ∷ ps) = insert_near pg lng lat p (sort_near pg lng lat ps)

abbrev pub is_candidate : Postgres → F64 → F64 → F64 → List Category → Place → Bool
is_candidate pg lat lng radius categories p =
    p.status == status_active
    && member p.category categories
    && pg.st_dwithin p.lng p.lat lng lat radius

unfoldable pub find_candidates : Postgres → F64 → F64 → F64 → List Category → Action Db (List Place)
find_candidates pg lat lng radius [] db = (ok [], db)
find_candidates pg lat lng radius (c ∷ cs) db =
    annotate "find candidates"
      (statement (λ s. (
        ok (
            take 32
              (sort_near pg lng lat (keep (is_candidate pg lat lng radius (c ∷ cs)) s.places))),
        s,
      )))
      db

-- `jsonb_set(COALESCE(external_ids, '{}'), ARRAY[source], ref, true)`
unfoldable pub attach_row : Time → String → String → ExternalRef → List Place → List Place
attach_row now id source ref [] = []
attach_row now id source ref (p ∷ ps) =
    (if p.id == id
      then record p { external_ids = insert source ref p.external_ids; updated_at = now }
      else p)
    ∷ attach_row now id source ref ps

abbrev pub has_place : String → Place → Bool
has_place id p = p.id == id

abbrev pub attach_body : String → String → ExternalRef → Action Db (Unit {0})
attach_body id source ref db =
    if any (has_place id) db.places
    then (ok tt, record db { places = attach_row db.clock id source ref db.places })
    else (err (message "place not found"), db)

unfoldable pub attach_external_ref : String → String → ExternalRef → Action Db (Unit {0})
attach_external_ref id source ref db =
    annotate "attach external ref" (statement (attach_body id source ref)) db
