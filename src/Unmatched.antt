-- ===== src/Unmatched.antt =====
-- internal/unmatched/repository.go: the queue of external records that await a match.
-- The column `geom` is always the point of `lng` and `lat`, and is computed from them here. The
-- number of the row is left out of an error's text.
pub mod Laws
pub mod Sizes
mod Tests
use inwheel_server.Prelude.{
  ℕ, ◌+◌, String, Bool, not, ◌&&◌, List, [], ◌∷◌, ◌==◌, if◌then◌else◌, eqb, keep, any,
}
use inwheel_server.Prelude.Result.{message, ok, err, wrap_err, Action}
use inwheel_server.Prelude.Dict.{member}
use inwheel_server.Float64.{F64}
use inwheel_server.Models.Profile.{Time}
use inwheel_server.Models.Place.{Place, UnmatchedExternal}
use inwheel_server.Db.{Db, Postgres, statement}

abbrev pub same_key : String → String → UnmatchedExternal → Bool
same_key source source_id r = r.source == source && r.source_id == source_id

-- `ON CONFLICT (source, source_id) DO UPDATE SET …`; `u` is EXCLUDED.
abbrev pub refresh : UnmatchedExternal → UnmatchedExternal → UnmatchedExternal
refresh u old = record u { id = old.id; attempts = old.attempts + 1 }

-- The table after the INSERT; `id` is the next value of the id's sequence.
unfoldable pub upsert_row : ℕ → UnmatchedExternal → List UnmatchedExternal → List UnmatchedExternal
upsert_row id u [] = record u { id = id } ∷ []
upsert_row id u (r ∷ rs) =
    if same_key u.source u.source_id r then refresh u r ∷ rs else r ∷ upsert_row id u rs

-- `payload` is JSONB; that the server refuses a text that is no JSON is a fault of the statement.
abbrev pub rendered : Postgres → UnmatchedExternal → UnmatchedExternal
rendered pg u = record u {
  payload = pg.jsonb u.payload;
  last_attempted = pg.timestamptz u.last_attempted;
}

-- The sequence advances whether or not the row was there.
abbrev pub insert_body : Postgres → UnmatchedExternal → Action Db (Unit {0})
insert_body pg u db = (
  ok tt,
  record db {
    queue = upsert_row db.next_queue_id (rendered pg u) db.queue;
    next_queue_id = db.next_queue_id + 1;
  },
)

unfoldable pub enqueue : Postgres → UnmatchedExternal → Action Db (Unit {0})
enqueue pg u db =
    let (r, db') = statement (insert_body pg u) db in (wrap_err "enqueue unmatched" r, db')

abbrev near : Postgres → F64 → List String → UnmatchedExternal → Place → Bool
near pg radius touched u p = member p.id touched && pg.st_dwithin u.lng u.lat p.lng p.lat radius

abbrev near_any : Postgres → F64 → List String → List Place → UnmatchedExternal → Bool
near_any pg radius touched places u = any (near pg radius touched u) places

-- The rows of one table are distinct by their ids, so DISTINCT makes of the join a filter.
unfoldable pub find_candidates_near_touched :
    Postgres → List String → F64 → Action Db (List UnmatchedExternal)
find_candidates_near_touched pg [] radius db = (ok [], db)
find_candidates_near_touched pg (t ∷ touched) radius db =
    let (r, db') =
      statement (λ s. (ok (keep (near_any pg radius (t ∷ touched) s.places) s.queue), s)) db in
    (wrap_err "find candidates near touched" r, db')

abbrev pub has_id : ℕ → UnmatchedExternal → Bool
has_id id r = eqb r.id id

unfoldable pub bump_row : ℕ → Time → List UnmatchedExternal → List UnmatchedExternal
bump_row id at [] = []
bump_row id at (r ∷ rs) =
    (if has_id id r then record r { attempts = r.attempts + 1; last_attempted = at } else r)
    ∷ bump_row id at rs

abbrev pub bump_body : ℕ → Time → Action Db (Unit {0})
bump_body id at db =
    if any (has_id id) db.queue
    then (ok tt, record db { queue = bump_row id at db.queue })
    else (err (message "queue row not found"), db)

unfoldable pub bump_attempts : ℕ → Time → Action Db (Unit {0})
bump_attempts id at db =
    let (r, db') = statement (bump_body id at) db in (wrap_err "bump attempts" r, db')

abbrev pub other_id : ℕ → UnmatchedExternal → Bool
other_id id r = not (has_id id r)

abbrev pub delete_body : ℕ → Action Db (Unit {0})
delete_body id db =
    if any (has_id id) db.queue
    then (ok tt, record db { queue = keep (other_id id) db.queue })
    else (err (message "queue row not found"), db)

unfoldable pub delete : ℕ → Action Db (Unit {0})
delete id db = let (r, db') = statement (delete_body id) db in (wrap_err "delete unmatched" r, db')
