-- ===== src/Db.antt =====
-- The PostgreSQL database that both binaries share, as far as the Go code reads and writes it:
-- internal/db/migrations for the tables and their constraints.
--
-- A run meets an environment: before each statement time may pass, another session may commit an
-- accessibility profile, and the statement may fail. The field `script` says what happens, one entry
-- for each statement; past its end nothing happens. A row that this session holds FOR UPDATE
-- (`locked`) makes the writes of other sessions wait until the transaction has ended.
--
-- The times of a created place, of a profile and of a queued record are cut when they are written
-- (Postgres.timestamptz); those of imported places and of API keys are kept as they are.
-- A nil map of Go is an empty one, which is what a column holds for it.
pub mod Laws
pub mod Quiet
pub mod Connection
use inwheel_server.Prelude.{
  ℕ, ◌+◌, String, Bool, false, Option, none, some, List, [], ◌∷◌, ◌==◌, if◌then◌else◌,
}
use inwheel_server.Prelude.Result.{Error, err, Action}
use inwheel_server.Float64.{F64}
use inwheel_server.Models.Profile.{Time, AccessibilityProfile}
use inwheel_server.Models.Place.{Place, UnmatchedExternal}

-- pkg/models/api_key.go
pub record ApiKey : Type 0 where
  pub id : String
  pub email : String
  pub key_hash : String
  pub created_at : Time
  pub revoked_at : Option Time

-- internal/audit/audit.go
pub record WriteLog : Type 0 where
  pub target_table : String
  pub record_id : String
  pub api_key_id : Option String
  pub action : String

pub record Step : Type 0 where
  pub elapsed : ℕ
  pub arrival : Option AccessibilityProfile
  pub fault : Option Error

pub record Db : Type 0 where
  pub places : List Place
  pub profiles : List AccessibilityProfile
  pub queue : List UnmatchedExternal
  pub next_queue_id : ℕ
  pub next_uuid : ℕ
  pub api_keys : List ApiKey
  pub write_logs : List WriteLog
  pub clock : Time
  pub script : List Step
  pub locked : Option String

-- What the server itself computes: gen_random_uuid() at its n-th call, and PostGIS over points given
-- as longitude and latitude. `st_nearer o a b` says that ST_Distance(a, o) ≤ ST_Distance(b, o).
pub record Postgres : Type 0 where
  pub gen_random_uuid : ℕ → String
  pub st_dwithin : F64 → F64 → F64 → F64 → F64 → Bool
  pub st_nearer : F64 → F64 → F64 → F64 → F64 → F64 → Bool
  pub st_in_envelope : F64 → F64 → F64 → F64 → F64 → F64 → Bool
  -- `ilike text pattern` with ESCAPE '\\', and `<` on uuid.
  pub ilike : String → String → Bool
  pub uuid_less : String → String → Bool
  -- The text that a JSONB column gives back for a JSON text: the same document, written anew.
  pub jsonb : String → String
  -- What a TIMESTAMPTZ column keeps of a time, which is its microseconds.
  pub timestamptz : Time → Time

-- Another session's write of a profile: the row of its place is replaced, or inserted.
unfoldable pub put_profile :
    AccessibilityProfile → List AccessibilityProfile → List AccessibilityProfile
put_profile a [] = a ∷ []
put_profile a (p ∷ ps) = if p.place_id == a.place_id then a ∷ ps else p ∷ put_profile a ps

abbrev held : Option String → String → Bool
held none id = false
held (some l) id = l == id

-- A write that waits for a lock comes before the next statement, and is tried again there; one that
-- would have come there waits behind it.
unfoldable pub defer : AccessibilityProfile → List Step → List Step
defer a [] = record { elapsed = 0; arrival = some a; fault = none } ∷ []
defer a (step ∷ rest) =
    record step { arrival = some a } ∷ (elim (step.arrival) [ none ↦ rest | some b ↦ defer b rest ])

abbrev arrive : Option AccessibilityProfile → Db → Db
arrive none db = db
arrive (some a) db =
    if held db.locked a.place_id
    then record db { script = defer a db.script }
    else record db { profiles = put_profile a db.profiles }

-- One statement against the database.
unfoldable pub statement {ℓ} : {A : Type ℓ} → Action Db A → Action Db A
statement body db = elim (db.script) [
  | [] ↦ body db
  | step ∷ rest ↦
      let db' =
        arrive step.arrival (record db { clock = db.clock + step.elapsed; script = rest }) in
      elim (step.fault) [ none ↦ body db' | some e ↦ (err e, db') ]
]
