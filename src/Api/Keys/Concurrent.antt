-- ===== src/Api/Keys/Concurrent.antt =====
-- Register of cmd/api/handle_register.go and RevokeKey of cmd/api/handle_revoke.go for clients whose
-- requests overlap: a statement is a step, and between two statements of a client others may run theirs.
-- The checks before the first statement have passed. A new key takes part in a registration from its
-- start, since nothing before the insertion depends on it.

pub mod Invariant
pub mod Exclusive
mod Tests
use inwheel_server.Prelude.{
  ℕ, ◌+◌, String, Bool, true, Option, none, some, List, eqb, if◌then◌else◌, ◌≡◌, ◌≢◌,
}
use inwheel_server.Prelude.Result.{Error, Result, ok, err}
use inwheel_server.Db.{ApiKey, Db, Postgres}
use inwheel_server.Api.Keys.{
  RegisterResponse, has_email, find_body, insert_key, created, revoke_body, conflict_409,
}

-- What a client's registration is about to do, or what it has answered.
pub data Phase : Type 0 where
  idle : Phase
  inserting : String → String → Phase
  answered : Result RegisterResponse → Phase

pub record System : Type 0 where
  pub db : Db
  pub phase : ℕ → Phase

abbrev pub set_phase : ℕ → Phase → (ℕ → Phase) → ℕ → Phase
set_phase i x phase j = if eqb i j then x else phase j

-- After the lookup of the address: taken, or free, or an error.
abbrev pub after_lookup : String → String → Result (Option ApiKey) → Phase
after_lookup e raw (ok none) = inserting e raw
after_lookup e raw (ok (some k)) = answered (ok conflict_409)
after_lookup e raw (err x) = answered (err x)

module _ (sha256_hex : String → String) (pg : Postgres) where
  abbrev pub looked_up : ℕ → String → String → System → System
  looked_up i e raw s = record s {
    phase = set_phase i (after_lookup e raw (find_body (has_email e) s.db).0) s.phase;
  }

  abbrev pub inserted : ℕ → String → String → System → System
  inserted i e raw s =
      let (r, db') = insert_key pg e (sha256_hex raw) s.db in
      record { db = db'; phase = set_phase i (answered (created raw r)) s.phase }

  abbrev pub failed : ℕ → Error → System → System
  failed i x s = record s { phase = set_phase i (answered (err x)) s.phase }

  abbrev pub revoked : String → System → System
  revoked raw s = record s { db = (revoke_body (sha256_hex raw) s.db).1 }

  abbrev pub later : ℕ → System → System
  later n s = record s { db = record (s.db) { clock = s.db.clock + n } }

  pub data Step : System → System → Type 0 where
    -- A client that has nothing to do, or whose answer is out, registers an address.
    look_up :
        {s : System} (i : ℕ) (e raw : String)
        → ((f r : String) → s.phase i ≢ inserting f r)
        → Step s (looked_up i e raw s)
    insert :
        {s : System} (i : ℕ) (e raw : String)
        → s.phase i ≡ inserting e raw
        → Step s (inserted i e raw s)
    -- The statement of a client fails.
    fail_statement : {s : System} (i : ℕ) (x : Error) → Step s (failed i x s)
    revoke : {s : System} (raw : String) → Step s (revoked raw s)
    pass_time : {s : System} (n : ℕ) → Step s (later n s)

  pub data Run : System → System → Type 0 where
    stay : {s : System} → Run s s
    go_on : {s t u : System} → Run s t → Step t u → Run s u
