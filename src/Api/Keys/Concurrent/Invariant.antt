-- ===== src/Api/Keys/Concurrent/Invariant.antt =====
-- What holds of the API keys of cmd/api while registrations and revocations overlap.
use inwheel_server.Prelude.{
  ℕ, String, Bool, true, Option, none, some, List, [], ◌∷◌, ◌≡◌, refl, ◌&&◌, ◌==◌, eqb, any, arith,
  inl, inr, Bool-cases, eq_refl,
}
use inwheel_server.Prelude.Result.{Result, ok, err, has_pg_code}
use inwheel_server.Models.Profile.{Time}
use inwheel_server.Db.{ApiKey, Postgres}
use inwheel_server.Api.Keys.{
  has_hash, has_email, revoke_rows, key_row, collides, insert_key, created, find_body,
  registered_201, rejected_400, conflict_409, limited_429,
}
use inwheel_server.Api.Keys.Unique.{HasUniqueKeys, insert_key-KeepsKeys, revoke_body-KeepsKeys}
use inwheel_server.Api.Keys.Concurrent.{
  Phase, idle, inserting, answered, System, set_phase, after_lookup, Step, look_up, insert,
  fail_statement, revoke, pass_time, Run, stay, go_on,
}

-- A row, active or revoked, with this digest and this address.
abbrev pub is_row : String → String → ApiKey → Bool
is_row hash e k = k.key_hash == hash && k.email == e

-- A registration that has answered 201 has its row.
abbrev pub claim : (String → String) → Phase → List ApiKey → Bool
claim sha256_hex (answered (ok (registered_201 raw t e))) ks = any (is_row (sha256_hex raw) e) ks
claim sha256_hex _ ks = true

any_row-revoke_rows :
    (now : Time) (hash h e : String) (ks : List ApiKey)
    → any (is_row h e) (revoke_rows now hash ks) ≡ any (is_row h e) ks
unfolding revoke_rows
any_row-revoke_rows now hash h e [] = refl
any_row-revoke_rows now hash h e (k ∷ ks) = ground (arith, any_row-revoke_rows now hash h e ks)

module _ (sha256_hex : String → String) where
  claim-cons :
      (row : ApiKey) (ks : List ApiKey) (x : Phase)
      → claim sha256_hex x ks ≡ true
      → claim sha256_hex x (row ∷ ks) ≡ true
  claim-cons row ks idle h = refl
  claim-cons row ks (inserting e raw) h = refl
  claim-cons row ks (answered (err x)) h = refl
  claim-cons row ks (answered (ok (rejected_400 es))) h = refl
  claim-cons row ks (answered (ok conflict_409)) h = refl
  claim-cons row ks (answered (ok limited_429)) h = refl
  claim-cons row ks (answered (ok (registered_201 raw t e))) h = ground (arith, h)

  claim-revoke_rows :
      (now : Time) (hash : String) (ks : List ApiKey) (x : Phase)
      → claim sha256_hex x ks ≡ true
      → claim sha256_hex x (revoke_rows now hash ks) ≡ true
  claim-revoke_rows now hash ks idle h = refl
  claim-revoke_rows now hash ks (inserting e raw) h = refl
  claim-revoke_rows now hash ks (answered (err x)) h = refl
  claim-revoke_rows now hash ks (answered (ok (rejected_400 es))) h = refl
  claim-revoke_rows now hash ks (answered (ok conflict_409)) h = refl
  claim-revoke_rows now hash ks (answered (ok limited_429)) h = refl
  claim-revoke_rows now hash ks (answered (ok (registered_201 raw t e))) h =
      rw (any_row-revoke_rows now hash (sha256_hex raw) e ks) h

  -- The constraints on the keys, and a row for every 201.
  pub record IsSound (s : System) : Type 0 where
    pub unique : HasUniqueKeys s.db.api_keys
    pub claims : (i : ℕ) → claim sha256_hex (s.phase i) s.db.api_keys ≡ true

  set_phase-claim :
      (ks : List ApiKey) (i j : ℕ) (x : Phase) (phase : ℕ → Phase)
      → claim sha256_hex x ks ≡ true
      → claim sha256_hex (phase j) ks ≡ true
      → claim sha256_hex (set_phase i x phase j) ks ≡ true
  set_phase-claim ks i j x phase new old = elim (Bool-cases (eqb i j)) [
    | inl y ↦ rw y new
    | inr n ↦ rw n old
  ]

  after_lookup-claim :
      (e raw : String) (r : Result (Option ApiKey)) (ks : List ApiKey)
      → claim sha256_hex (after_lookup e raw r) ks ≡ true
  after_lookup-claim e raw (ok none) ks = refl
  after_lookup-claim e raw (ok (some k)) ks = refl
  after_lookup-claim e raw (err x) ks = refl

  module _ (pg : Postgres) where
    insert-claims :
        (i : ℕ) (e raw : String) (s : System)
        → IsSound s
        → (j : ℕ)
        → let (r, db') = insert_key pg e (sha256_hex raw) s.db in
          claim sha256_hex (set_phase i (answered (created raw r)) s.phase j) db'.api_keys ≡ true
    unfolding has_pg_code
    insert-claims i e raw s sound j =
        let row = key_row pg e (sha256_hex raw) s.db in
        elim (Bool-cases (any (collides row) s.db.api_keys)) [
          | inl y ↦ rw y (
              set_phase-claim s.db.api_keys i j (answered (ok conflict_409)) s.phase refl
                (sound.claims j))
          | inr n ↦ rw n (
              set_phase-claim (row ∷ s.db.api_keys) i j
                (answered (ok (registered_201 raw row.created_at row.email))) s.phase
                (rw (eq_refl (sha256_hex raw), eq_refl e) refl)
                (claim-cons row s.db.api_keys (s.phase j) (sound.claims j)))
        ]

    step-IsSound : {s t : System} → Step sha256_hex pg s t → IsSound s → IsSound t
    step-IsSound {s} (look_up i e raw free) sound = record {
      unique = sound.unique;
      claims = λ j.
          set_phase-claim s.db.api_keys i j (after_lookup e raw (find_body (has_email e) s.db).0)
            s.phase (after_lookup-claim e raw (find_body (has_email e) s.db).0 s.db.api_keys)
            (sound.claims j);
    }
    step-IsSound {s} (insert i e raw ready) sound = record {
      unique = insert_key-KeepsKeys pg e (sha256_hex raw) s.db sound.unique;
      claims = insert-claims i e raw s sound;
    }
    step-IsSound {s} (fail_statement i x) sound = record {
      unique = sound.unique;
      claims =
          λ j. set_phase-claim s.db.api_keys i j (answered (err x)) s.phase refl (sound.claims j);
    }
    step-IsSound {s} (revoke raw) sound = record {
      unique = revoke_body-KeepsKeys (sha256_hex raw) s.db sound.unique;
      claims = λ j. elim (Bool-cases (any (has_hash (sha256_hex raw)) s.db.api_keys)) [
        | inl y ↦ rw y (
            claim-revoke_rows s.db.clock (sha256_hex raw) s.db.api_keys (s.phase j)
              (sound.claims j))
        | inr n ↦ rw n (sound.claims j)
      ];
    }
    step-IsSound {s} (pass_time n) sound = record { unique = sound.unique; claims = sound.claims }

-- However registrations and revocations of any number of clients overlap, and whichever statements fail:
-- if every digest and every id has one key at most, every address one active key at most, and every
-- registration that has answered 201 its row, then this is so after every further step.
pub Run-IsSound :
    (sha256_hex : String → String) (pg : Postgres) (s t : System)
    → Run sha256_hex pg s t
    → IsSound sha256_hex s
    → IsSound sha256_hex t
Run-IsSound sha256_hex pg s t stay sound = sound
Run-IsSound sha256_hex pg s u (go_on {t = t} run step) sound =
    step-IsSound sha256_hex pg step (Run-IsSound sha256_hex pg s t run sound)
