-- ===== src/Db/Laws.antt =====
-- How a statement of the database can end.
use inwheel_server.Prelude.{
  ◌+◌, ◌≤◌, List, ◌≡◌, refl, ◌⊎◌, String, inl, inr, Option-cases, List-cases, arith,
}
use inwheel_server.Prelude.Result.{Error, err, wrap, wrap_err, Action}
use inwheel_server.Db.{Db, Step, arrive, statement}

pub record SameRows (s db : Db) : Type 0 where
  pub places : s.places ≡ db.places
  pub queue : s.queue ≡ db.queue
  pub next_queue_id : s.next_queue_id ≡ db.next_queue_id
  pub next_uuid : s.next_uuid ≡ db.next_uuid
  pub api_keys : s.api_keys ≡ db.api_keys
  pub write_logs : s.write_logs ≡ db.write_logs
  pub locked : s.locked ≡ db.locked
  pub clock : db.clock ≤ s.clock

-- `m` acts as `body` in such a state, or fails in it.
abbrev pub Outcome : {A : Type 0} → Action Db A → Action Db A → Db → Type 0
Outcome m body db =
    (s : Db) × SameRows s db × ((m db ≡ body s) ⊎ ((e : Error) × (m db ≡ (err e, s))))

arrive-SameRows :
    (step : Step) (rest : List Step) (db : Db)
    → SameRows
        (arrive step.arrival (record db { clock = db.clock + step.elapsed; script = rest }))
        db
arrive-SameRows step rest db = ground arith

module _ {A : Type 0} (body : Action Db A) where
  pub statement-cases : (db : Db) → Outcome (statement body) body db
  unfolding statement
  statement-cases db = elim (List-cases db.script) [
    | inl e ↦ (db, ground arith, inl (ground arith))
    | inr (step, rest, e) ↦ (
      arrive step.arrival (record db { clock = db.clock + step.elapsed; script = rest }),
      arrive-SameRows step rest db,
      elim (Option-cases step.fault) [
        | inl f ↦ inl (rw (e, f) refl)
        | inr (x, f) ↦ inr (x, rw (e, f) refl)
      ],
    )
  ]

  pub wrapped-cases :
      (context : String) (m : Action Db A)
      → ((db : Db) → m db ≡ (wrap_err context (statement body db).0, (statement body db).1))
      → (db : Db) → Outcome m (λ s. (wrap_err context (body s).0, (body s).1)) db
  wrapped-cases context m same db =
      let (s, rows, cases) = statement-cases db in
      (
        s,
        rows,
        elim cases [
          | inl h ↦ inl (rw (same db, h) refl)
          | inr (e, h) ↦ inr (wrap context e, rw (same db, h) refl)
        ],
      )
