-- ===== src/Unmatched/Laws.antt =====
-- The constraints of the queue's table, and Enqueue of internal/unmatched/repository.go.
use inwheel_server.Prelude.{
  ℕ, ◌+◌, ◌≤◌, ◌<◌, suc, String, false, Option, none, some, List, [], ◌∷◌, ◌≡◌, refl, if◌then◌else◌,
  eqb, eqb_iff, arith, eq_iff, eq_refl, All, inl, inr, ap, Bool-cases, find_first,
}
use inwheel_server.Prelude.Result.{Result, ok}
use inwheel_server.Models.Place.{UnmatchedExternal}
use inwheel_server.Db.{Db, Postgres}
use inwheel_server.Db.Laws.{Outcome, wrapped-cases}
use inwheel_server.Unmatched.{same_key, upsert_row, rendered, insert_body, enqueue, has_id}

-- The rows with an id, and those with a key, counted.
abbrev pub count_id : ℕ → List UnmatchedExternal → ℕ
count_id id [] = 0
count_id id (r ∷ rs) = if has_id id r then suc (count_id id rs) else count_id id rs

abbrev pub count_key : String → String → List UnmatchedExternal → ℕ
count_key s k [] = 0
count_key s k (r ∷ rs) = if same_key s k r then suc (count_key s k rs) else count_key s k rs

-- The constraints of the table: PRIMARY KEY (id), with ids drawn from the sequence, and
-- UNIQUE (source, source_id).
pub record IsQueue (next : ℕ) (rows : List UnmatchedExternal) : Type 0 where
  pub ids : (id : ℕ) → count_id id rows ≤ 1
  pub keys : (s k : String) → count_key s k rows ≤ 1
  pub below : All (λ r. r.id < next) rows

abbrev pub find_key : String → String → List UnmatchedExternal → Option UnmatchedExternal
find_key s k rows = find_first (same_key s k) rows

All-weaken :
    (next : ℕ) (rows : List UnmatchedExternal)
    → All (λ r. r.id < next) rows
    → All (λ r. r.id < next + 1) rows
All-weaken next [] h = tt
All-weaken next (r ∷ rs) (p, h) = (omega arith, All-weaken next rs h)

count_id-upsert_row :
    (next : ℕ) (u : UnmatchedExternal) (id : ℕ) (rows : List UnmatchedExternal)
    → count_id id (upsert_row next u rows) ≤ count_id id rows + (if eqb next id then 1 else 0)
unfolding upsert_row
count_id-upsert_row next u id [] = ground arith
count_id-upsert_row next u id (r ∷ rs) = ground (arith, count_id-upsert_row next u id rs)

pub count_id-below :
    (next : ℕ) (rows : List UnmatchedExternal)
    → All (λ r. r.id < next) rows
    → count_id next rows ≡ 0
count_id-below next [] h = refl
count_id-below next (r ∷ rs) (p, h) = ground (arith, count_id-below next rs h)

module _ (next : ℕ) (u : UnmatchedExternal) where
  count_key-upsert_row_other :
      (s k : String) (rows : List UnmatchedExternal)
      → same_key s k u ≡ false
      → count_key s k (upsert_row next u rows) ≡ count_key s k rows
  unfolding upsert_row
  count_key-upsert_row_other s k [] h = ground arith
  count_key-upsert_row_other s k (r ∷ rs) h = ground (
    arith,
    count_key-upsert_row_other s k rs,
    eq_iff r.source u.source,
    eq_iff r.source_id u.source_id,
    eq_iff r.source s,
    eq_iff r.source_id k,
    eq_iff u.source s,
    eq_iff u.source_id k,
  )

  count_key-upsert_row_own :
      (rows : List UnmatchedExternal)
      → count_key u.source u.source_id rows ≤ 1
      → count_key u.source u.source_id (upsert_row next u rows) ≡ 1
  unfolding upsert_row
  count_key-upsert_row_own [] h = ground (arith, eq_refl u.source, eq_refl u.source_id)
  count_key-upsert_row_own (r ∷ rs) h =
      ground (arith, eq_refl u.source, eq_refl u.source_id, count_key-upsert_row_own rs)

  All-upsert_row :
      (rows : List UnmatchedExternal)
      → All (λ r. r.id < next) rows
      → All (λ r. r.id < next + 1) (upsert_row next u rows)
  unfolding upsert_row
  All-upsert_row [] h = (omega arith, tt)
  All-upsert_row (r ∷ rs) (p, h) = ground (arith, All-upsert_row rs h, All-weaken next rs h)

  abbrev pub stored : Option UnmatchedExternal → UnmatchedExternal
  stored none = record u { id = next }
  stored (some old) = record u { id = old.id; attempts = old.attempts + 1 }

  find_key-upsert_row :
      (s k : String) (rows : List UnmatchedExternal)
      → find_key s k (upsert_row next u rows) ≡ (
          if same_key s k u
          then some (stored (find_key u.source u.source_id rows))
          else find_key s k rows)
  unfolding upsert_row
  find_key-upsert_row s k [] = ground arith
  find_key-upsert_row s k (r ∷ rs) = ground (
    arith,
    find_key-upsert_row s k rs,
    eq_iff r.source u.source,
    eq_iff r.source_id u.source_id,
    eq_iff r.source s,
    eq_iff r.source_id k,
    eq_iff u.source s,
    eq_iff u.source_id k,
  )

abbrev pub HasQueue : Db → Type 0
HasQueue db = IsQueue db.next_queue_id db.queue

upsert_row-IsQueue :
    (next : ℕ) (u : UnmatchedExternal) (rows : List UnmatchedExternal)
    → IsQueue next rows
    → IsQueue (next + 1) (upsert_row next u rows)
upsert_row-IsQueue next u rows q = record {
  ids = λ id. ground (
    arith,
    count_id-upsert_row next u id rows,
    q.ids id,
    eqb_iff next id,
    count_id-below next rows q.below,
  );
  keys = λ s k. elim (Bool-cases (same_key s k u)) [
    | inl own ↦ ground (
      arith,
      count_key-upsert_row_own next u rows (q.keys u.source u.source_id),
      eq_iff u.source s,
      eq_iff u.source_id k,
    )
    | inr other ↦ ground (arith, count_key-upsert_row_other next u s k rows other, q.keys s k)
  ];
  below = All-upsert_row next u rows q.below;
}

enqueue-cases :
    (pg : Postgres) (u : UnmatchedExternal) (db : Db) → Outcome (enqueue pg u) (insert_body pg u) db
unfolding enqueue
enqueue-cases pg u db =
    wrapped-cases (insert_body pg u) "enqueue unmatched" (enqueue pg u) (λ s. refl) db

-- Whatever happens around it, enqueueing keeps the constraints of the table.
pub enqueue-HasQueue :
    (pg : Postgres) (u : UnmatchedExternal) (db : Db) → HasQueue db → HasQueue (enqueue pg u db).1
enqueue-HasQueue pg u db q =
    let (s, rows, cases) = enqueue-cases pg u db in
    let q' : HasQueue s = rw (rows.next_queue_id, rows.queue) q in
    elim cases [
      | inl h ↦ rw h (upsert_row-IsQueue s.next_queue_id (rendered pg u) s.queue q')
      | inr (e, h) ↦ rw h q'
    ]

-- A successful enqueue stores the record under its key, its payload as the column renders it: with
-- `attempts` as given if the key is new, else with the old row's id and one attempt more. Every other
-- key is looked up as before.
pub find_key-enqueue :
    (pg : Postgres) (u : UnmatchedExternal) (s k : String) (db : Db)
    → (enqueue pg u db).0 ≡ ok tt
    → find_key s k (enqueue pg u db).1.queue ≡ (
        if same_key s k u
        then some (stored db.next_queue_id (rendered pg u) (find_key u.source u.source_id db.queue))
        else find_key s k db.queue)
find_key-enqueue pg u s k db h =
    let (s', rows, cases) = enqueue-cases pg u db in
    elim cases [
      | inl e ↦ rw e (
          cc (
            find_key-upsert_row s'.next_queue_id (rendered pg u) s k s'.queue,
            rows.next_queue_id,
            rows.queue,
          ))
      | inr (x, e) ↦ absurd (cc (ap (λ (r : Result Unit × Db). r.0) e))
    ]
