-- ===== src/Unmatched/Sizes.antt =====
-- BumpAttempts and Delete of internal/unmatched/repository.go: the constraints and the size of the
-- table.
use inwheel_server.Prelude.{
  ℕ, ◌+◌, ◌≤◌, ◌<◌, suc, String, true, List, [], ◌∷◌, ◌≡◌, refl, keep, any, arith, All, length, inl,
  inr, ap, Bool-cases,
}
use inwheel_server.Prelude.Result.{successes, wrap_err}
use inwheel_server.Models.Profile.{Time}
use inwheel_server.Models.Place.{UnmatchedExternal}
use inwheel_server.Db.{Db}
use inwheel_server.Db.Laws.{Outcome, wrapped-cases}
use inwheel_server.Unmatched.{
  has_id, bump_row, bump_body, bump_attempts, other_id, delete_body, delete,
}
use inwheel_server.Unmatched.Laws.{count_id, count_key, IsQueue, HasQueue}

module _ (id : ℕ) where
  length-keep_other :
      (rows : List UnmatchedExternal)
      → length (keep (other_id id) rows) + count_id id rows ≡ length rows
  length-keep_other [] = omega arith
  length-keep_other (r ∷ rs) = ground (arith, length-keep_other rs)

  count_id-pos :
      (rows : List UnmatchedExternal) → any (has_id id) rows ≡ true → 1 ≤ count_id id rows
  count_id-pos [] h = cc
  count_id-pos (r ∷ rs) h = ground (arith, count_id-pos rs)

  count_id-keep :
      (i : ℕ) (rows : List UnmatchedExternal)
      → count_id i (keep (other_id id) rows) ≤ count_id i rows
  count_id-keep i [] = omega arith
  count_id-keep i (r ∷ rs) = ground (arith, count_id-keep i rs)

  count_key-keep :
      (s k : String) (rows : List UnmatchedExternal)
      → count_key s k (keep (other_id id) rows) ≤ count_key s k rows
  count_key-keep s k [] = omega arith
  count_key-keep s k (r ∷ rs) = ground (arith, count_key-keep s k rs)

  All-keep :
      (next : ℕ) (rows : List UnmatchedExternal)
      → All (λ r. r.id < next) rows
      → All (λ r. r.id < next) (keep (other_id id) rows)
  All-keep next [] h = tt
  All-keep next (r ∷ rs) (p, h) = ground (arith, All-keep next rs h)

  keep-IsQueue :
      (next : ℕ) (rows : List UnmatchedExternal)
      → IsQueue next rows
      → IsQueue next (keep (other_id id) rows)
  keep-IsQueue next rows q = record {
    ids = λ i. omega (arith, count_id-keep i rows, q.ids i);
    keys = λ s k. omega (arith, count_key-keep s k rows, q.keys s k);
    below = All-keep next rows q.below;
  }

module _ (id : ℕ) (at : Time) where
  length-bump_row : (rows : List UnmatchedExternal) → length (bump_row id at rows) ≡ length rows
  unfolding bump_row
  length-bump_row [] = refl
  length-bump_row (r ∷ rs) = ap suc (length-bump_row rs)

  count_id-bump_row :
      (i : ℕ) (rows : List UnmatchedExternal) → count_id i (bump_row id at rows) ≡ count_id i rows
  unfolding bump_row
  count_id-bump_row i [] = refl
  count_id-bump_row i (r ∷ rs) = ground (arith, count_id-bump_row i rs)

  count_key-bump_row :
      (s k : String) (rows : List UnmatchedExternal)
      → count_key s k (bump_row id at rows) ≡ count_key s k rows
  unfolding bump_row
  count_key-bump_row s k [] = refl
  count_key-bump_row s k (r ∷ rs) = ground (arith, count_key-bump_row s k rs)

  All-bump_row :
      (next : ℕ) (rows : List UnmatchedExternal)
      → All (λ r. r.id < next) rows
      → All (λ r. r.id < next) (bump_row id at rows)
  unfolding bump_row
  All-bump_row next [] h = tt
  All-bump_row next (r ∷ rs) (p, h) = ground (arith, All-bump_row next rs h)

  bump_row-IsQueue :
      (next : ℕ) (rows : List UnmatchedExternal)
      → IsQueue next rows
      → IsQueue next (bump_row id at rows)
  bump_row-IsQueue next rows q = record {
    ids = λ i. omega (arith, count_id-bump_row i rows, q.ids i);
    keys = λ s k. omega (arith, count_key-bump_row s k rows, q.keys s k);
    below = All-bump_row next rows q.below;
  }

delete-cases :
    (id : ℕ) (db : Db)
    → Outcome
        (delete id)
        (λ s. (wrap_err "delete unmatched" (delete_body id s).0, (delete_body id s).1))
        db
unfolding delete
delete-cases id db = wrapped-cases (delete_body id) "delete unmatched" (delete id) (λ s. refl) db

bump_attempts-cases :
    (id : ℕ) (at : Time) (db : Db)
    → Outcome
        (bump_attempts id at)
        (λ s. (wrap_err "bump attempts" (bump_body id at s).0, (bump_body id at s).1))
        db
unfolding bump_attempts
bump_attempts-cases id at db =
    wrapped-cases (bump_body id at) "bump attempts" (bump_attempts id at) (λ s. refl) db

-- A delete keeps the constraints, and the table is shorter by one row exactly when it succeeds.
pub delete_conserves :
    (id : ℕ) (db : Db)
    → HasQueue db
    → HasQueue (delete id db).1
      × (length (delete id db).1.queue + successes (delete id db).0 ≡ length db.queue)
delete_conserves id db q =
    let (s, rows, cases) = delete-cases id db in
    let q' : HasQueue s = rw (rows.next_queue_id, rows.queue) q in
    let len : length s.queue ≡ length db.queue = ap length rows.queue in
    elim cases [
      | inl h ↦ rw h (elim (Bool-cases (any (has_id id) s.queue)) [
        | inl found ↦ rw found (
          keep-IsQueue id s.next_queue_id s.queue q',
          omega (arith, length-keep_other id s.queue, count_id-pos id s.queue found, q'.ids id),
        )
        | inr missing ↦ rw missing (q', omega arith)
      ])
      | inr (e, h) ↦ rw h (q', omega arith)
    ]

-- Bumping a row, found or not, keeps the constraints and the size of the table.
pub bump_attempts_conserves :
    (id : ℕ) (at : Time) (db : Db)
    → HasQueue db
    → HasQueue (bump_attempts id at db).1
      × (length (bump_attempts id at db).1.queue ≡ length db.queue)
bump_attempts_conserves id at db q =
    let (s, rows, cases) = bump_attempts-cases id at db in
    let q' : HasQueue s = rw (rows.next_queue_id, rows.queue) q in
    let len : length s.queue ≡ length db.queue = ap length rows.queue in
    elim cases [
      | inl h ↦ rw h (elim (Bool-cases (any (has_id id) s.queue)) [
        | inl found ↦ rw found (
          bump_row-IsQueue id at s.next_queue_id s.queue q',
          omega (arith, length-bump_row id at s.queue),
        )
        | inr missing ↦ rw missing (q', omega arith)
      ])
      | inr (e, h) ↦ rw h (q', omega arith)
    ]
