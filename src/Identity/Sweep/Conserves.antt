-- ===== src/Identity/Sweep/Conserves.antt =====
-- The rows that internal/identity/sweep.go takes off the queue, over any repositories.
use inwheel_server.Prelude.{ℕ, ◌+◌, String, List, [], ◌∷◌, ◌≡◌, refl, length, arith}
use inwheel_server.Prelude.Result.{
  successes, Error, Result, ok, err, wrap_err, Action, continue, pure, ◌>>◌, annotate,
}
use inwheel_server.Float64.{F64, Arithmetic}
use inwheel_server.Models.Profile.{Time}
use inwheel_server.Models.Place.{Category, ExternalRef, UnmatchedExternal}
use inwheel_server.Identity.Record.{
  Record, Kind, no_match, low_confidence, confident, other, Decision, CandidateRepo, AttachRepo,
  SweepRepo,
}
use inwheel_server.Identity.Normalize.{Unicode}
use inwheel_server.Identity.Score.{radius_m, score_candidate}
use inwheel_server.Identity.Compat.{compatible}
use inwheel_server.Identity.Matcher.{match, decide}
use inwheel_server.Identity.Resolve.{ref_of}
use inwheel_server.Identity.Sweep.{
  SweepResult, no_rows, record_of, attach_and_delete, apply_decision, sweep_row, tally_result,
  sweep_rows, sweep,
}

-- What a sweep needs of the repositories: `Inv` holds throughout, only a successful delete makes the
-- queue shorter, by one row.
pub record KeepsQueue {S : Type 0} (Inv : S → Type 0) (size : S → ℕ) (candidates : CandidateRepo S)
    (places : AttachRepo S) (queue : SweepRepo S) : Type 0 where
  pub find :
      (lat lng radius : F64) (cs : List Category) (s : S)
      → Inv s
      → Inv (candidates.find_candidates lat lng radius cs s).1
        × (size (candidates.find_candidates lat lng radius cs s).1 ≡ size s)
  pub attach :
      (id source : String) (ref : ExternalRef) (s : S)
      → Inv s
      → Inv (places.attach_external_ref id source ref s).1
        × (size (places.attach_external_ref id source ref s).1 ≡ size s)
  pub near :
      (touched : List String) (radius : F64) (s : S)
      → Inv s
      → Inv (queue.find_candidates_near_touched touched radius s).1
        × (size (queue.find_candidates_near_touched touched radius s).1 ≡ size s)
  pub bump :
      (id : ℕ) (now : Time) (s : S)
      → Inv s
      → Inv (queue.bump_attempts id now s).1 × (size (queue.bump_attempts id now s).1 ≡ size s)
  pub delete :
      (id : ℕ) (s : S)
      → Inv s
      → Inv (queue.delete id s).1
        × (size (queue.delete id s).1 + successes (queue.delete id s).0 ≡ size s)

-- How the size of the queue goes from `n` to `m`.
abbrev pub Balanced : ℕ → ℕ → Result SweepResult → Type 0
Balanced n m (ok res) = m + res.confident + res.low_confidence ≡ n
Balanced n m (err e) = m ≡ n

-- The row is off the queue.
abbrev pub deleted : Result Kind → ℕ
deleted (ok confident) = 1
deleted (ok low_confidence) = 1
deleted _ = 0

module _ (fl : Arithmetic) (uni : Unicode) {S : Type 0} (candidates : CandidateRepo S)
    (places : AttachRepo S) (queue : SweepRepo S) (now : S → Time) where
  module _ {Inv : S → Type 0} {size : S → ℕ}
      (laws : KeepsQueue Inv size candidates places queue) where
    -- From `n` rows, the state has lost as many as `lost` says of the result.
    abbrev Keeps : {A : Type 0} → (Result A → ℕ) → ℕ → Result A × S → Type 0
    Keeps lost n r = Inv r.1 × (size r.1 + lost r.0 ≡ n)

    abbrev none_lost : {A : Type 0} → Result A → ℕ
    none_lost r = 0

    continue-Keeps :
        {A B : Type 0} (lost : Result B → ℕ) (n : ℕ) (r : Result A) (f : A → Action S B) (s : S)
        → ((e : Error) → lost (err e) ≡ 0)
        → Inv s × (size s ≡ n)
        → ((a : A) → Keeps lost n (f a s))
        → Keeps lost n (continue r f s)
    continue-Keeps lost n (ok a) f s none' inv k = k a
    continue-Keeps lost n (err e) f s none' inv k = (inv.0, omega (arith, none' e))

    match-Keeps :
        (rec : Record) (s : S) → Inv s → Keeps none_lost (size s) (match fl uni candidates rec s)
    unfolding match
    match-Keeps rec s inv =
        let kept = laws.find rec.lat rec.lng (radius_m fl) (compatible rec.category) s inv in
        let found =
          annotate "find candidates"
            (candidates.find_candidates rec.lat rec.lng (radius_m fl) (compatible rec.category))
            s in
        continue-Keeps {B = Decision} none_lost (size s) found.0
          (λ cs s'. (decide fl (score_candidate fl uni rec) cs, s')) found.1 (λ e. refl) kept
          (λ cs. (kept.0, omega arith))

    attach_and_delete-Keeps :
        (row : UnmatchedExternal) (d : Decision) (s : S)
        → Inv s
        → Keeps successes (size s) (attach_and_delete fl uni candidates places queue now row d s)
    attach_and_delete-Keeps row d s inv =
        let ref = ref_of (record_of row) d (now s) in
        let kept = laws.attach d.matched_place_id row.source ref s inv in
        let attached = places.attach_external_ref d.matched_place_id row.source ref s in
        continue-Keeps successes (size s) attached.0 (λ _. queue.delete row.id) attached.1
          (λ e. refl) kept
          (λ _. let deleted' = laws.delete row.id attached.1 kept.0 in (deleted'.0, omega arith))

    -- `do m; pure k` where `k` says that the row is gone.
    gone-Keeps :
        (k : Kind) (n : ℕ) (r : Result (Unit {0})) (s : S)
        → deleted (ok k) ≡ 1
        → Keeps successes n (r, s)
        → Keeps deleted n (continue r (λ _. pure k) s)
    gone-Keeps k n (ok u) s h (inv, same) = (inv, omega arith)
    gone-Keeps k n (err e) s h (inv, same) = (inv, omega arith)

    apply_decision-Keeps :
        (row : UnmatchedExternal) (d : Decision) (s : S)
        → Inv s
        → Keeps deleted (size s) (apply_decision fl uni candidates places queue now row d s)
    unfolding apply_decision
    apply_decision-Keeps row d s inv =
        let gone = attach_and_delete fl uni candidates places queue now row d s in
        let bumped = queue.bump_attempts row.id (now s) s in
        let kept = laws.bump row.id (now s) s inv in
        (elim (d.kind)
          as (λ k. Keeps deleted (size s) (elim k [
            | confident ↦
                (do attach_and_delete fl uni candidates places queue now row d; pure confident) s
            | low_confidence ↦
                (do attach_and_delete fl uni candidates places queue now row d; pure low_confidence)
                  s
            | no_match ↦ (do queue.bump_attempts row.id (now s); pure no_match) s
            | other n ↦ (ok (other n), s)
          ])) [
            | confident ↦
                gone-Keeps confident (size s) gone.0 gone.1 refl
                  (attach_and_delete-Keeps row d s inv)
            | low_confidence ↦
                gone-Keeps low_confidence (size s) gone.0 gone.1 refl
                  (attach_and_delete-Keeps row d s inv)
            | no_match ↦
                continue-Keeps deleted (size s) bumped.0 (λ _. pure no_match) bumped.1 (λ e. refl)
                  kept (λ _. (kept.0, omega arith))
            | other n ↦ (inv, omega arith)
          ])

    sweep_row-Keeps :
        (row : UnmatchedExternal) (s : S)
        → Inv s
        → Keeps deleted (size s) (sweep_row fl uni candidates places queue now row s)
    unfolding sweep_row
    sweep_row-Keeps row s inv =
        let matched = match fl uni candidates (record_of row) s in
        let kept = match-Keeps (record_of row) s inv in
        continue-Keeps deleted (size s) matched.0
          (λ d. apply_decision fl uni candidates places queue now row d) matched.1 (λ e. refl)
          (kept.0, omega arith)
          (λ d. let done = apply_decision-Keeps row d matched.1 kept.0 in (done.0, omega arith))

    sweep_rows-keeps :
        (rows : List UnmatchedExternal) (res : SweepResult) (s : S)
        → Inv s
        → let r = sweep_rows fl uni candidates places queue now rows res s in
          Inv r.1
          × (size r.1 + r.0.confident + r.0.low_confidence
              ≡ size s + res.confident + res.low_confidence)
    unfolding sweep_rows
    sweep_rows-keeps [] res s inv = (inv, refl)
    sweep_rows-keeps (row ∷ rows) res s inv =
        let r = sweep_row fl uni candidates places queue now row s in
        let kept = sweep_row-Keeps row s inv in
        let rest =
          sweep_rows-keeps rows (tally_result fl uni candidates places queue now r.0 res) r.1
            kept.0 in
        (rest.0, tallied r.0 res _ _ _ kept.1 rest.1)
      where
        tallied :
            (r : Result Kind) (res : SweepResult) (a b n : ℕ)
            → b + deleted r ≡ n
            → a
              ≡ b
                + (tally_result fl uni candidates places queue now r res).confident
                + (tally_result fl uni candidates places queue now r res).low_confidence
            → a ≡ n + res.confident + res.low_confidence
        tallied (ok confident) res a b n h k = omega arith
        tallied (ok low_confidence) res a b n h k = omega arith
        tallied (ok no_match) res a b n h k = omega arith
        tallied (ok (other m)) res a b n h k = omega arith
        tallied (err e) res a b n h k = omega arith

    swept : List UnmatchedExternal → Action S SweepResult
    swept rows s = (
      ok
          (sweep_rows fl uni candidates places queue now rows
            (record no_rows { considered = length rows }) s).0,
      (sweep_rows fl uni candidates places queue now rows
          (record no_rows { considered = length rows }) s).1,
    )

    swept-keeps :
        (n : ℕ) (found : Result (List UnmatchedExternal)) (s : S)
        → Inv s × (size s ≡ n)
        → let r = continue (wrap_err "find candidates near touched" found) swept s in
          Inv r.1 × Balanced n (size r.1) r.0
    unfolding swept
    swept-keeps n (err e) s kept = kept
    swept-keeps n (ok rows) s (inv, same) =
        let all = sweep_rows-keeps rows (record no_rows { considered = length rows }) s inv in
        (all.0, omega (arith, all.1))

    -- A sweep keeps the invariant, and takes off the queue exactly the rows that it counts as matched;
    -- one that fails takes off none.
    pub sweep_keeps :
        (touched : List String) (s : S)
        → Inv s
        → let r = sweep fl uni candidates places queue now touched s in
          Inv r.1 × Balanced (size s) (size r.1) r.0
    unfolding sweep swept
    sweep_keeps [] s inv = (inv, omega arith)
    sweep_keeps (t ∷ touched) s inv =
        let found = queue.find_candidates_near_touched (t ∷ touched) (radius_m fl) s in
        swept-keeps (size s) found.0 found.1 (laws.near (t ∷ touched) (radius_m fl) s inv)
