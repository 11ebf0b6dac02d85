-- ===== src/Identity/Sweep/Counts.antt =====
-- The counters of internal/identity/sweep.go, over any repositories.
use inwheel_server.Prelude.{◌+◌, String, List, [], ◌∷◌, ◌≡◌, refl, length, arith}
use inwheel_server.Prelude.Result.{Result, ok, err, wrap_err, continue}
use inwheel_server.Float64.{Arithmetic}
use inwheel_server.Models.Profile.{Time}
use inwheel_server.Models.Place.{UnmatchedExternal}
use inwheel_server.Identity.Record.{CandidateRepo, AttachRepo, SweepRepo}
use inwheel_server.Identity.Normalize.{Unicode}
use inwheel_server.Identity.Score.{radius_m}
use inwheel_server.Identity.Sweep.{SweepResult, no_rows, sweep_row, tally_result, sweep_rows, sweep}

module _ (fl : Arithmetic) (uni : Unicode) {S : Type 0} (candidates : CandidateRepo S)
    (places : AttachRepo S) (queue : SweepRepo S) (now : S → Time) where
  -- The counters add up to the rows, whatever the repositories do.
  sweep_rows-counts :
      (rows : List UnmatchedExternal) (res : SweepResult) (s : S)
      → let r = (sweep_rows fl uni candidates places queue now rows res s).0 in
        (r.considered ≡ res.considered)
        × (r.confident + r.low_confidence + r.no_match + r.errors
            ≡ res.confident + res.low_confidence + res.no_match + res.errors + length rows)
  unfolding sweep_rows
  sweep_rows-counts [] res s = (refl, omega arith)
  sweep_rows-counts (row ∷ rows) res s =
      let (r, s') = sweep_row fl uni candidates places queue now row s in
      let (same, total) =
        sweep_rows-counts rows (tally_result fl uni candidates places queue now r res) s' in
      (ground (arith, same), ground (arith, total))

  -- Every row that a sweep considered is counted once: as confident, of low confidence, not matched,
  -- or failed.
  pub sweep_counts :
      (touched : List String) (s : S) (r : SweepResult)
      → (sweep fl uni candidates places queue now touched s).0 ≡ ok r
      → r.considered ≡ r.confident + r.low_confidence + r.no_match + r.errors
  unfolding sweep
  sweep_counts [] s r h = ground arith
  sweep_counts (t ∷ touched) s r h =
      let found = queue.find_candidates_near_touched (t ∷ touched) (radius_m fl) s in
      from_rows found.0 found.1 h
    where
      from_rows :
          (found : Result (List UnmatchedExternal)) (s' : S)
          → (continue
              (wrap_err "find candidates near touched" found)
              (λ rows s''. (
                ok
                    (sweep_rows fl uni candidates places queue now rows
                      (record no_rows { considered = length rows })
                      s'').0,
                (sweep_rows fl uni candidates places queue now rows
                    (record no_rows { considered = length rows })
                    s'').1,
              ))
              s').0
            ≡ ok r
          → r.considered ≡ r.confident + r.low_confidence + r.no_match + r.errors
      from_rows (err e) s' k = cc
      from_rows (ok rows) s' k =
          ground (arith, sweep_rows-counts rows (record no_rows { considered = length rows }) s')
