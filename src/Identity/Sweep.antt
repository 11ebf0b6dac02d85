-- ===== src/Identity/Sweep.antt =====
-- internal/identity/sweep.go: after an import, the queue rows near the touched places are matched
-- again. A row's error is counted and the loop goes on; logging is left out.
pub mod Counts
pub mod Conserves
use inwheel_server.Prelude.{ℕ, ◌+◌, String, Option, some, List, [], ◌∷◌, length}
use inwheel_server.Prelude.Result.{Result, ok, err, Action, ◌>>=◌, ◌>>◌, pure, annotate}
use inwheel_server.Float64.{Arithmetic}
use inwheel_server.Models.Profile.{Time}
use inwheel_server.Models.Place.{UnmatchedExternal}
use inwheel_server.Identity.Record.{
  Record, Kind, no_match, low_confidence, confident, other, Decision, CandidateRepo, AttachRepo,
  SweepRepo,
}
use inwheel_server.Identity.Normalize.{Unicode}
use inwheel_server.Identity.Score.{radius_m}
use inwheel_server.Identity.Matcher.{match}
use inwheel_server.Identity.Resolve.{ref_of}

pub record SweepResult : Type 0 where
  pub considered : ℕ
  pub confident : ℕ
  pub low_confidence : ℕ
  pub no_match : ℕ
  pub errors : ℕ

abbrev pub no_rows : SweepResult
no_rows = record { considered = 0; confident = 0; low_confidence = 0; no_match = 0; errors = 0 }

abbrev pub count_confident : SweepResult → SweepResult
count_confident r = record r { confident = r.confident + 1 }

abbrev pub count_low : SweepResult → SweepResult
count_low r = record r { low_confidence = r.low_confidence + 1 }

abbrev pub count_no_match : SweepResult → SweepResult
count_no_match r = record r { no_match = r.no_match + 1 }

abbrev pub count_error : SweepResult → SweepResult
count_error r = record r { errors = r.errors + 1 }

unfoldable pub record_of : UnmatchedExternal → Record
record_of row = record {
  source = row.source;
  source_id = row.source_id;
  name = row.name;
  lat = row.lat;
  lng = row.lng;
  category = row.category;
  street = row.street;
  house_number = row.house_number;
  payload = some row.payload;
}

-- The outcome of a row that went through without an error.
abbrev pub tally : Kind → SweepResult → SweepResult
tally confident r = count_confident r
tally low_confidence r = count_low r
tally no_match r = count_no_match r
tally (other n) r = count_error r

module _ (fl : Arithmetic) (uni : Unicode) {S : Type 0} (candidates : CandidateRepo S)
    (places : AttachRepo S) (queue : SweepRepo S) (now : S → Time) where
  abbrev pub attach_and_delete : UnmatchedExternal → Decision → Action S (Unit {0})
  attach_and_delete row d s =
      (do
        places.attach_external_ref d.matched_place_id row.source (ref_of (record_of row) d (now s))
        queue.delete row.id)
        s

  -- One round of the loop: the kind of the decision that was applied, or the error that is logged.
  unfoldable pub apply_decision : UnmatchedExternal → Decision → Action S Kind
  apply_decision row d s = elim (d.kind) [
    | confident ↦ (do attach_and_delete row d; pure confident) s
    | low_confidence ↦ (do attach_and_delete row d; pure low_confidence) s
    | no_match ↦ (do queue.bump_attempts row.id (now s); pure no_match) s
    | other n ↦ (ok (other n), s)
  ]

  unfoldable pub sweep_row : UnmatchedExternal → Action S Kind
  sweep_row row = do d ← match fl uni candidates (record_of row); apply_decision row d

  abbrev pub tally_result : Result Kind → SweepResult → SweepResult
  tally_result (ok k) r = tally k r
  tally_result (err e) r = count_error r

  unfoldable pub sweep_rows : List UnmatchedExternal → SweepResult → S → SweepResult × S
  sweep_rows [] res s = (res, s)
  sweep_rows (row ∷ rows) res s =
      let (r, s') = sweep_row row s in sweep_rows rows (tally_result r res) s'

  unfoldable pub sweep : List String → Action S SweepResult
  unfolding sweep_rows
  sweep [] s = (ok no_rows, s)
  sweep (t ∷ touched) s =
      (do
        rows ←
            annotate "find candidates near touched"
              (queue.find_candidates_near_touched (t ∷ touched) (radius_m fl))
        λ s'.
            let (res, s'') = sweep_rows rows (record no_rows { considered = length rows }) s' in
            (ok res, s''))
        s
