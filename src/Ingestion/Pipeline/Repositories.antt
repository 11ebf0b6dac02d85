-- ===== src/Ingestion/Pipeline/Repositories.antt =====
-- The repositories over the database as the interfaces of internal/identity, as cmd/ingestion wires
-- them, and the sweep and the resolver over them.
use inwheel_server.Prelude.{String, List}
use inwheel_server.Prelude.Result.{Action}
use inwheel_server.Float64.{Arithmetic}
use inwheel_server.Models.Profile.{Time}
use inwheel_server.Db.{Db, Postgres}
use inwheel_server.PlaceRepo.Places.{find_candidates, attach_external_ref}
use inwheel_server.Unmatched
use inwheel_server.Identity.Record.{
  Record, Decision, CandidateRepo, AttachRepo, EnqueueRepo, SweepRepo,
}
use inwheel_server.Identity.Normalize.{Unicode}
use inwheel_server.Identity.Resolve.{resolve}
use inwheel_server.Identity.Sweep.{SweepResult, sweep}

abbrev pub place_candidates : Postgres → CandidateRepo Db
place_candidates pg = record { find_candidates = find_candidates pg }

abbrev pub place_attach : AttachRepo Db
place_attach = record { attach_external_ref = attach_external_ref }

abbrev pub unmatched_enqueue : Postgres → EnqueueRepo Db
unmatched_enqueue pg = record { enqueue = Unmatched.enqueue pg }

abbrev pub unmatched_sweep : Postgres → SweepRepo Db
unmatched_sweep pg = record {
  find_candidates_near_touched = Unmatched.find_candidates_near_touched pg;
  bump_attempts = Unmatched.bump_attempts;
  delete = Unmatched.delete;
}

-- time.Now at the statement that is about to run.
abbrev pub now : Db → Time
now db = db.clock

module _ (fl : Arithmetic) (uni : Unicode) (pg : Postgres) where
  abbrev pub sweep_db : List String → Action Db SweepResult
  sweep_db = sweep fl uni (place_candidates pg) place_attach (unmatched_sweep pg) now

  abbrev pub resolve_db : Record → Action Db Decision
  resolve_db = resolve fl uni (place_candidates pg) place_attach (unmatched_enqueue pg) now
