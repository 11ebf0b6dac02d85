-- ===== src/Ingestion/Pipeline.antt =====
-- cmd/ingestion/main.go: the repositories wired together, the canonical pipeline (import, flush,
-- sweep) and the external one (resolve each record). A source is a parameter: its name, its kind and
-- the imports that it supports. Logging is left out; the summary is returned.
pub mod Repositories
pub mod Kept
pub mod Imported
pub mod Resolved
mod Tests
use inwheel_server.Prelude.{
  ℕ, ◌+◌, String, Bool, Option, none, some, List, [], ◌∷◌, ◌==◌, if◌then◌else◌,
}
use inwheel_server.Prelude.Result.{
  message, Result, ok, err, Action, continue, ◌>>=◌, pure, fail, annotate,
}
use inwheel_server.Float64.{Arithmetic}
use inwheel_server.Models.Profile.{Time, AccessibilityProfile}
use inwheel_server.Models.Place.{Place}
use inwheel_server.A11y.{with_audit_flags}
use inwheel_server.Db.{Db, Postgres}
use inwheel_server.PlaceRepo.Places.{upsert_batch}
use inwheel_server.PlaceRepo.Profiles.{upsert_profile_ingestion}
use inwheel_server.Identity.Record.{
  Record, Kind, no_match, low_confidence, confident, other, Decision,
}
use inwheel_server.Identity.Normalize.{Unicode}
use inwheel_server.Identity.Sweep.{SweepResult}
use inwheel_server.Ingestion.Batcher.{Batcher, new_batcher, flush_now, sink}
use inwheel_server.Ingestion.Pipeline.Repositories.{sweep_db, resolve_db}

abbrev pub batch_size : ℕ
batch_size = 1000

-- internal/sources/source.go
pub data SourceKind : Type 0 where
  canonical external : SourceKind
  unknown : ℕ → SourceKind

abbrev pub Sink : Type 0 → Type 0
Sink S = Place → Option AccessibilityProfile → Action S (Unit {0})

abbrev pub RecordSink : Type 0 → Type 0
RecordSink S = Record → Action S (Unit {0})

-- A source, with the interfaces that it implements; `Out` is the sink that its kind feeds.
pub record Source (Out S : Type 0) : Type 0 where
  pub name : String
  pub full_import : Option (Out → Action S (Unit {0}))
  pub diff_sync : Option (Time → Out → Action S (Unit {0}))

unfoldable pub dispatch :
    {Out : Type 0} {S : Type 0} → Source Out S → String → Out → Action S (Unit {0})
dispatch src command out =
    if command == "full-import"
    then (elim (src.full_import) [
      | none ↦ fail (message "source does not support full-import")
      | some run ↦ run out
    ])
    else if command == "diff-sync"
    then (elim (src.diff_sync) [
      | none ↦ fail (message "source does not support diff-sync")
      | some run ↦ run 0 out
    ])
    else fail (message "unknown command")

pub record Summary : Type 0 where
  pub written : ℕ
  pub profiles_written : ℕ
  pub sweep : Result SweepResult

pub record ResolveCounters : Type 0 where
  pub confident : ℕ
  pub low_confidence : ℕ
  pub no_match : ℕ
  pub errors : ℕ

-- The tally of buildRecordSink: an error is counted and not passed on.
abbrev pub tally : Result Decision → ResolveCounters → ResolveCounters
tally (err e) c = record c { errors = c.errors + 1 }
tally (ok d) c = elim (d.kind) [
  | confident ↦ record c { confident = c.confident + 1 }
  | low_confidence ↦ record c { low_confidence = c.low_confidence + 1 }
  | no_match ↦ record c { no_match = c.no_match + 1 }
  | other n ↦ c
]

module _ (fl : Arithmetic) (uni : Unicode) (pg : Postgres) where
  abbrev pub write_profile : String → AccessibilityProfile → Action Db Bool
  write_profile id p = upsert_profile_ingestion pg id (some (with_audit_flags p))

  abbrev pub place_sink : Sink (Batcher × Db)
  place_sink = sink (upsert_batch pg) (some write_profile)

  -- The sweep's error does not fail the run.
  abbrev pub swept : Batcher → Db → Result Summary × Db
  swept b db =
      let (r, db') = sweep_db fl uni pg b.touched_ids db in
      (ok (record { written = b.written; profiles_written = b.profiles_written; sweep = r }), db')

  abbrev pub finished : Result (Unit {0}) → Batcher → Db → Result Summary × Db
  finished (err e) b db = (err e, db)
  finished (ok u) b db = swept b db

  abbrev pub imported : Result (Unit {0}) → Batcher × Db → Result Summary × Db
  imported (err e) bs = (err e, bs.1)
  imported (ok u) bs =
      let (r, bs') = annotate "final flush" (flush_now (upsert_batch pg) (some write_profile)) bs in
      finished r bs'.0 bs'.1

  unfoldable pub run_canonical :
      Source (Sink (Batcher × Db)) (Batcher × Db) → String → Action Db Summary
  unfolding dispatch
  run_canonical src command db =
      let (r, bs) =
        annotate "source" (dispatch src command place_sink) (new_batcher batch_size, db) in
      imported r bs

  unfoldable pub record_sink : RecordSink (ResolveCounters × Db)
  record_sink rec st = let (r, db') = resolve_db fl uni pg rec st.1 in (ok tt, (tally r st.0, db'))

  -- The sink over the records that a source emits.
  unfoldable pub sink_records : List Record → Action (ResolveCounters × Db) (Unit {0})
  unfolding record_sink
  sink_records [] st = (ok tt, st)
  sink_records (rec ∷ recs) st =
      let (r, st') = record_sink rec st in continue r (λ _. sink_records recs) st'

  abbrev pub no_counts : ResolveCounters
  no_counts = record { confident = 0; low_confidence = 0; no_match = 0; errors = 0 }

  unfoldable pub run_external :
      Source (RecordSink (ResolveCounters × Db)) (ResolveCounters × Db)
      → String
      → Action Db ResolveCounters
  unfolding dispatch record_sink
  run_external src command db =
      let (r, st) = annotate "source" (dispatch src command record_sink) (no_counts, db) in
      elim r [ err e ↦ (err e, st.1) | ok u ↦ (ok st.0, st.1) ]

  -- What a run logs at its end.
  pub data Report : Type 0 where
    imported_report : Summary → Report
    resolved_report : ResolveCounters → Report

  abbrev reported {ℓ} : {A : Type ℓ} → (A → Report) → Result A × Db → Result Report × Db
  reported f (ok a, db) = (ok (f a), db)
  reported f (err e, db) = (err e, db)

  -- A source is asked for its kind, and then for the interfaces of that kind.
  unfoldable pub run_pipeline :
      SourceKind
      → Source (Sink (Batcher × Db)) (Batcher × Db)
      → Source (RecordSink (ResolveCounters × Db)) (ResolveCounters × Db)
      → String
      → Action Db Report
  unfolding run_canonical run_external
  run_pipeline canonical places records command db =
      reported imported_report (run_canonical places command db)
  run_pipeline external places records command db =
      reported resolved_report (run_external records command db)
  run_pipeline (unknown n) places records command db = (err (message "source has unknown kind"), db)
