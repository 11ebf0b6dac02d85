-- ===== src/Ingestion/Pipeline/Imported.antt =====
-- A whole run of the canonical pipeline, runCanonical of cmd/ingestion/main.go.
use inwheel_server.Prelude.{
  String, Bool, Option, none, some, List, [], ◌∷◌, ◌≡◌, refl, length, arith,
}
use inwheel_server.Prelude.Result.{Result, ok, err, Action, continue, wrap_err}
use inwheel_server.Float64.{Arithmetic}
use inwheel_server.Models.Profile.{AccessibilityProfile}
use inwheel_server.Models.Place.{Place}
use inwheel_server.Db.{Db, Postgres}
use inwheel_server.PlaceRepo.Places.{upsert_batch}
use inwheel_server.PlaceRepo.Places.Upsert.{upsert_batch-length}
use inwheel_server.Identity.Normalize.{Unicode}
use inwheel_server.Ingestion.Batcher.{Batcher, new_batcher, sink_all, flush_now, sink}
use inwheel_server.Ingestion.Batcher.Written.{import_written}
use inwheel_server.Ingestion.Pipeline.{
  Sink, Source, Summary, batch_size, place_sink, write_profile, imported, finished, run_canonical,
  dispatch,
}

-- A source whose full import emits the given items in order, until the sink fails.
abbrev pub emit :
    {S : Type 0} → List (Place × Option AccessibilityProfile) → Sink S → Action S (Unit {0})
emit [] out s = (ok tt, s)
emit ((p, profile) ∷ items) out s =
    let (r, s') = out p profile s in continue r (λ _. emit items out) s'

abbrev pub listed_source :
    {S : Type 0} → List (Place × Option AccessibilityProfile) → Source (Sink S) S
listed_source items = record { name = "osm"; full_import = some (emit items); diff_sync = none }

module _ (fl : Arithmetic) (uni : Unicode) (pg : Postgres) where
  continued :
      (r : Result (Unit {0})) (f g : Action (Batcher × Db) (Unit {0})) (bs : Batcher × Db)
      → ((bs' : Batcher × Db) → f bs' ≡ g bs')
      → continue r (λ _. f) bs ≡ continue r (λ _. g) bs
  continued (ok u) f g bs same = same bs
  continued (err e) f g bs same = refl

  emit-sink_all :
      (items : List (Place × Option AccessibilityProfile)) (bs : Batcher × Db)
      → emit items (place_sink fl uni pg) bs
        ≡ sink_all (upsert_batch pg) (some (write_profile fl uni pg)) items bs
  unfolding sink_all
  emit-sink_all [] bs = refl
  emit-sink_all ((p, profile) ∷ items) bs =
      let first = sink (upsert_batch pg) (some (write_profile fl uni pg)) p profile bs in
      continued first.0 (emit items (place_sink fl uni pg))
        (sink_all (upsert_batch pg) (some (write_profile fl uni pg)) items) first.1
        (emit-sink_all items)

  -- What a successful run went through after its source.
  flushed_before :
      (r : Result (Unit {0})) (bs : Batcher × Db) (summary : Summary)
      → (imported fl uni pg (wrap_err "source" r) bs).0 ≡ ok summary
      → let done = flush_now (upsert_batch pg) (some (write_profile fl uni pg)) bs in
        (r ≡ ok tt) × (done.0 ≡ ok tt) × (summary.written ≡ done.1.0.written)
  flushed_before (err e) bs summary h = absurd (cc h)
  flushed_before (ok u) bs summary h =
      let done = flush_now (upsert_batch pg) (some (write_profile fl uni pg)) bs in
      let (ended, same) = finished_lem done.0 done.1 h in (refl, ended, same)
    where
      finished_lem :
          (r : Result (Unit {0})) (bs' : Batcher × Db)
          → (finished fl uni pg (wrap_err "final flush" r) bs'.0 bs'.1).0 ≡ ok summary
          → (r ≡ ok tt) × (summary.written ≡ bs'.0.written)
      finished_lem (ok v) bs' k = (refl, ground (arith, k))
      finished_lem (err e) bs' k = absurd (cc k)

  -- A canonical run that succeeds reports as written every item that its source has emitted, in
  -- whatever number of batches: none is left behind in the buffer.
  pub run_canonical_written :
      (items : List (Place × Option AccessibilityProfile)) (db : Db) (summary : Summary)
      → (run_canonical fl uni pg (listed_source items) "full-import" db).0 ≡ ok summary
      → summary.written ≡ length items
  unfolding run_canonical dispatch
  run_canonical_written items db summary h =
      let writer : Option (String → AccessibilityProfile → Action Db Bool) =
        some (write_profile fl uni pg) in
      let sunk = emit-sink_all items (new_batcher batch_size, db) in
      let bs = emit items (place_sink fl uni pg) (new_batcher batch_size, db) in
      let (fed, flushed, same) = flushed_before bs.0 bs.1 summary h in
      let all =
        import_written (upsert_batch pg) writer (upsert_batch-length pg) batch_size items db
          (omega arith) (rw sunk at fed) (rw sunk at flushed) in
      ground (arith, same, sunk, all.0)
