-- ===== src/Ingestion/Pipeline/Resolved.antt =====
-- What Resolver.Resolve of internal/identity leaves in the database.
use inwheel_server.Prelude.{String, Option, none, some, ◌≡◌, refl, sym, arith, eq_refl}
use inwheel_server.Prelude.Result.{Result, ok, err, wrap_err, Action, continue, pure}
use inwheel_server.Float64.{F64, Arithmetic}
use inwheel_server.Models.Profile.{Time}
use inwheel_server.Models.Place.{ExternalRef, UnmatchedExternal}
use inwheel_server.Db.{Db, Postgres}
use inwheel_server.PlaceRepo.Places.{attach_external_ref}
use inwheel_server.PlaceRepo.Places.Attach.{ref_at, ref_at-attach}
use inwheel_server.Unmatched.{rendered, enqueue}
use inwheel_server.Unmatched.Laws.{find_key, stored, find_key-enqueue}
use inwheel_server.Identity.Record.{
  Record, Kind, no_match, low_confidence, confident, other, Decision, CandidateRepo,
}
use inwheel_server.Identity.Normalize.{Unicode}
use inwheel_server.Identity.Score.{score_candidate}
use inwheel_server.Identity.Matcher.{match}
use inwheel_server.Identity.Resolve.{ref_of, payload_or, queued, apply, resolve, attach, set_aside}
use inwheel_server.Identity.Sweep.{record_of}
use inwheel_server.Ingestion.Pipeline.Repositories.{
  place_candidates, place_attach, unmatched_enqueue, now, resolve_db,
}

-- The matched place refers to the record.
abbrev pub IsAttached : Record → Decision → Db → Type 0
IsAttached rec d db =
    (ref : ExternalRef) × (ref_at d.matched_place_id rec.source db.places ≡ some ref)
    × (ref.id ≡ rec.source_id)
    × (ref.confidence ≡ d.confidence)

-- A record as the queue gives it back: the payload is what its JSONB column renders.
abbrev pub as_queued : Postgres → Record → Record
as_queued pg rec = record rec { payload = some (pg.jsonb (payload_or rec.payload)) }

-- The queue holds a row from which the sweep reads the record back.
abbrev pub IsQueued : Postgres → Record → Db → Type 0
IsQueued pg rec db =
    (row : UnmatchedExternal) × (find_key rec.source rec.source_id db.queue ≡ some row)
    × (record_of row ≡ as_queued pg rec)

abbrev pub IsSettled : Postgres → Record → Decision → Db → Type 0
IsSettled pg rec d db = elim (d.kind) [
  | confident ↦ IsAttached rec d db
  | low_confidence ↦ IsAttached rec d db
  | no_match ↦ IsQueued pg rec db
  | other n ↦ ⊥
]

-- A write that is followed by `return d, nil`.
returned :
    (context : String) (r : Result (Unit {0})) (d d' : Decision) (s : Db)
    → (continue (wrap_err context r) (λ _. pure d) s).0 ≡ ok d'
    → (r ≡ ok tt) × (d ≡ d') × ((continue (wrap_err context r) (λ _. pure d) s).1 ≡ s)
returned context (ok u) d d' s h = (refl, ground (arith, h), refl)
returned context (err e) d d' s h = absurd (cc h)

read_back :
    (pg : Postgres) (rec : Record) (t : Time) (db : Db) (row : UnmatchedExternal)
    → (old : Option UnmatchedExternal)
    → row ≡ stored db.next_queue_id (rendered pg (queued rec t)) old
    → record_of row ≡ as_queued pg rec
unfolding record_of queued
read_back pg rec t db row none e = rw e refl
read_back pg rec t db row (some old) e = rw e refl

enqueue-IsQueued :
    (pg : Postgres) (rec : Record) (t : Time) (db : Db)
    → (enqueue pg (queued rec t) db).0 ≡ ok tt
    → IsQueued pg rec (enqueue pg (queued rec t) db).1
unfolding queued
enqueue-IsQueued pg rec t db h =
    let old = find_key rec.source rec.source_id db.queue in
    let row = stored db.next_queue_id (rendered pg (queued rec t)) old in
    let kept = find_key-enqueue pg (queued rec t) rec.source rec.source_id db h in
    (
      row,
      ground (arith, kept, eq_refl rec.source, eq_refl rec.source_id),
      read_back pg rec t db row old refl,
    )

attach-IsAttached :
    (rec : Record) (d : Decision) (t : Time) (db : Db)
    → (attach_external_ref d.matched_place_id rec.source (ref_of rec d t) db).0 ≡ ok tt
    → IsAttached rec d (attach_external_ref d.matched_place_id rec.source (ref_of rec d t) db).1
attach-IsAttached rec d t db h =
    let kept =
      ref_at-attach d.matched_place_id rec.source (ref_of rec d t) db d.matched_place_id rec.source
        h in
    (
      ref_of rec d t,
      ground (arith, kept, eq_refl d.matched_place_id, eq_refl rec.source),
      refl,
      refl,
    )

-- A record that is queued, and read back from the queue by a later sweep, is matched as it would be
-- now: the queue drops nothing that the matcher looks at.
pub match-enqueue :
    (fl : Arithmetic) (uni : Unicode) (pg : Postgres) {S : Type 0} (repo : CandidateRepo S)
    (rec : Record) (t : Time) (db : Db) (s : S)
    → (enqueue pg (queued rec t) db).0 ≡ ok tt
    → (row : UnmatchedExternal) × (find_key rec.source rec.source_id
          (enqueue pg (queued rec t) db).1.queue
        ≡ some row)
      × (match fl uni repo (record_of row) s ≡ match fl uni repo rec s)
unfolding match score_candidate
match-enqueue fl uni pg repo rec t db s h =
    let (row, found, same) = enqueue-IsQueued pg rec t db h in (row, found, rw same refl)

moved :
    (pg : Postgres) (rec : Record) (d d' : Decision) (s s' : Db)
    → d ≡ d'
    → s' ≡ s
    → IsSettled pg rec d s
    → IsSettled pg rec d' s'
moved pg rec d d' s s' same there kept = rw (sym same, there) kept

module _ (fl : Arithmetic) (uni : Unicode) (pg : Postgres) where
  abbrev applied : Record → Decision → Action Db Decision
  applied = apply fl uni (place_candidates pg) place_attach (unmatched_enqueue pg) now

  attached :
      (rec : Record) (d d' : Decision) (s : Db)
      → IsSettled pg rec d ≡ IsAttached rec d
      → (attach fl uni (place_candidates pg) place_attach (unmatched_enqueue pg) now rec d s).0
        ≡ ok d'
      → IsSettled pg rec d'
          (attach fl uni (place_candidates pg) place_attach (unmatched_enqueue pg) now rec d s).1
  unfolding attach
  attached rec d d' s kind h =
      let w = attach_external_ref d.matched_place_id rec.source (ref_of rec d (now s)) s in
      let (wrote, same, there) = returned "attach external ref" w.0 d d' w.1 h in
      moved pg rec d d' w.1 _ same there (rw kind (attach-IsAttached rec d (now s) s wrote))

  settled :
      (rec : Record) (k : Kind) (id : String) (c : F64) (s : Db) (d' : Decision)
      → (applied rec (record { kind = k; matched_place_id = id; confidence = c }) s).0 ≡ ok d'
      → IsSettled pg rec d'
          (applied rec (record { kind = k; matched_place_id = id; confidence = c }) s).1
  unfolding set_aside
  settled rec confident id c s d' h =
      attached rec (record { kind = confident; matched_place_id = id; confidence = c }) d' s refl h
  settled rec low_confidence id c s d' h =
      attached rec (record { kind = low_confidence; matched_place_id = id; confidence = c }) d' s
        refl h
  settled rec no_match id c s d' h =
      let d : Decision = record { kind = no_match; matched_place_id = id; confidence = c } in
      let w = enqueue pg (queued rec (now s)) s in
      let (wrote, same, there) = returned "enqueue unmatched" w.0 d d' w.1 h in
      moved pg rec d d' w.1 _ same there (enqueue-IsQueued pg rec (now s) s wrote)
  settled rec (other n) id c s d' h = absurd (cc h)

  continued :
      (rec : Record) (m : Result Decision) (s : Db) (d' : Decision)
      → (continue (wrap_err "match" m) (applied rec) s).0 ≡ ok d'
      → IsSettled pg rec d' (continue (wrap_err "match" m) (applied rec) s).1
  continued rec (ok d) s d' h = settled rec d.kind d.matched_place_id d.confidence s d' h
  continued rec (err e) s d' h = absurd (cc h)

  -- No record is lost: if the resolver answers, then after a confident or a low-confidence decision
  -- the matched place refers to the record under its source with the decision's confidence, and after
  -- no match the queue holds a row from which the record is read back, its payload as the JSONB column
  -- renders it, "{}" standing for a missing one; there is no other kind of answer.
  pub resolve-IsSettled :
      (rec : Record) (db : Db) (d : Decision)
      → (resolve_db fl uni pg rec db).0 ≡ ok d
      → IsSettled pg rec d (resolve_db fl uni pg rec db).1
  unfolding resolve
  resolve-IsSettled rec db d h =
      let m = match fl uni (place_candidates pg) rec db in continued rec m.0 m.1 d h
