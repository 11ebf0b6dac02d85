-- ===== src/Ingestion/Pipeline/Kept.antt =====
-- The database under the interfaces that a sweep is given.
use inwheel_server.Prelude.{
  ℕ, String, List, [], ◌∷◌, ◌≡◌, refl, ap, ◌∙◌, inl, inr, length, any, Bool-cases,
}
use inwheel_server.Prelude.Result.{wrap_err, Action}
use inwheel_server.Float64.{F64, Arithmetic}
use inwheel_server.Models.Place.{Category, ExternalRef}
use inwheel_server.Db.{Db, Postgres, statement}
use inwheel_server.Db.Laws.{wrapped-cases}
use inwheel_server.PlaceRepo.Places.{find_candidates, attach_external_ref, attach_body, has_place}
use inwheel_server.Unmatched
use inwheel_server.Unmatched.Laws.{HasQueue}
use inwheel_server.Unmatched.Sizes.{delete_conserves, bump_attempts_conserves}
use inwheel_server.Identity.Normalize.{Unicode}
use inwheel_server.Identity.Sweep.Conserves.{KeepsQueue, Balanced, sweep_keeps}
use inwheel_server.Ingestion.Pipeline.Repositories.{
  place_candidates, place_attach, unmatched_sweep, now, sweep_db,
}

abbrev pub size : Db → ℕ
size db = length db.queue

-- The same queue.
record SameQueue (s db : Db) : Type 0 where
  next : s.next_queue_id ≡ db.next_queue_id
  rows : s.queue ≡ db.queue

SameQueue-keeps : {s db : Db} → SameQueue s db → HasQueue db → HasQueue s × (size s ≡ size db)
SameQueue-keeps same q = (rw (same.next, same.rows) q, ap length same.rows)

-- A wrapped statement that reads, or writes elsewhere.
module _ {A : Type 0} (context : String) (body m : Action Db A)
    (same : (db : Db) → m db ≡ (wrap_err context (statement body db).0, (statement body db).1))
    (elsewhere : (s : Db) → SameQueue (body s).1 s) where
  wrapped-SameQueue : (db : Db) → SameQueue (m db).1 db
  wrapped-SameQueue db =
      let (s, rows, cases) = wrapped-cases body context m same db in
      elim cases [
        | inl h ↦ rw h (record {
          next = (elsewhere s).next ∙ rows.next_queue_id;
          rows = (elsewhere s).rows ∙ rows.queue;
        })
        | inr (e, h) ↦ rw h (record { next = rows.next_queue_id; rows = rows.queue })
      ]

find_candidates-SameQueue :
    (pg : Postgres) (lat lng radius : F64) (cs : List Category) (db : Db)
    → SameQueue (find_candidates pg lat lng radius cs db).1 db
unfolding find_candidates
find_candidates-SameQueue pg lat lng radius [] db = record { next = refl; rows = refl }
find_candidates-SameQueue pg lat lng radius (c ∷ cs) db =
    wrapped-SameQueue "find candidates" _ (find_candidates pg lat lng radius (c ∷ cs)) (λ s. refl)
      (λ s. record { next = refl; rows = refl }) db

near-SameQueue :
    (pg : Postgres) (touched : List String) (radius : F64) (db : Db)
    → SameQueue (Unmatched.find_candidates_near_touched pg touched radius db).1 db
unfolding Unmatched.find_candidates_near_touched
near-SameQueue pg [] radius db = record { next = refl; rows = refl }
near-SameQueue pg (t ∷ touched) radius db =
    wrapped-SameQueue "find candidates near touched" _
      (Unmatched.find_candidates_near_touched pg (t ∷ touched) radius) (λ s. refl)
      (λ s. record { next = refl; rows = refl }) db

attach_body-SameQueue :
    (id source : String) (ref : ExternalRef) (s : Db) → SameQueue (attach_body id source ref s).1 s
attach_body-SameQueue id source ref s = elim (Bool-cases (any (has_place id) s.places)) [
  | inl a ↦ rw a (record { next = refl; rows = refl })
  | inr a ↦ rw a (record { next = refl; rows = refl })
]

attach-SameQueue :
    (id source : String) (ref : ExternalRef) (db : Db)
    → SameQueue (attach_external_ref id source ref db).1 db
unfolding attach_external_ref
attach-SameQueue id source ref db =
    wrapped-SameQueue "attach external ref" (attach_body id source ref)
      (attach_external_ref id source ref) (λ s. refl) (attach_body-SameQueue id source ref) db

pub db-KeepsQueue :
    (pg : Postgres)
    → KeepsQueue HasQueue size (place_candidates pg) place_attach (unmatched_sweep pg)
db-KeepsQueue pg = record {
  find =
      λ lat lng radius cs s q. SameQueue-keeps (find_candidates-SameQueue pg lat lng radius cs s) q;
  attach = λ id source ref s q. SameQueue-keeps (attach-SameQueue id source ref s) q;
  near = λ touched radius s q. SameQueue-keeps (near-SameQueue pg touched radius s) q;
  bump = λ id at s q. bump_attempts_conserves id at s q;
  delete = λ id s q. delete_conserves id s q;
}

-- Over the database, whatever fails and whatever other sessions do to profiles, a sweep keeps the
-- queue's constraints, and the queue loses exactly as many rows as the sweep reports as confident or
-- of low confidence; a sweep that fails loses none.
pub sweep_db_conserves :
    (fl : Arithmetic) (uni : Unicode) (pg : Postgres) (touched : List String) (db : Db)
    → HasQueue db
    → HasQueue (sweep_db fl uni pg touched db).1
      × Balanced
          (length db.queue)
          (length (sweep_db fl uni pg touched db).1.queue)
          (sweep_db fl uni pg touched db).0
sweep_db_conserves fl uni pg touched db q =
    sweep_keeps fl uni (place_candidates pg) place_attach (unmatched_sweep pg) now
      (db-KeepsQueue pg) touched db q
