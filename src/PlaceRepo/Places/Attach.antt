-- ===== src/PlaceRepo/Places/Attach.antt =====
-- AttachExternalRef of internal/place/repository.go.
use inwheel_server.Prelude.{
  String, ◌&&◌, Option, none, some, List, [], ◌∷◌, ◌≡◌, refl, ap, inl, inr, if◌then◌else◌,
  Bool-cases, any, find_first, arith, ◌==◌, eq_iff,
}
use inwheel_server.Prelude.Result.{Result, ok, wrap_err}
use inwheel_server.Prelude.Dict.{lookup, lookup-insert}
use inwheel_server.Models.Profile.{Time}
use inwheel_server.Models.Place.{Place, ExternalRef}
use inwheel_server.Db.{Db}
use inwheel_server.Db.Laws.{Outcome, wrapped-cases}
use inwheel_server.PlaceRepo.Places.{has_place, attach_row, attach_body, attach_external_ref}

abbrev refs_at : String → Option Place → Option ExternalRef
refs_at source none = none
refs_at source (some p) = lookup source p.external_ids

-- The reference that the place with an id holds for a source.
abbrev pub ref_at : String → String → List Place → Option ExternalRef
ref_at id source ps = refs_at source (find_first (has_place id) ps)

module _ (now : Time) (id source : String) (ref : ExternalRef) where
  ref_at-attach_row :
      (j s : String) (ps : List Place)
      → ref_at j s (attach_row now id source ref ps)
        ≡ (if id == j && source == s && any (has_place id) ps then some ref else ref_at j s ps)
  unfolding attach_row
  ref_at-attach_row j s [] = ground arith
  ref_at-attach_row j s (p ∷ ps) = ground (
    arith,
    ref_at-attach_row j s ps,
    eq_iff id j,
    eq_iff p.id id,
    eq_iff p.id j,
    lookup-insert source s ref p.external_ids,
  )

attach-cases :
    (id source : String) (ref : ExternalRef) (db : Db)
    → Outcome
        (attach_external_ref id source ref)
        (λ s. (
          wrap_err "attach external ref" (attach_body id source ref s).0,
          (attach_body id source ref s).1,
        ))
        db
unfolding attach_external_ref
attach-cases id source ref db =
    wrapped-cases (attach_body id source ref) "attach external ref"
      (attach_external_ref id source ref) (λ s. refl) db

-- A successful attach sets the reference of its place and source, and no other place's and no other
-- source's: attaches to different sources of one place do not clobber each other.
pub ref_at-attach :
    (id source : String) (ref : ExternalRef) (db : Db) (j s : String)
    → (attach_external_ref id source ref db).0 ≡ ok tt
    → ref_at j s (attach_external_ref id source ref db).1.places
      ≡ (if id == j && source == s then some ref else ref_at j s db.places)
ref_at-attach id source ref db j s h =
    let (s', rows, cases) = attach-cases id source ref db in
    elim cases [
      | inl e ↦ elim (Bool-cases (any (has_place id) s'.places)) [
        | inl found ↦ rw e (
            ground
              (arith, ref_at-attach_row s'.clock id source ref j s s'.places, rows.places, found))
        | inr missing ↦ absurd (ground (arith, missing, ap (λ (r : Result Unit × Db). r.0) e))
      ]
      | inr (x, e) ↦ absurd (cc (ap (λ (r : Result Unit × Db). r.0) e))
    ]
