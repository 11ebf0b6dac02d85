-- ===== src/Identity/Matcher.antt =====
-- internal/identity/matcher.go. The loop's `bestIdx = -1` is `none`; to read the place at -1 would
-- panic.
pub mod Best
use inwheel_server.Prelude.{
  ℕ, suc, Bool, Option, none, some, List, [], ◌∷◌, get_elem?, if◌then◌else◌,
}
use inwheel_server.Prelude.Result.{Result, ok, err, panic, Action, ◌>>=◌, annotate}
use inwheel_server.Float64.{F64, Arithmetic}
use inwheel_server.Models.Place.{Place}
use inwheel_server.Identity.Record.{
  Record, Kind, no_match, low_confidence, confident, Decision, CandidateRepo,
}
use inwheel_server.Identity.Compat.{compatible}
use inwheel_server.Identity.Normalize.{Unicode}
use inwheel_server.Identity.Score.{
  zero_f, radius_m, confident_threshold, low_confidence_threshold, score_candidate,
}

abbrev pub Best : Type 0
Best = Option ℕ × F64

module _ (fl : Arithmetic) where
  unfoldable pub best_from : (Place → F64) → List Place → ℕ → Best → Best
  best_from score [] i best = best
  best_from score (c ∷ cs) i best =
      best_from score cs (suc i) (if fl.lt best.1 (score c) then (some i, score c) else best)

  abbrev pub no_decision : Decision
  no_decision = record { kind = no_match; matched_place_id = ""; confidence = zero_f fl }

  -- `candidates[bestIdx]`
  abbrev pick : Kind → F64 → List Place → Option ℕ → Result Decision
  pick kind score candidates none = err panic
  pick kind score candidates (some i) = elim (get_elem? candidates i) [
    | none ↦ err panic
    | some p ↦ ok (record { kind = kind; matched_place_id = p.id; confidence = score })
  ]

  -- The switch on the best score.
  unfoldable pub settle : List Place → Best → Result Decision
  settle cs (idx, best) =
      if fl.le (confident_threshold fl) best
      then pick confident best cs idx
      else if fl.le (low_confidence_threshold fl) best
      then pick low_confidence best cs idx
      else ok no_decision

  unfoldable pub decide : (Place → F64) → List Place → Result Decision
  unfolding best_from settle
  decide score [] = ok no_decision
  decide score (c ∷ cs) = settle (c ∷ cs) (best_from score (c ∷ cs) 0 (none, fl.neg (fl.lit 10 1)))

  module _ (uni : Unicode) {S : Type 0} (repo : CandidateRepo S) where
    unfoldable pub match : Record → Action S Decision
    match r = do
      candidates ←
          annotate "find candidates"
            (repo.find_candidates r.lat r.lng (radius_m fl) (compatible r.category))
      λ s. (decide (score_candidate fl uni r) candidates, s)
