-- ===== src/Ingestion/Batcher.antt =====
-- cmd/ingestion/batcher.go. `flush` returns the places with the ids that the database filled in, as
-- the source's slice has them afterwards; what `flush` and `writeProfile` change is the state `S`.
pub mod Written
mod Tests
use inwheel_server.Prelude.{
  ℕ, ◌+◌, String, Bool, Option, none, some, List, [], ◌∷◌, ◌++◌, ◌==◌, if◌then◌else◌, leb, length,
}
use inwheel_server.Prelude.Result.{panic, Result, ok, err, Action, continue}
use inwheel_server.Models.Profile.{AccessibilityProfile}
use inwheel_server.Models.Place.{Place}

pub record Batcher : Type 0 where
  pub size : ℕ
  pub buffer : List Place
  pub pending_profiles : List (Option AccessibilityProfile)
  pub written : ℕ
  pub touched_ids : List String
  pub profiles_written : ℕ

abbrev pub new_batcher : ℕ → Batcher
new_batcher size = record {
  size = size;
  buffer = [];
  pending_profiles = [];
  written = 0;
  touched_ids = [];
  profiles_written = 0;
}

abbrev pub count_profile : Bool → Batcher → Batcher
count_profile wrote b = if wrote then record b { profiles_written = b.profiles_written + 1 } else b

module _ {S : Type 0} (flush : List Place → Action S (List Place))
    (write_profile : Option (String → AccessibilityProfile → Action S Bool)) where
  -- The profile of one place.
  abbrev pub write_one :
      String
      → Option AccessibilityProfile
      → Option (String → AccessibilityProfile → Action S Bool)
      → Action (Batcher × S) (Unit {0})
  write_one id none writer bs = (ok tt, bs)
  write_one id (some profile) none bs = (ok tt, bs)
  write_one id (some profile) (some write) bs =
      let (r, s') = write id profile bs.1 in
      elim r [ err e ↦ (err e, (bs.0, s')) | ok wrote ↦ (ok tt, (count_profile wrote bs.0, s')) ]

  abbrev pub touch : String → Batcher → Batcher
  touch id b = record b { touched_ids = b.touched_ids ++ id ∷ [] }

  -- The loop over the flushed buffer; a missing profile at an index would panic.
  unfoldable pub write_profiles :
      List Place → List (Option AccessibilityProfile) → Action (Batcher × S) (Unit {0})
  write_profiles [] pending bs = (ok tt, bs)
  write_profiles (p ∷ ps) [] bs = if p.id == "" then write_profiles ps [] bs else (err panic, bs)
  write_profiles (p ∷ ps) (profile ∷ pending) bs =
      let skipped = write_profiles ps pending bs in
      let (r, bs') = write_one p.id profile write_profile (touch p.id bs.0, bs.1) in
      let written = continue r (λ _. write_profiles ps pending) bs' in
      if p.id == "" then skipped else written

  abbrev pub emptied : Result (Unit {0}) × (Batcher × S) → Result (Unit {0}) × (Batcher × S)
  emptied r = elim (r.0) [
    | err e ↦ r
    | ok u ↦ (ok tt, (record r.1.0 { buffer = []; pending_profiles = [] }, r.1.1))
  ]

  -- What follows `b.flush`.
  abbrev pub flushed : Batcher → Result (List Place) → S → Result (Unit {0}) × (Batcher × S)
  flushed b (err e) s = (err e, (b, s))
  flushed b (ok places) s = emptied (
      write_profiles places b.pending_profiles
        (record b { buffer = places; written = b.written + length places }, s))

  abbrev pub flush_buffer : List Place → Batcher → S → Result (Unit {0}) × (Batcher × S)
  flush_buffer [] b s = (ok tt, (b, s))
  flush_buffer (p ∷ ps) b s = let (r, s') = flush (p ∷ ps) s in flushed b r s'

  unfoldable pub flush_now : Action (Batcher × S) (Unit {0})
  unfolding write_profiles
  flush_now (b, s) = flush_buffer b.buffer b s

  unfoldable pub sink : Place → Option AccessibilityProfile → Action (Batcher × S) (Unit {0})
  unfolding flush_now
  sink p profile (b, s) =
      let b' = record b {
        buffer = b.buffer ++ p ∷ [];
        pending_profiles = b.pending_profiles ++ profile ∷ [];
      } in
      if leb b.size (length b'.buffer) then flush_now (b', s) else (ok tt, (b', s))

  -- What a source emits, in order, until a sink fails.
  unfoldable pub sink_all :
      List (Place × Option AccessibilityProfile) → Action (Batcher × S) (Unit {0})
  unfolding sink
  sink_all [] bs = (ok tt, bs)
  sink_all ((p, profile) ∷ items) bs =
      let (r, bs') = sink p profile bs in continue r (λ _. sink_all items) bs'
