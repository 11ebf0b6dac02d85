-- ===== src/Identity/Resolve.antt =====
-- internal/identity/resolve.go. `now` reads the clock of the state.
use inwheel_server.Prelude.{String, Option, none, some}
use inwheel_server.Prelude.Result.{message, Action, ◌>>=◌, ◌>>◌, pure, fail, annotate}
use inwheel_server.Float64.{Arithmetic}
use inwheel_server.Models.Profile.{Time}
use inwheel_server.Models.Place.{ExternalRef, UnmatchedExternal}
use inwheel_server.Identity.Record.{
  Record, no_match, low_confidence, confident, other, Decision, CandidateRepo, AttachRepo,
  EnqueueRepo,
}
use inwheel_server.Identity.Normalize.{Unicode}
use inwheel_server.Identity.Matcher.{match}

abbrev pub ref_of : Record → Decision → Time → ExternalRef
ref_of rec d now = record { id = rec.source_id; confidence = d.confidence; matched_at = now }

abbrev pub payload_or : Option String → String
payload_or none = "{}"
payload_or (some p) = p

unfoldable pub queued : Record → Time → UnmatchedExternal
queued rec now = record {
  id = 0;
  source = rec.source;
  source_id = rec.source_id;
  name = rec.name;
  category = rec.category;
  street = rec.street;
  house_number = rec.house_number;
  lat = rec.lat;
  lng = rec.lng;
  payload = payload_or rec.payload;
  last_attempted = now;
  attempts = 1;
}

module _ (fl : Arithmetic) (uni : Unicode) {S : Type 0} (candidates : CandidateRepo S)
    (places : AttachRepo S) (unmatched : EnqueueRepo S) (now : S → Time) where
  unfoldable pub attach : Record → Decision → Action S Decision
  attach rec d s =
      (do
        annotate "attach external ref"
            (places.attach_external_ref d.matched_place_id rec.source (ref_of rec d (now s)))
        pure d)
        s

  unfoldable pub set_aside : Record → Decision → Action S Decision
  set_aside rec d s =
      (do annotate "enqueue unmatched" (unmatched.enqueue (queued rec (now s))); pure d) s

  -- The switch on the decision's kind.
  abbrev pub apply : Record → Decision → Action S Decision
  apply rec d = elim (d.kind) [
    | confident ↦ attach rec d
    | low_confidence ↦ attach rec d
    | no_match ↦ set_aside rec d
    | other n ↦ fail (message "unhandled decision kind")
  ]

  unfoldable pub resolve : Record → Action S Decision
  unfolding attach set_aside
  resolve rec = do d ← annotate "match" (match fl uni candidates rec); apply rec d
