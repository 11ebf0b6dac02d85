-- ===== src/Ingestion/Pipeline/Tests.antt =====
-- A sweep over the database, and witnesses of its theorems.
use inwheel_server.Prelude.{◌+◌, Option, none, some, List, [], ◌∷◌, ◌≡◌, refl, length}
use inwheel_server.Prelude.Result.{ok}
use inwheel_server.Db.{Db, statement}
use inwheel_server.PlaceRepo.Places.{
  find_candidates, attach_external_ref, sort_near, insert_near, attach_row,
}
use inwheel_server.Unmatched.{find_candidates_near_touched, bump_attempts, delete, bump_row}
use inwheel_server.Unmatched.Laws.{HasQueue}
use inwheel_server.Identity.Score.{score_candidate, name_score}
use inwheel_server.Identity.Compat.{compatible}
use inwheel_server.Identity.Normalize.{normalize}
use inwheel_server.Identity.Matcher.{decide, settle, match}
use inwheel_server.Identity.Sweep.{SweepResult, sweep, sweep_row, apply_decision, record_of}
use inwheel_server.Identity.Sweep.Conserves.{Balanced}
use inwheel_server.Identity.Sweep.Counts.{sweep_counts}
use inwheel_server.Models.Profile.{AccessibilityProfile, empty_profile}
use inwheel_server.Models.Place.{Place}
use inwheel_server.Ingestion.Pipeline.{Summary, run_canonical, dispatch}
use inwheel_server.Ingestion.Pipeline.Imported.{listed_source, run_canonical_written}
use inwheel_server.PlaceRepo.Places.{upsert_batch, upsert_places, upsert_place, repeats_key}
use inwheel_server.PlaceRepo.Profiles.{upsert_profile_ingestion, create_profile, load_existing}
use inwheel_server.A11y.{with_audit_flags}
use inwheel_server.Ingestion.Batcher.{sink, flush_now, write_profiles}
use inwheel_server.Models.Place.{UnmatchedExternal}
use inwheel_server.Unmatched.{enqueue}
use inwheel_server.Unmatched.Laws.{find_key}
use inwheel_server.Identity.Record.{Record, Decision, confident}
use inwheel_server.Identity.Resolve.{resolve, attach, queued}
use inwheel_server.Ingestion.Pipeline.Repositories.{resolve_db}
use inwheel_server.Ingestion.Pipeline.Resolved.{IsSettled, resolve-IsSettled, match-enqueue}
use inwheel_server.Samples.{thousandths, latin, server, cafe, city, city-HasQueue}
use inwheel_server.Ingestion.Pipeline.Repositories.{
  place_candidates, place_attach, unmatched_sweep, now, sweep_db,
}
use inwheel_server.Ingestion.Pipeline.Kept.{sweep_db_conserves}

-- One row is attached to the café, one finds no shop.
abbrev result : SweepResult
result = record { considered = 2; confident = 1; low_confidence = 0; no_match = 1; errors = 0 }

sweep_city : (sweep_db thousandths latin server ("p1" ∷ []) city).0 ≡ ok result
unfolding sweep sweep_row apply_decision match decide settle score_candidate name_score normalize
    record_of compatible find_candidates sort_near insert_near find_candidates_near_touched
    bump_attempts bump_row delete attach_external_ref attach_row statement
sweep_city = refl

sweep_counts_example : 2 ≡ 1 + 0 + 1 + 0
sweep_counts_example =
    sweep_counts thousandths latin (place_candidates server) place_attach (unmatched_sweep server)
      now ("p1" ∷ []) city result sweep_city

sweep_db_conserves_example :
    HasQueue (sweep_db thousandths latin server ("p1" ∷ []) city).1
    × Balanced 2
        (length (sweep_db thousandths latin server ("p1" ∷ []) city).1.queue)
        (sweep_db thousandths latin server ("p1" ∷ []) city).0
sweep_db_conserves_example =
    sweep_db_conserves thousandths latin server ("p1" ∷ []) city city-HasQueue

-- An import of the café that is there and of a new one, with nothing queued.
abbrev items : List (Place × Option AccessibilityProfile)
items =
    (record cafe { id = ""; name = "blue cup bar" }, none)
    ∷ (record cafe { id = ""; osm_id = 8; name = "red door" }, some empty_profile)
    ∷ []

abbrev idle : Db
idle = record city { queue = [] }

abbrev summary : Summary
summary = record {
  written = 2;
  profiles_written = 1;
  sweep =
      ok (record { considered = 0; confident = 0; low_confidence = 0; no_match = 0; errors = 0 });
}

run_city :
    (run_canonical thousandths latin server (listed_source items) "full-import" idle).0 ≡ ok summary
unfolding run_canonical dispatch sink flush_now write_profiles upsert_batch repeats_key
    upsert_places upsert_place upsert_profile_ingestion create_profile load_existing
    with_audit_flags sweep find_candidates_near_touched statement
run_city = refl

run_canonical_written_example : summary.written ≡ length items
run_canonical_written_example =
    run_canonical_written thousandths latin server items idle summary run_city

-- A record of a new source that names the café.
abbrev fresh : Record
fresh = record {
  source = "bar";
  source_id = "b1";
  name = "blue cup";
  lat = 0;
  lng = 0;
  category = "bar";
  street = "";
  house_number = "";
  payload = none;
}

abbrev matched : Decision
matched = record { kind = confident; matched_place_id = "p1"; confidence = 999 }

resolve_fresh : (resolve_db thousandths latin server fresh city).0 ≡ ok matched
unfolding resolve attach match decide settle score_candidate name_score normalize compatible
    find_candidates sort_near insert_near attach_external_ref attach_row statement
resolve_fresh = refl

resolve-IsSettled_example :
    IsSettled server fresh matched (resolve_db thousandths latin server fresh city).1
resolve-IsSettled_example =
    resolve-IsSettled thousandths latin server fresh city matched resolve_fresh

enqueue_fresh : (enqueue server (queued fresh 100) city).0 ≡ ok tt
unfolding enqueue statement
enqueue_fresh = refl

match-enqueue_example :
    (row : UnmatchedExternal) × (find_key "bar" "b1"
        (enqueue server (queued fresh 100) city).1.queue
      ≡ some row)
    × (match thousandths latin (place_candidates server) (record_of row) city
        ≡ match thousandths latin (place_candidates server) fresh city)
match-enqueue_example =
    match-enqueue thousandths latin server (place_candidates server) fresh 100 city city
      enqueue_fresh
