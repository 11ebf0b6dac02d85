-- ===== src/Ingestion/Batcher/Tests.antt =====
-- A run of cmd/ingestion/batcher.go over the database, and a witness of its theorem.
use inwheel_server.Prelude.{Option, none, List, [], ◌∷◌, ◌≡◌, refl}
use inwheel_server.Prelude.Result.{ok}
use inwheel_server.Models.Profile.{AccessibilityProfile}
use inwheel_server.Models.Place.{Place}
use inwheel_server.Db.{statement}
use inwheel_server.PlaceRepo.Places.{upsert_batch, upsert_places, upsert_place, repeats_key}
use inwheel_server.Samples.{server, cafe, city}
use inwheel_server.Ingestion.Batcher.{new_batcher, sink_all, flush_now}

-- Three elements, of which two fill a batch and one waits for the final flush.
abbrev items : List (Place × Option AccessibilityProfile)
items =
    (record cafe { id = "" }, none)
    ∷ (record cafe { id = ""; osm_id = 8 }, none)
    ∷ (record cafe { id = ""; osm_id = 9 }, none)
    ∷ []

import_ok : (sink_all (upsert_batch server) none items (new_batcher 2, city)).0 ≡ ok tt
unfolding sink_all upsert_batch upsert_places upsert_place repeats_key statement
import_ok = refl

flush_ok :
    (flush_now
      (upsert_batch server)
      none
      (sink_all (upsert_batch server) none items (new_batcher 2, city)).1).0
    ≡ ok tt
unfolding sink_all flush_now upsert_batch upsert_places upsert_place repeats_key statement
flush_ok = refl
