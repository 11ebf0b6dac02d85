-- ===== src/Identity/Tests.antt =====
-- Runs of internal/identity and witnesses of its theorems.
use inwheel_server.Prelude.{List, [], ◌∷◌, ◌≡◌, refl}
use inwheel_server.Prelude.Result.{ok}
use inwheel_server.Float64.{F64}
use inwheel_server.Models.Place.{Place}
use inwheel_server.Samples.{thousandths, thousandths-IsOrdered, latin, cafe, waiting}
use inwheel_server.Identity.Record.{Decision, confident}
use inwheel_server.Identity.Normalize.{normalize}
use inwheel_server.Identity.Score.{score_candidate, name_score}
use inwheel_server.Identity.Matcher.{decide, settle}
use inwheel_server.Identity.Matcher.Best.{IsDecided, decide_lem}
use inwheel_server.Identity.Sweep.{record_of}

normalize_name : normalize latin "blue cup, inc" ≡ "blue" ∷ "cup" ∷ []
unfolding normalize
normalize_name = refl

-- The second of two candidates wins, for its name.
abbrev candidates : List Place
candidates = record cafe { id = "p0"; name = "red cup" } ∷ cafe ∷ []

abbrev score : Place → F64
score = score_candidate thousandths latin (record_of waiting)

best_of_two :
    decide thousandths score candidates
    ≡ ok (record { kind = confident; matched_place_id = "p1"; confidence = 999 })
unfolding decide score_candidate record_of name_score settle normalize
best_of_two = refl

decide_lem_example :
    (d : Decision) × (decide thousandths score candidates ≡ ok d)
    × IsDecided thousandths score candidates d
decide_lem_example = decide_lem thousandths score thousandths-IsOrdered candidates
