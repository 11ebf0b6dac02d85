-- ===== src/Unmatched/Tests.antt =====
-- Runs of internal/unmatched and witnesses of its theorems.
use inwheel_server.Prelude.{some, ◌≡◌, refl}
use inwheel_server.Prelude.Result.{ok}
use inwheel_server.Models.Place.{UnmatchedExternal}
use inwheel_server.Db.{statement}
use inwheel_server.Samples.{server, waiting, city}
use inwheel_server.Unmatched.{enqueue, delete}
use inwheel_server.Unmatched.Laws.{find_key, find_key-enqueue}

abbrev again : UnmatchedExternal
again = record waiting { id = 0; name = "blue cup bar"; last_attempted = 100 }

-- A record that is queued again keeps its row's id and counts an attempt.
enqueue_again : (enqueue server again city).0 ≡ ok tt
unfolding enqueue statement
enqueue_again = refl

find_key-enqueue_example :
    find_key "foo" "f1" (enqueue server again city).1.queue
    ≡ some (record again { id = 4; attempts = 2; last_attempted = 96 })
find_key-enqueue_example = find_key-enqueue server again "foo" "f1" city enqueue_again

delete_missing : (delete 9 city).1.queue ≡ city.queue
unfolding delete statement
delete_missing = refl
