-- ===== src/Api/Keys/Concurrent/Tests.antt =====
-- Two registrations of one address that overlap, and a third after a revocation.
use inwheel_server.Prelude.{String, false, ◌≡◌, refl, ◌==◌, ◌&&◌, any, arith, if◌then◌else◌}
use inwheel_server.Prelude.Result.{ok, has_pg_code}
use inwheel_server.Samples.{server, city}
use inwheel_server.Api.Keys.{has_hash, revoke_rows, conflict_409}
use inwheel_server.Api.Keys.Concurrent.{
  idle, answered, System, look_up, insert, revoke, Run, stay, go_on, looked_up, inserted, revoked,
}
use inwheel_server.Api.Keys.Concurrent.Invariant.{IsSound, Run-IsSound}
use inwheel_server.Api.Keys.Concurrent.Exclusive.{Run-exclusive}

abbrev digest : String → String
digest raw = if raw == "k1" then "h1" else "h2"

abbrev quiet : System
quiet = record { db = city; phase = λ i. idle }

-- Both look the address up, then both insert.
abbrev both_free : System
both_free =
    looked_up digest server 1 "a@b.org" "k2" (looked_up digest server 0 "a@b.org" "k1" quiet)

abbrev both_done : System
both_done =
    inserted digest server 1 "a@b.org" "k2" (inserted digest server 0 "a@b.org" "k1" both_free)

-- The first key is revoked, and the second client tries again.
abbrev again : System
again =
    inserted digest server 1 "a@b.org" "k2"
      (looked_up digest server 1 "a@b.org" "k2" (revoked digest server "k1" both_done))

phase-both_done : both_done.phase 1 ≡ answered (ok conflict_409)
unfolding has_pg_code
phase-both_done = refl

Run-both_done : Run digest server quiet both_done
Run-both_done =
    go_on
      (go_on
        (go_on (go_on stay (look_up 0 "a@b.org" "k1" (λ f r h. absurd (ground (arith, h)))))
          (look_up 1 "a@b.org" "k2" (λ f r h. absurd (ground (arith, h)))))
        (insert 0 "a@b.org" "k1" refl))
      (insert 1 "a@b.org" "k2" refl)

Run-again : Run digest server quiet again
unfolding has_pg_code revoke_rows
Run-again =
    go_on
      (go_on (go_on Run-both_done (revoke "k1"))
        (look_up 1 "a@b.org" "k2" (λ f r h. absurd (ground (arith, h)))))
      (insert 1 "a@b.org" "k2" refl)

quiet-IsSound : IsSound digest quiet
quiet-IsSound = record {
  unique = record {
    hashes = λ h. ground arith;
    ids = λ id. ground arith;
    emails = λ e. ground arith;
  };
  claims = λ i. refl;
}

Run-IsSound_example : IsSound digest both_done
Run-IsSound_example = Run-IsSound digest server quiet both_done Run-both_done quiet-IsSound

Run-exclusive_example :
    any (has_hash "h1") again.db.api_keys && any (has_hash "h2") again.db.api_keys ≡ false
unfolding revoke_rows
Run-exclusive_example =
    Run-exclusive digest server quiet again 0 1 "k1" "k2" "a@b.org" 100 100 Run-again quiet-IsSound
      refl refl refl
