-- ===== src/Middleware/Tests.antt =====
-- A witness for internal/middleware/middleware.go, with buckets of two tokens that get one token in a
-- unit of time.
use inwheel_server.Prelude.{
  ℕ, ◌+◌, ◌-◌, ◌*◌, ◌≤◌, Bool, true, false, List, [], ◌∷◌, ◌≡◌, refl, ap, ◌∙◌, arith, if◌then◌else◌,
  ltb, ◌==◌, none, some,
}
use inwheel_server.Models.Profile.{Time}
use inwheel_server.Middleware.RateLimiter.{RateLibrary, new_rate_limiter, allow, sweep}
use inwheel_server.Middleware.RateLimiter.Eviction.{
  Event, allow_at, sweep_at, IsRateLibrary, answers, kept_answers, answers-sweep,
}
use inwheel_server.Middleware.RateLimiter.Race.{Shared, bucket_of, amid, in_turn, amid_forgets}
use inwheel_server.Samples.{thousandths}

abbrev at_most_two : ℕ → ℕ
at_most_two n = if ltb n 2 then n else 2

-- The tokens at a time of a bucket that had so many at an earlier one.
abbrev level : Time → ℕ × Time → ℕ
level t (n, last) = at_most_two (n + (t - last))

abbrev take_token : Time → ℕ → Bool × (ℕ × Time)
take_token t n = (ltb 0 n, (n - 1, t))

abbrev pub two_tokens : RateLibrary (ℕ × Time)
two_tokens = record {
  new_limiter = λ r b. (2, 0);
  allow = λ t v. take_token t (level t v);
  tokens = λ t v. level t v * 1000;
}

abbrev Level : Time → ℕ × Time → ℕ × Time → Type 0
Level t v w = (u : Time) → t ≤ u → level u v ≡ level u w

two_tokens-IsRateLibrary : IsRateLibrary two_tokens thousandths 1000 2 Level
two_tokens-IsRateLibrary = record {
  same = λ t v u le. refl;
  trans = λ t u v w h k s le. h s le ∙ k s le;
  later = λ t u v w le h s le'. h s (omega (arith, le, le'));
  answer = λ t v w h. ap (ltb 0) (h t (omega arith));
  after = λ t v w h u le. ap (λ n. level u (n - 1, t)) (h t (omega arith));
  full = λ t v h u le. ground (arith, h, le);
}

-- Three calls, a tick and another call of one key, and a call of another.
abbrev calls : List Event
calls =
    allow_at 1 "a"
    ∷ allow_at 1 "a"
    ∷ allow_at 1 "a"
    ∷ sweep_at 2
    ∷ sweep_at 9
    ∷ allow_at 9 "a"
    ∷ allow_at 9 "b"
    ∷ []

answers-handle :
    answers two_tokens thousandths calls (new_rate_limiter 1000 2)
    ≡ true ∷ true ∷ false ∷ true ∷ true ∷ []
unfolding answers allow sweep
answers-handle = refl

answers-sweep_example :
    answers two_tokens thousandths calls (new_rate_limiter 1000 2)
    ≡ kept_answers two_tokens calls (λ k. two_tokens.new_limiter 1000 2)
answers-sweep_example =
    answers-sweep two_tokens thousandths 1000 2 Level calls two_tokens-IsRateLibrary (
      omega arith,
      (omega arith, (omega arith, (omega arith, (omega arith, (omega arith, (omega arith, tt)))))),
    )

abbrev one_bucket : Shared (ℕ × Time)
one_bucket = record {
  pointers = λ k. if k == "a" then some 0 else none;
  buckets = λ n. (2, 0);
  next = 1;
  r = 1000;
  b = 2;
}

amid_forgets_example :
    ((amid two_tokens thousandths 5 "a" one_bucket).0 ≡ true)
    × (bucket_of two_tokens "a" (amid two_tokens thousandths 5 "a" one_bucket).1 ≡ (2, 0))
    × ((in_turn two_tokens thousandths 5 "a" one_bucket).0 ≡ true)
    × (bucket_of two_tokens "a" (in_turn two_tokens thousandths 5 "a" one_bucket).1 ≡ (1, 5))
amid_forgets_example = amid_forgets two_tokens thousandths 5 "a" one_bucket 0 refl refl
