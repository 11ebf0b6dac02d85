-- ===== src/Middleware/RateLimiter/Eviction.antt =====
-- The sweep of internal/middleware/middleware.go against a limiter that never evicts.
use inwheel_server.Prelude.{
  ℕ, ◌≤◌, String, Bool, true, Option, none, some, List, [], ◌∷◌, ◌++◌, ◌≡◌, refl, ap, ◌∙◌, ◌==◌,
  if◌then◌else◌, inl, inr, Bool-cases,
}
use inwheel_server.Float64.{F64, Arithmetic}
use inwheel_server.Models.Profile.{Time}
use inwheel_server.Middleware.RateLimiter.{
  RateLibrary, RateLimiter, new_rate_limiter, load_or_new, allow, is_full, evicted, sweep,
}

-- An Allow of a key, or a tick of the eviction, at a time.
pub data Event : Type 0 where
  allow_at : Time → String → Event
  sweep_at : Time → Event

abbrev pub time_of : Event → Time
time_of (allow_at t k) = t
time_of (sweep_at t) = t

-- The times of the events, from `t` on, do not go back.
abbrev pub IsOrdered : Time → List Event → Type 0
IsOrdered t [] = Unit
IsOrdered t (e ∷ es) = (t ≤ time_of e) × IsOrdered (time_of e) es

-- `Alike t v w`: from `t` on, the two buckets answer alike. A full bucket is like a new one.
pub record IsRateLibrary {Bucket : Type 0} (lib : RateLibrary Bucket) (fl : Arithmetic) (r : F64)
    (b : ℕ) (Alike : Time → Bucket → Bucket → Type 0) : Type 0 where
  pub same : (t : Time) (v : Bucket) → Alike t v v
  pub trans : (t : Time) (u v w : Bucket) → Alike t u v → Alike t v w → Alike t u w
  pub later : (t u : Time) (v w : Bucket) → t ≤ u → Alike t v w → Alike u v w
  pub answer : (t : Time) (v w : Bucket) → Alike t v w → (lib.allow t v).0 ≡ (lib.allow t w).0
  pub after : (t : Time) (v w : Bucket) → Alike t v w → Alike t (lib.allow t v).1 (lib.allow t w).1
  pub full : (t : Time) (v : Bucket) → is_full lib fl t b v ≡ true → Alike t (lib.new_limiter r b) v

module _ {Bucket : Type 0} (lib : RateLibrary Bucket) where
  abbrev pub handle : Arithmetic → Event → RateLimiter Bucket → List Bool × RateLimiter Bucket
  handle fl (allow_at t k) l = let (allowed, l') = allow lib t k l in (allowed ∷ [], l')
  handle fl (sweep_at t) l = ([], sweep lib fl t l)

  -- The answers of a limiter to the events.
  unfoldable pub answers : Arithmetic → List Event → RateLimiter Bucket → List Bool
  answers fl [] l = []
  answers fl (e ∷ es) l = let (allowed, l') = handle fl e l in allowed ++ answers fl es l'

  abbrev pub update : String → Bucket → (String → Bucket) → String → Bucket
  update key v f k = if key == k then v else f k

  -- One bucket for each key, for ever.
  unfoldable pub kept_answers : List Event → (String → Bucket) → List Bool
  kept_answers [] f = []
  kept_answers (allow_at t k ∷ es) f =
      let (allowed, v) = lib.allow t (f k) in allowed ∷ kept_answers es (update k v f)
  kept_answers (sweep_at t ∷ es) f = kept_answers es f

  module _ (fl : Arithmetic) (r : F64) (b : ℕ) (Alike : Time → Bucket → Bucket → Type 0)
      (laws : IsRateLibrary lib fl r b Alike) where
    abbrev IsImage : Time → RateLimiter Bucket → (String → Bucket) → Type 0
    IsImage t l f =
        (l.r ≡ r) × (l.b ≡ b) × ((k : String) → Alike t (load_or_new lib l (l.limiters k)) (f k))

    allow-IsImage :
        (t u : Time) (key : String) (l : RateLimiter Bucket) (f : String → Bucket)
        → t ≤ u
        → IsImage t l f
        → ((allow lib u key l).0 ≡ (lib.allow u (f key)).0)
          × IsImage u (allow lib u key l).1 (update key (lib.allow u (f key)).1 f)
    unfolding allow
    allow-IsImage t u key l f le (er, eb, image) =
        let old = load_or_new lib l (l.limiters key) in
        let like = laws.later t u old (f key) le (image key) in
        (
          laws.answer u old (f key) like,
          (
            er,
            eb,
            λ k. elim (Bool-cases (key == k)) [
              | inl y ↦ rw y (laws.after u old (f key) like)
              | inr n ↦ rw n (laws.later t u (load_or_new lib l (l.limiters k)) (f k) le (image k))
            ],
          ),
        )

    evicted-Alike :
        (t u : Time) (l : RateLimiter Bucket) (w : Bucket) (o : Option Bucket)
        → t ≤ u
        → l.r ≡ r
        → l.b ≡ b
        → Alike t (load_or_new lib l o) w
        → Alike u (load_or_new lib l (evicted lib fl u l.b o)) w
    evicted-Alike t u l w none le er eb h = laws.later t u (load_or_new lib l none) w le h
    evicted-Alike t u l w (some v) le er eb h = elim (Bool-cases (is_full lib fl u l.b v)) [
      | inl y ↦
          let new-like : Alike u (lib.new_limiter l.r l.b) v =
            rw (er, eb) (laws.full u v ((rw eb at y))) in
          rw y (laws.trans u (lib.new_limiter l.r l.b) v w new-like (laws.later t u v w le h))
      | inr n ↦ rw n (laws.later t u v w le h)
    ]

    sweep-IsImage :
        (t u : Time) (l : RateLimiter Bucket) (f : String → Bucket)
        → t ≤ u
        → IsImage t l f
        → IsImage u (sweep lib fl u l) f
    unfolding sweep
    sweep-IsImage t u l f le (er, eb, image) =
        (er, eb, λ k. evicted-Alike t u l (f k) (l.limiters k) le er eb (image k))

    answers-IsImage :
        (t : Time) (es : List Event) (l : RateLimiter Bucket) (f : String → Bucket)
        → IsOrdered t es
        → IsImage t l f
        → answers fl es l ≡ kept_answers es f
    unfolding answers kept_answers
    answers-IsImage t [] l f ordered image = refl
    answers-IsImage t (allow_at u key ∷ es) l f (le, ordered) image =
        let (same, image') = allow-IsImage t u key l f le image in
        ap (λ a. a ∷ answers fl es (allow lib u key l).1) same
        ∙ ap (λ bs. (lib.allow u (f key)).0 ∷ bs)
            (answers-IsImage u es (allow lib u key l).1 (update key (lib.allow u (f key)).1 f)
              ordered image')
    answers-IsImage t (sweep_at u ∷ es) l f (le, ordered) image =
        answers-IsImage u es (sweep lib fl u l) f ordered (sweep-IsImage t u l f le image)

-- Evicting full buckets changes no answer: from its creation on, a limiter answers any sequence of
-- calls and ticks, at times that do not go back, as one bucket for each key would that is created with
-- the limiter and kept for ever. Of the rate library it is assumed that a bucket which is full answers,
-- from then on, like a new one.
pub answers-sweep :
    {Bucket : Type 0} (lib : RateLibrary Bucket) (fl : Arithmetic) (r : F64) (b : ℕ)
    (Alike : Time → Bucket → Bucket → Type 0) (es : List Event)
    → IsRateLibrary lib fl r b Alike
    → IsOrdered 0 es
    → answers lib fl es (new_rate_limiter r b) ≡ kept_answers lib es (λ k. lib.new_limiter r b)
answers-sweep lib fl r b Alike es laws ordered =
    answers-IsImage lib fl r b Alike laws 0 es (new_rate_limiter r b) (λ k. lib.new_limiter r b)
      ordered (refl, refl, λ k. laws.same 0 (lib.new_limiter r b))
