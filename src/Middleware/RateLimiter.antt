-- ===== src/Middleware/RateLimiter.antt =====
-- internal/middleware/middleware.go: the token buckets by key. golang.org/x/time/rate is a parameter, and
-- so are SHA-256, net.SplitHostPort and math.Ceil. A sync.Map is a function; the sweep of one tick is one
-- step, and an Allow is one step. The goroutine that ticks is a sequence of such steps.
pub mod Eviction
pub mod Race
use inwheel_server.Prelude.{ℕ, String, Bool, true, false, Option, none, some, ◌==◌, if◌then◌else◌}
use inwheel_server.Float64.{F64, Arithmetic}
use inwheel_server.Models.Profile.{Time}

-- rate.NewLimiter(r, b), Allow and Tokens, at a time.
pub record RateLibrary (Bucket : Type 0) : Type 0 where
  pub new_limiter : F64 → ℕ → Bucket
  pub allow : Time → Bucket → Bool × Bucket
  pub tokens : Time → Bucket → F64

pub record RateLimiter (Bucket : Type 0) : Type 0 where
  pub limiters : String → Option Bucket
  pub r : F64
  pub b : ℕ

abbrev pub new_rate_limiter : {Bucket : Type 0} → F64 → ℕ → RateLimiter Bucket
new_rate_limiter r b = record { limiters = λ k. none; r = r; b = b }

abbrev pub store :
    {Bucket : Type 0} → String → Bucket → (String → Option Bucket) → String → Option Bucket
store key v limiters k = if key == k then some v else limiters k

module _ {Bucket : Type 0} (lib : RateLibrary Bucket) where
  -- Load, or LoadOrStore of a new bucket.
  abbrev pub load_or_new : RateLimiter Bucket → Option Bucket → Bucket
  load_or_new l none = lib.new_limiter l.r l.b
  load_or_new l (some v) = v

  unfoldable pub allow : Time → String → RateLimiter Bucket → Bool × RateLimiter Bucket
  allow now key l =
      let (allowed, v) = lib.allow now (load_or_new l (l.limiters key)) in
      (allowed, record l { limiters = store key v l.limiters })

  module _ (fl : Arithmetic) where
    abbrev pub is_full : Time → ℕ → Bucket → Bool
    is_full now b v = fl.le (fl.of_int b) (lib.tokens now v)

    abbrev pub evicted : Time → ℕ → Option Bucket → Option Bucket
    evicted now b none = none
    evicted now b (some v) = if is_full now b v then none else some v

    unfoldable pub sweep : Time → RateLimiter Bucket → RateLimiter Bucket
    sweep now l = record l { limiters = λ k. evicted now l.b (l.limiters k) }

-- `ceil` is math.Ceil with the conversion to int.
unfoldable pub retry_after_seconds : Arithmetic → (F64 → ℕ) → F64 → ℕ
retry_after_seconds fl ceil r = if fl.le r (fl.lit 0 0) then 0 else ceil (fl.div (fl.lit 1 0) r)

abbrev host_or : String → Option String → String
host_or remote_addr none = remote_addr
host_or remote_addr (some ip) = ip

unfoldable pub client_ip : (String → Option String) → String → String
client_ip split_host_port remote_addr = host_or remote_addr (split_host_port remote_addr)
