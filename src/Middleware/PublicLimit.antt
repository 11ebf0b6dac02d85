-- ===== src/Middleware/PublicLimit.antt =====
-- internal/middleware/public_rate_limit.go. `limiter` and `put` are where the state keeps the limiter.
use inwheel_server.Prelude.{ℕ, String, Bool, not, ◌==◌, Option, if◌then◌else◌}
use inwheel_server.Float64.{F64, Arithmetic}
use inwheel_server.Models.Profile.{Time}
use inwheel_server.Middleware.Http.{Request, Exchange, Handler, set_header, write_header, write}
use inwheel_server.Middleware.RateLimiter.{
  RateLibrary, RateLimiter, allow, retry_after_seconds, client_ip,
}

-- strconv.Itoa and math.Ceil, net.SplitHostPort, and time.Now() at the request.
pub record Network : Type 0 where
  pub itoa : ℕ → String
  pub ceil : F64 → ℕ
  pub split_host_port : String → Option String

abbrev pub too_many : Network → Arithmetic → F64 → Exchange → Exchange
too_many net fl rate w = write "{\"error\":\"rate limit exceeded\"}\n" (
    write_header 429 (
      set_header "Retry-After" (net.itoa (retry_after_seconds fl net.ceil rate))
        (set_header "Content-Type" "application/json" w)))

module _ {Bucket : Type 0} (lib : RateLibrary Bucket) (fl : Arithmetic) (net : Network) where
  -- The limiter's answer decides.
  abbrev pub unless_limited :
      {S : Type 0}
      → Handler (RateLimiter Bucket × S)
      → Request
      → Exchange × S
      → Bool × RateLimiter Bucket
      → Exchange × (RateLimiter Bucket × S)
  unless_limited next r (w, s) (allowed, l) =
      if not allowed then (too_many net fl l.r w, (l, s)) else next r (w, (l, s))

  unfoldable pub public_rate_limit :
      {S : Type 0} → Time → Handler (RateLimiter Bucket × S) → Handler (RateLimiter Bucket × S)
  public_rate_limit now next r (w, (l, s)) =
      if r.api_key_id == ""
      then unless_limited next r (w, s)
          (allow lib now (client_ip net.split_host_port r.remote_addr) l)
      else next r (w, (l, s))
