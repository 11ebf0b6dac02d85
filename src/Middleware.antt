-- ===== src/Middleware.antt =====
-- internal/middleware.
pub mod Http
pub mod RateLimiter
pub mod PublicLimit
pub mod Cors
pub mod Logging
pub mod Guarded
pub mod Tests
