-- ===== src/Identity.antt =====
-- internal/identity: decides whether an external record is a known place, attaches it or queues it,
-- and drains the queue after an import.
pub mod Record
pub mod Compat
pub mod Normalize
pub mod Score
pub mod Matcher
pub mod Resolve
pub mod Sweep
mod Tests
