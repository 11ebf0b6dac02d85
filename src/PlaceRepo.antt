-- ===== src/PlaceRepo.antt =====
-- internal/place/repository.go: places and accessibility profiles.
-- A write and its commit are one statement, and every transaction writes in its last statement only,
-- so a failed transaction has nothing to undo.
pub mod Places
pub mod Profiles
mod Tests
