-- ===== src/Osm.antt =====
-- internal/sources/osm: OpenStreetMap elements become places.
pub mod Filter
pub mod Rank
pub mod Profile
pub mod Transform
pub mod Source
pub mod Emitted
pub mod Wheelchair
pub mod Streamed
mod Tests
