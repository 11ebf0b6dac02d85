-- ===== src/Models.antt =====
-- pkg/models: the shared data model.
pub mod Profile
pub mod Place
pub mod Jsonb
