-- ===== src/Ingestion.antt =====
-- cmd/ingestion: the batch command line program.
pub mod Config
pub mod Batcher
pub mod Pipeline
pub mod Main
