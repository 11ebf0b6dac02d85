-- ===== src/Api.antt =====
-- cmd/api: the HTTP server.
pub mod Keys
pub mod Errors
pub mod Like
pub mod List
pub mod Places
pub mod V1
pub mod Main
pub mod Bodies
pub mod Server
pub mod Stack
