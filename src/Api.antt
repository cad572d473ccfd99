-- ===== src/Api.antt =====
-- internal/api: the requests of the HTTP API.
pub mod Collect
pub mod Series
pub mod Windows
