-- ===== src/Api.antt =====
-- internal/api: the REST endpoints and the server that routes to them.
pub mod Response
pub mod Handlers
pub mod Server
