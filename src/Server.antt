-- ===== src/Server.antt =====
-- The parts of src/server.
pub mod H2
pub mod Response
pub mod Extensions
pub mod Http1
pub mod StaticContent
