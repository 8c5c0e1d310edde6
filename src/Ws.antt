-- ===== src/Ws.antt =====
-- The parts of src/ws.
pub mod Connection
pub mod Receive
