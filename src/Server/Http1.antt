-- ===== src/Server/Http1.antt =====
-- HTTP/1.1: src/server/http1_io.cpp and src/server/connection.cpp.
pub mod Body
pub mod Headers
pub mod Framing
pub mod Connection
