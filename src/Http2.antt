-- ===== src/Http2.antt =====
-- The HTTP/2 layer: src/http2 and include/nhttp/http2.
pub mod Frame
pub mod Hpack
