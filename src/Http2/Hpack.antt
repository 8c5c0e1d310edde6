-- ===== src/Http2/Hpack.antt =====
-- src/http2/hpack.cpp, src/http2/hpack_tables.hpp and include/nhttp/http2/hpack.hpp: header
-- compression for HTTP/2.
pub mod Tables
pub mod Reader
pub mod Huffman
pub mod Integer
pub mod Decoder
pub mod Encoder
