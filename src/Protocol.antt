-- ===== src/Protocol.antt =====
-- The parts of src/protocol.
pub mod UrlEncode
pub mod Chunked
pub mod HttpMethod
pub mod HttpHeader
pub mod HttpDate
pub mod MimeType
pub mod HttpStatus
pub mod QueryString
pub mod Resource
