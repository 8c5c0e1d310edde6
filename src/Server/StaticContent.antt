-- ===== src/Server/StaticContent.antt =====
-- src/server/extensions/static_content.cpp: what overlay and single_file answer with.
pub mod QualifyPath
pub mod Etags
pub mod RangeHeader
pub mod Serve
