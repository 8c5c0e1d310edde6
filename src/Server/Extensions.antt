-- ===== src/Server/Extensions.antt =====
-- Extensions of the server: src/server/extension.cpp and those of src/server/extensions that answer from files.
pub mod Registry
pub mod Overlay
pub mod Vpath
pub mod SingleFile
