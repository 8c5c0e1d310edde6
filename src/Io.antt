-- ===== src/Io.antt =====
-- The parts of src/io.
pub mod Stream
pub mod ReadAll
pub mod Memory
pub mod Range
