-- ===== src/Router.antt =====
-- The parts of src/router.
pub mod Captures
pub mod Route
pub mod Middleware
pub mod Targets
pub mod Dispatch
mod Runs
