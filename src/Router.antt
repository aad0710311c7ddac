-- ===== src/Router.antt =====
-- The signal router (adapters/signal-router), by its parts.
pub mod Calibration
pub mod Route
pub mod Filing
mod Tests
