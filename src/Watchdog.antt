-- ===== src/Watchdog.antt =====
-- The pipeline watchdog (adapters/pattern-watchdog/watchdog.py), by its checks.
pub mod Marker
pub mod Lag
pub mod Growth
mod Tests
