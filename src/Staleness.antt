-- ===== src/Staleness.antt =====
-- The monitor of silent channels (adapters/staleness/monitor.py).
pub mod Cadence
pub mod Run
pub mod Cooldown
pub mod Ranks
pub mod Threshold
mod Tests
