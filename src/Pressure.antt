-- ===== src/Pressure.antt =====
-- The host-pressure watchdog (adapters/system-pressure/watch.py), by its parts.
pub mod Level
pub mod Poll
pub mod Reminders
mod Tests
