-- ===== src/Train.antt =====
-- The selector of the maintenance train (tools/maintenance-train/selector.py), by its parts.
pub mod Select
pub mod Picked
mod Tests
