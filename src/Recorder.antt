-- ===== src/Recorder.antt =====
-- The recorder of agent runs (adapters/reflex-recorder), by its modules.
pub mod Keys
pub mod Paths
pub mod Enrich
pub mod Skills
pub mod Segment
pub mod Chain
pub mod Accounts
pub mod Closing
pub mod Features
mod Tests
