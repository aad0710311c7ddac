-- ===== src/Dlq.antt =====
-- The dead-letter daemon (adapters/dlq/dlq.py), by its parts.
pub mod Rows
pub mod Insert
pub mod Retry
pub mod Rounds
pub mod Inserted
pub mod Budget
pub mod Counts
pub mod Summary
pub mod Sink
pub mod Consumer
pub mod Delivery
mod Tests
