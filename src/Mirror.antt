-- ===== src/Mirror.antt =====
-- The mirror of the log into Redis (adapters/redis-mirror), by its parts.
pub mod Redis
pub mod Publish
pub mod Window
pub mod Schemas
pub mod Event
pub mod Accounts
pub mod Tail
pub mod Follow
mod Tests
