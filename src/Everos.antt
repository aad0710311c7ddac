-- ===== src/Everos.antt =====
-- The watch of memory files (adapters/everos-watch/everos_watch.py), by its parts.
pub mod Files
pub mod Watcher
pub mod Delivery
mod Tests
