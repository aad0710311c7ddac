-- ===== src/Bundler.antt =====
-- The pattern bundler (adapters/pattern-bundler), by its parts.
pub mod Window
pub mod Loop
pub mod Accounts
pub mod Balance
mod Tests
