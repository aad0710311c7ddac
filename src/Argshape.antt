-- ===== src/Argshape.antt =====
-- Corrections of shell commands (adapters/argshape), by their parts.
pub mod Fixes
pub mod Choice
pub mod Outcomes
pub mod Demotion
pub mod Edits
pub mod Plan
pub mod Golden
pub mod Breaker
pub mod Shapes
pub mod Digits
pub mod Lossless
mod Tests
mod ShapeTests
