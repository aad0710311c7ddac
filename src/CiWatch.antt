-- ===== src/CiWatch.antt =====
-- The watch of the pipelines of continuous integration (adapters/ci-watch), by its parts.
pub mod Runs
pub mod Pass
pub mod Dependabot
pub mod Advisories
pub mod Backlog
pub mod Quiet
pub mod Beads
mod Tests
mod AdvisoryTests
