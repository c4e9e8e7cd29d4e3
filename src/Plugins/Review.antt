-- ===== src/Plugins/Review.antt =====
-- plugins/review: what reviewers are asked, and what they decide.
pub mod Store
pub mod Handlers
pub mod Runs
pub mod Later
pub mod Decisions
mod Tests
