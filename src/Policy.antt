-- ===== src/Policy.antt =====
-- The pure decisions of the loop (internal/policy).
pub mod Severity
pub mod Convergence
pub mod Termination
pub mod Redrive
pub mod Labels
pub mod Badges
pub mod Guards
pub mod Fixing
pub mod Endings
pub mod Continuing
pub mod Pushing
mod Tests
