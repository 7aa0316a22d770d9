-- ===== src/Diff.antt =====
-- The parsed diff (internal/diff).
pub mod Lines
pub mod Quoting
pub mod Parser
pub mod Output
pub mod Anchor
pub mod Ranges
mod Tests
