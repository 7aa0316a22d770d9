-- ===== src/Vcs.antt =====
-- internal/vcs: what the program asks of a clone.
pub mod Lock
