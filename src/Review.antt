-- ===== src/Review.antt =====
-- The review leg (internal/review).
pub mod Ledger
mod Tests
