-- ===== src/Intel.antt =====
-- The packing of review work into prompts (internal/intel).
pub mod Split
pub mod Chunk
pub mod Plan
pub mod Pack
pub mod Merge
