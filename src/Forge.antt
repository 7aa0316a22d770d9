-- ===== src/Forge.antt =====
-- internal/forge: what the program makes of the comments that GitHub answers with.
pub mod Count
