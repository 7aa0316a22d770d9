-- ===== src/Prompt.antt =====
-- internal/prompt: the repository text that a prompt carries.
pub mod Quote
