-- ===== src/Core.antt =====
-- The value types that every other part shares (internal/core).
pub mod Words
pub mod Spans
pub mod Revision
pub mod Finding
pub mod Resolution
pub mod Status
pub mod Pass
pub mod Coverage
pub mod Parsers
mod Tests
