-- ===== src/Domain.antt =====
-- The value contracts that every component shares (src/oscillink_agent/domain).
pub mod Identifiers
pub mod Tokens
pub mod Vocabulary
pub mod Json
pub mod Events
