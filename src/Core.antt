-- ===== src/Core.antt =====
-- core/: the records of an agent, its events, and the transition function `Step`.
pub mod Types
pub mod Retry
pub mod Step
