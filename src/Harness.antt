-- ===== src/Harness.antt =====
-- harness/: what the transcript of a native harness says of its turns.
pub mod PromptTurn
pub mod Queue
pub mod TurnClose
