-- ===== src/Learning.antt =====
-- src/learning: lessons from past trades and the policy that applies them.
pub mod Lessons
pub mod Policy
pub mod Memory
pub mod Extraction
