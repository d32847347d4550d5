-- ===== src/Agents/Survival.antt =====
-- src/agents/survival.rs: the survival agent, from its memory of closed trades to the commands it
-- sends.
pub mod Memory
pub mod Score
pub mod State
pub mod Agent
