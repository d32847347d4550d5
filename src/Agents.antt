-- ===== src/Agents.antt =====
-- src/agents: the messages on the bus and the agents that decide.
pub mod Messages
pub mod Survival
pub mod Watchdog
pub mod Control
pub mod Brain
pub mod Manager
pub mod Requests
pub mod Execution
pub mod RiskAgent
pub mod Learning
