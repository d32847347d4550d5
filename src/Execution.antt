-- ===== src/Execution.antt =====
-- src/execution: transaction costs, the risk manager, positions, the paper exchange.
pub mod Tcm
pub mod Risk
pub mod Position
pub mod Orders
pub mod LimitOrder
pub mod Quality
pub mod Paper
