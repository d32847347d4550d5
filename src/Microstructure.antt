-- ===== src/Microstructure.antt =====
-- src/microstructure: order flow imbalance, informed trading and toxicity.
pub mod Ofi
pub mod Vpin
pub mod Toxicity
