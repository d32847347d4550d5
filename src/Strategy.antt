-- ===== src/Strategy.antt =====
-- src/strategy: the candidate signals.
pub mod Signal
pub mod Kalman
pub mod State
pub mod Regime
pub mod Confidence
pub mod VwapScalp
pub mod MeanReversion
pub mod Squeeze
pub mod Momentum
pub mod EmaRibbon
pub mod Selection
pub mod Timeframes
pub mod Pairs
pub mod AlphaGate
