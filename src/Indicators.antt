-- ===== src/Indicators.antt =====
-- src/indicators: streaming indicators. A new period is positive, as the source asserts.
pub mod Ema
pub mod Atr
pub mod Rsi
pub mod Adx
pub mod Bollinger
pub mod Keltner
pub mod Roc
pub mod Vwap
pub mod Choppiness
