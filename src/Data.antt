-- ===== src/Data.antt =====
-- src/data: market data types, and candles built from trades.
pub mod Types
pub mod Ohlcv
pub mod OrderBook
