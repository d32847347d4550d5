-- ===== src/Backtest.antt =====
-- src/backtest: the Monte Carlo drawdown estimate.
pub mod MonteCarlo
