-- ===== src/Examples.antt =====
-- Concrete inputs: tests of the definitions, and the theorems applied where their hypotheses hold.
mod Inputs
mod RiskManager
mod Positions
mod Survival
mod RiskAgent
mod Operators
mod Market
mod Trading
mod Learning
mod Strategies
