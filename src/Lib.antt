-- ===== src/Lib.antt =====
-- The trading core of ARIA, an autonomous crypto scalping bot written in Rust (src/): twelve agents
-- on a message bus, of which this library models the parts that decide whether money is at risk.
--
-- The parts and their files:
-- * Execution/Tcm is src/execution/tcm.rs, the transaction cost model.
-- * Execution/Risk is src/execution/risk.rs, the `RiskManager`: equity and its peak, the circuit
--   breaker, the freeze, the entry gates `can_open_position` and `validate_signal`, and
--   `calculate_size`. The `Inner` behind the mutex is the record `RiskManager`, a method is a function
--   from state to state, and `RiskCall` lists the methods that change the state.
-- * Execution/Position is src/execution/position.rs: the book of open positions by client id and
--   `check_exits` with its hard stop, target, breakeven, trailing and time exits. One round of the
--   loop for one position is `check_position`.
-- * Backtest/MonteCarlo is src/backtest/monte_carlo.rs, which the survival score uses.
-- * Agents/Messages is the part of src/agents/messages.rs that these agents exchange.
-- * Agents/Survival is src/agents/survival.rs: Memory keeps the closed trades and the cooldowns
--   (`on_position_closed`), Score computes the score rule by rule, State is `recompute` and
--   `apply_state`, and Agent joins the three tasks of `spawn` into one handler of events that works on
--   the agent's memory and the shared risk manager.
-- * Data/Types is src/data/types.rs, and Data/Ohlcv is src/data/ohlcv_builder.rs: `ingest` takes one
--   trade, `stream` a list of them.
-- * Strategy/Signal is the candidate signal of src/strategy/state.rs and the regimes of
--   src/strategy/regime.rs, with their names.
-- * Learning/Memory is src/learning/memory.rs: `build` sorts the closed trades into buckets.
--   Learning/Lessons and Learning/Extraction are src/learning/lessons.rs (`extract`), Learning/Policy is
--   src/learning/policy.rs (`evaluate`, the verdict on a candidate), and Agents/Learning is
--   src/agents/learning.rs, whose `refresh` joins them.
-- * Quant is src/quant.rs: the engine's state and the methods that record, Quant/Factors what it makes
--   of its histories, Quant/Sizing has `compute_sizing`, Quant/Types the question and the answer. It
--   rests on Portfolio (src/portfolio), Research/Ic (src/research/ic.rs) and Strategy/Kalman
--   (src/strategy/kalman.rs).
-- * Indicators, Microstructure and Data/OrderBook are src/indicators, src/microstructure and
--   src/data/order_book.rs, a file each.
-- * Strategy/State is the rolling state of src/strategy/state.rs (`on_closed`), Strategy/Regime the
--   detector, and each strategy has the file of its name; Strategy/Confidence is what they share,
--   Strategy/Selection is src/strategy/mod.rs, Strategy/Timeframes is
--   src/strategy/multi_timeframe.rs, Strategy/Pairs is src/strategy/pairs.rs, and Strategy/AlphaGate is
--   src/strategy/alpha_gate.rs with its scores of src/feeds.
-- * Agents/RiskAgent is src/agents/risk.rs, which asks the survival state, the learning policy and the
--   risk manager in turn: the file itself has the gates, RiskAgent/Events the messages (`judge` for a
--   candidate) and the reaction to each event (`on_event`).
-- * Execution/Orders, LimitOrder, Quality and Paper are the files of the same names in src/execution
--   (Orders with the acknowledgement of exchange.rs): requests, the plan of a limit order, the records
--   of execution costs, the paper exchange.
-- * Agents/Brain is src/agents/brain.rs with `analyze` of src/llm/engine.rs and its fallbacks.
-- * Agents/Manager is src/agents/manager.rs: `review` takes the brain's outcome to a verdict.
-- * Agents/Execution is src/agents/execution.rs: the file itself has the exits of a tick and the
--   flat-all, Execution/Entry the way from a verdict to an open position and `on_desk_event`, the
--   handler of all events; Agents/Requests has the orders that it sends.
-- * Agents/Watchdog is src/agents/watchdog.rs: both of its tasks are one handler, `on_watch`.
-- * Agents/Control is src/agents/control.rs: `handle_command`, the round over the Telegram updates
--   (`poll`) and the loop that applies the commands on the bus to the risk manager (`obey`).
--
-- Conventions:
-- * `f64` is a parameter: Float is the interface of the operations used, Float/Laws the laws of IEEE
--   754 that theorems rely on, each a section parameter, and Float/Fixed a fixed-point instance with
--   NaN that meets the laws and runs the code on concrete inputs.
-- * `chrono` is a parameter: Time is the interface, with the laws of a timeline. Each reading of the
--   clock is an argument.
-- * Unsigned integers are natural numbers; a `u32` counter that is incremented wraps as in a release
--   build, and `i32` scores are integers. A text built by `format!` is a constructor of `Text` with
--   the arguments of the format string.
-- * A `HashMap` is an association list (`Dict`), iterated in its order; theorems over a map assume that
--   its keys are distinct and speak of lookups.
-- * A lock that a function holds for its whole body makes the function one step. Messages published on
--   the bus are returned as a list, in order.
-- * Loops are structural recursion; no definition of the program takes fuel. The bisection and the count
--   of digits in Float/Fixed have 64 rounds, enough for the values of the examples.
-- * What an exchange answers to a request, and what a language model answers to a prompt, is an
--   argument of the handler, errors and timeouts included. The hash in a client id is an argument too
--   (`Naming`).
-- * The quant engine is an argument of the risk agent's gates: what it answers for an input, as
--   `compute_sizing` of an engine does. `trim().to_lowercase()` is an argument of `poll`.
-- * `log10` is an operation of Float on which no law is stated; Float/Fixed gives its whole part.
--
-- Not modelled: network and file I/O, HTTP and Telegram text, JSON, prompts, the SQLite journal and the
-- feeds; the signal agent's handler with its paper scout, which makes a signal where no strategy
-- gives one (config/aggressive.toml turns it on), the hidden Markov model, and the backtest and
-- research tools are left for later.
pub mod Prelude
pub mod Float
pub mod Time
pub mod Text
pub mod Data
pub mod Strategy
pub mod Learning
pub mod Execution
pub mod Backtest
pub mod Agents
pub mod Examples
pub mod Portfolio
pub mod Research
pub mod Quant
pub mod Indicators
pub mod Microstructure
