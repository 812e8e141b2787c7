-- ===== src/Lib.antt =====
-- bist_bot: a bot that scans Borsa Istanbul, sizes signals, and sends orders to a broker.
--
-- The program's parts that are modelled, and how they meet:
--
--   * Execution.Algolab models the live broker, bist_bot/execution/algolab_broker.py. Http has its
--     requests: `_request` with its retries and the stale token (request_loop, judge), the login
--     (authenticate, login_and_verify), and the decoding of orders (_parse_order, _parse_orders).
--     Match has the matching of the order history, Reconcile has `_reconcile_order` and what it
--     calls, and Place has `place_order` and the replay of open intents
--     (`_run_reconcile_pending_intents`). Spares, Keeps, Observe, Requests, Safety and Single are
--     proofs.
--   * Execution.Intents models bist_bot/db/repositories/order_intents_repository.py, the table whose
--     column `active_key` is the lock of a ticker. The live broker claims the lock before it sends an
--     order and asks the table whether the lock is taken.
--   * Execution.Executor models bist_bot/execution/order_executor.py, which sends the signals to a
--     broker: the interface Broker has the two calls that it makes of one. Its proofs are Sending
--     and Recorded. Execution.Tracker models bist_bot/execution/order_tracker.py, which asks the
--     broker about the orders that the executor sent, and writes the answers to their rows (its
--     queries are those of bist_bot/db/repositories/orders_repository.py).
--   * Execution.Paper models the simulated broker, bist_bot/execution/paper_broker.py, on the orders of
--     Execution.Order (bist_bot/execution/base.py; Product has its two older calls) and the
--     helpers of Risk.Money (bist_bot/risk/money.py and costs.py). Paper.Routed puts the executor on this
--     broker, and Paper.Agreed compares the rows that it writes with the orders of the broker.
--   * Risk.Breaker models bist_bot/risk/circuit_breaker.py, Risk.Sizing bist_bot/risk/sizing.py,
--     and Risk.Manager bist_bot/risk/manager.py with the limits of bist_bot/risk/correlation.py, on an
--     interface for the frames of prices: State, Sectors and Portfolio. Manager.Limits and Manager.Admitted
--     are its proofs.
--   * Trade.Outcome models bist_bot/trade_contract.py, the economics that a backtest must match.
--   * Agent.Positions and Agent.Exits model bist_bot/agent/position_manager.py, the table of live
--     positions and its exit conditions; Positions.Counts, Closed and Listed are proofs. Agent.Accounting models
--     bist_bot/execution/reconcile_accounting.py, which the live broker calls with a fill that it found
--     in the history, and which writes the orders and the positions; Agent.Replay and Agent.Sold
--     are its proofs.
--   * Agent.Desk models bist_bot/agent/exit_service.py (exit_position, process_pending_exits) on the
--     orders and positions of the agent, and Agent.Service bist_bot/services/execution_service.py.
--     Agent.Trading and Agent.Control model bist_bot/agent/trading_agent.py, which uses both with the
--     circuit breaker of Risk.Breaker and the exit conditions of Agent.Exits: Trading has the entries
--     (can_trade, _check_entries), Control the exits, the cycle after a scan, the commands, the timer
--     of a pause and the monitor, and the /close of bist_bot/agent/command_handler.py. Their proofs
--     are Desk.Tracked, Trading.Limits, Trading.Deaf, Control.Guards, Control.Timers and
--     Control.Closing.
--   * Services.Ledger models the table of paper and shadow trades,
--     bist_bot/db/repositories/ledger_repository.py, and Services.Shadow
--     bist_bot/services/shadow_trade_service.py, which follows weak signals in its own files and writes
--     each opening and closing to that table as well (Files has its state, Due the positions that close,
--     Opened the new ones, Round the scan); Services.Scans has what a scan hands to such a
--     service. Services.Paper models bist_bot/services/paper_trade_service.py on the paper trades of
--     bist_bot/db/repositories/portfolio_repository.py, and writes to the same table (Table, Reasons, Update,
--     Queue); Services.Outcomes
--     models bist_bot/services/signal_outcome_tracker.py (Files, Hits, Round) with the categories of
--     bist_bot/strategy/signal_models.py. Ledger.Rows, Ledger.RoundTrip, Shadow.Counts, Shadow.Mirror,
--     Paper.Justified, Paper.Settled, Outcomes.Fills, Outcomes.Remembered and Outcomes.Scanned are their
--     proofs, and Services.Entries has
--     what they share on dictionaries.
--   * Market.Calendar models bist_bot/market_calendar.py and bist_bot/agent/settlement.py.
--   * Common has Boolean tests, lists, dictionaries, signed integers, and the interface to floats.
--
-- Conventions. A Python object that methods change is a record, and a method a function from its fields
-- to new ones. A call that may raise is an `Action` of Execution.Raises, which keeps the state after a
-- raise. Texts that the code only compares (tickers, ids) are numbers, an empty or missing text is
-- `none`, and times are seconds. A clock reading and a fresh id are arguments. Python's floats are a
-- type with the interface `Floats`, whose order laws are a hypothesis where a theorem needs them, and
-- decimals have the interface `Decimals`; the examples use fixed-point numbers. A dictionary is an
-- association list. The venue is a list of replies, and every request is logged; a database
-- connection of the positions fails where a list of faults says so.
--
-- Fuel. The loop of `_request` recurses on its attempts. The two loops of the calendar take fuel; their
-- theorems ask for as much as there are days until the day they look for.
--
-- Not modelled: waiting, throttling, logs, metrics, alerts and the audit log; columns that no modelled
-- call reads; the decoding of positions and accounts of the live broker; threads. Stops, the
-- live execution of bist_bot/execution/live.py, strategies, data providers, backtests, machine learning, the dashboard and the scheduler are not modelled.
pub mod Common
pub mod Risk
pub mod Execution
pub mod Market
pub mod Agent
pub mod Trade
pub mod Services
