-- ===== src/Agent/Control/Tests.antt =====
-- The agent of agent/trading_agent.py at concrete inputs. The broker counts the orders that it was
-- sent, and takes every one.
use bist_bot.Common.{
  ℕ, ◌+◌, ◌≤◌, ◌≡◌, refl, Bool, true, false, Option, none, some, List, [], ◌∷◌, any, arith,
}
use bist_bot.Common.Floats.{Fixed, fixed_floats, fixed_decimals, Fixed-IsOrdered, unit_of}
use bist_bot.Common.Int.{pos}
use bist_bot.Execution.Raises.{Result, ok}
use bist_bot.Execution.Order.{OrderType, OrderSide, OrderState, OrderResult}
use bist_bot.Execution.Executor.{SignalType}
use bist_bot.Risk.Breaker.{CircuitState, CircuitBreaker}
use bist_bot.Agent.Positions.{LivePosition, PositionState, ExitReason, get_open_positions}
use bist_bot.Agent.Positions.Counts.{open_count, day_count}
use bist_bot.Agent.Positions.Closed.{is_open_id}
use bist_bot.Agent.Exits.{Market}
use bist_bot.Agent.Desk.{Exchange, Purpose, DeskOrder, Desk, is_pending_exit, exit_position}
use bist_bot.Agent.Desk.Tracked.{order_at, exit_position-tracked}
use bist_bot.Agent.Service.{TypeValue, AgentSignal, ExecutionAttempt, execute_signal}
use bist_bot.Agent.Trading.{
  AgentOperationalState, AgentSettings, TradingAgent, check_entries, enter_within,
}
use bist_bot.Agent.Trading.Limits.{check_entries-limits}
use bist_bot.Agent.Trading.Deaf.{service, SameDesk, check_entries-deaf}
use bist_bot.Agent.Control.{
  check_exits, on_scan_completed, emergency_stop, monitor_cycle, pause, resume, timer_tests,
  timer_resumes, close_command,
}
use bist_bot.Agent.Control.Guards.{on_scan_completed-guard}
use bist_bot.Agent.Control.Timers.{Happening, happen_all, timer_tests-stale, resume-ends_monitor}
use bist_bot.Agent.Control.Closing.{TakesSales, check_exits-closes}

abbrev answer : OrderResult
answer = record {
  accepted = true;
  order_id = 70;
  state = OrderState.filled;
  broker_order_id = some 71;
}

-- How many purchases and how many sales.
abbrev Sent : Type 0
Sent = ℕ × ℕ

abbrev counted : OrderSide → Sent → Sent
counted OrderSide.buy b = (b.0 + 1, b.1)
counted OrderSide.sell b = (b.0, b.1 + 1)

abbrev venue : Exchange Fixed Sent
venue = record {
  authenticate = λ b. (ok true, b);
  place_order = λ ticker side quantity type price b. (ok answer, counted side b);
  place_linked = λ ticker side quantity type link b. (ok none, b);
  get_order_status = λ id b. (
    ok (record {
      order_id = 70;
      state = OrderState.filled;
      filled_quantity = unit_of 5;
      average_fill_price = some (unit_of 89);
      broker_order_id = some 71;
    }),
    b,
  );
}

venue-TakesSales : TakesSales venue
venue-TakesSales = record {
  login = λ b. refl;
  sale = λ ticker quantity type price b. (answer, refl, refl);
}

abbrev held : LivePosition Fixed
held = record {
  id = 3;
  ticker = 7;
  entry_order_id = 31;
  entry_price = unit_of 100;
  quantity = unit_of 5;
  entry_time = 86_400;
  stop_loss = unit_of 90;
  target_price = unit_of 120;
  state = PositionState.position_open;
  exit_price = none;
  exit_time = none;
  exit_reason = none;
  exit_order_id = none;
  realized_pnl = none;
  realized_pnl_pct = none;
  fees_paid = unit_of 0;
  updated_at = 86_400;
}

abbrev desk : Desk Fixed Sent
desk = record {
  broker = (0, 0);
  orders = [];
  next_order = 1;
  order_faults = [];
  positions = record { rows = held ∷ []; next_id = 4; faults = [] };
}

abbrev breaker : CircuitBreaker Fixed
breaker = record {
  capital = unit_of 10_000;
  config = record {
    daily_loss_limit_pct = unit_of 3;
    max_consecutive_errors = 3;
    cooldown_seconds = unit_of 300;
    half_open_max_probes = 1;
    max_account_drawdown_pct = pos 1500;
    var_confidence_level = pos 9500;
    var_lookback_bars = 60;
  };
  state = CircuitState.closed;
  daily_loss = pos 0;
  daily_loss_date = 7;
  consecutive_errors = 0;
  opened_at = pos 0;
  half_open_successes = 0;
  peak_equity = unit_of 10_000;
  daily_pnl_series = [];
}

abbrev agent : TradingAgent Fixed Sent
agent = record {
  state = AgentOperationalState.idle;
  breaker = breaker;
  desk = desk;
  monitor_running = true;
  monitor_alive = true;
  resume_generation = 0;
}

abbrev settings : AgentSettings Fixed
settings = record {
  agent_enabled = true;
  long_only = true;
  max_daily_trades = 4;
  max_open_positions = 2;
  min_score_threshold = unit_of 0;
  require_fill = true;
  emergency_close_on_halt = false;
  position_monitor_enabled = true;
  exit_order_type = some OrderType.market;
  exits = record {
    trailing_stop_enabled = false;
    trailing_atr_mult = unit_of 2;
    max_holding_days = 30;
  };
  costs = record { commission_pct = pos 2; stamp_tax_pct = pos 9; bsmv_pct = pos 5 };
}

abbrev market : Market Fixed
market = record { prices = (7, unit_of 89) ∷ []; atr_map = []; closes_map = [] }

abbrev signal : AgentSignal Fixed
signal = record {
  ticker = 8;
  signal_type = TypeValue.member SignalType.strong_buy;
  score = unit_of 50;
  position_size = some (unit_of 10);
  price = unit_of 20;
  stop_loss = some (unit_of 18);
  target_price = some (unit_of 25);
}

abbrev texts : List (AgentSignal Fixed)
texts =
    record signal { signal_type = TypeValue.strong_buy_text }
    ∷ record signal { ticker = 9; signal_type = TypeValue.strong_buy_text }
    ∷ []

-- An execution service that fills what it is given.
abbrev filler :
    AgentSignal Fixed
    → Bool
    → Desk Fixed Sent
    → Result (Option (ExecutionAttempt Fixed)) × Desk Fixed Sent
filler s require_fill d = (
  ok (
      some (record {
        accepted = true;
        order_db_id = some 5;
        broker_order_id = some 6;
        state = some OrderState.filled;
        fill_price = none;
      })),
  d,
)

-- The service itself would send the order.
service_sends : (service venue false signal true desk).1.broker ≡ (1, 0)
unfolding execute_signal
service_sends = refl

-- Of two signals, the one slot that is left takes the first.
one_entered : open_count (enter_within filler settings 90_000 texts desk).1.positions ≡ 2
unfolding enter_within
one_entered = refl

check_entries-limits_example :
    let p = (check_entries filler settings 90_000 (unit_of 0) texts agent).1.desk.positions in
    (open_count p ≤ 2) × (day_count 90_000 p ≤ 4)
check_entries-limits_example =
    check_entries-limits filler (λ s require_fill d. refl) settings 90_000 (unit_of 0) texts agent
      refl (omega arith) (omega arith)

check_entries-deaf_example :
    SameDesk desk
      (check_entries
        (service venue false)
        settings
        90_000
        (unit_of 0)
        (signal ∷ texts)
        agent).1.desk
check_entries-deaf_example =
    check_entries-deaf venue false settings 90_000 (unit_of 0) (signal ∷ texts) agent

sold_at_stop : (check_exits venue settings 90_000 (λ tickers. market) desk).broker ≡ (0, 1)
unfolding check_exits
sold_at_stop = refl

held_is_open : (get_open_positions desk.positions).0 ≡ held ∷ []
unfolding get_open_positions
held_is_open = refl

check_exits-closes_example :
    any (is_open_id 3) (check_exits venue settings 90_000 (λ tickers. market) desk).positions.rows
    ≡ false
check_exits-closes_example =
    check_exits-closes venue venue-TakesSales Fixed-IsOrdered settings 90_000 (λ tickers. market) []
      [] held (unit_of 89) desk refl held_is_open refl refl

abbrev paused_agent : TradingAgent Fixed Sent
paused_agent = record agent { state = AgentOperationalState.paused }

-- It buys nothing.
on_scan_completed-guard_example :
    (on_scan_completed venue filler settings 90_000
      (unit_of 0)
      (λ tickers. market)
      texts
      paused_agent).1.desk.broker.0
    ≡ 0
on_scan_completed-guard_example =
    on_scan_completed-guard venue (λ b. b.0 ≡ 0)
      (record { login = λ b h. h; sale = λ ticker quantity type price b h. h }) settings 90_000
      filler (unit_of 0) (λ tickers. market) texts paused_agent refl refl

abbrev between : List (Happening Fixed Sent)
between =
    Happening.scanned 90_000 (unit_of 0) (λ tickers. market) texts
    ∷ Happening.paused
    ∷ Happening.tested 7
    ∷ Happening.meanwhile (λ a. record a { state = AgentOperationalState.monitoring })
    ∷ Happening.fired
    ∷ []

timer_tests-stale_example :
    let later =
      happen_all venue filler settings between (record { agent = pause agent; due = 0 }) in
    timer_tests (pause agent).resume_generation later ≡ later
timer_tests-stale_example = timer_tests-stale venue filler settings between agent 0 refl

-- A stop between the test of the timer and its resume is undone.
stop_undone :
    let tested =
      timer_tests (pause agent).resume_generation (record { agent = pause agent; due = 0 }) in
    let stopped = record tested {
      agent = emergency_stop venue settings 90_000 (λ tickers. []) tested.agent;
    } in
    (timer_resumes settings stopped).agent.state ≡ AgentOperationalState.idle
unfolding timer_tests timer_resumes emergency_stop pause resume
stop_undone = refl

resume-ends_monitor_example :
    let resumed = resume settings (emergency_stop venue settings 90_000 (λ tickers. []) agent) in
    let after = monitor_cycle venue settings 90_060 (λ tickers. market) resumed in
    (after.monitor_alive ≡ false)
    × (after.state ≡ AgentOperationalState.idle)
    × (after.desk ≡ resumed.desk)
resume-ends_monitor_example =
    resume-ends_monitor venue filler settings 90_000 90_060 (λ tickers. []) (λ tickers. market)
      agent refl

exit_position-tracked_example :
    let after =
      exit_position venue
        (some OrderType.market)
        3
        7
        (unit_of 5)
        ExitReason.manual
        (unit_of 95)
        desk in
    (after.0 ≡ ok true)
    × (r : DeskOrder Fixed) × (order_at 1 after.1.orders ≡ some r)
    × (is_pending_exit r ≡ true)
    × (r.broker_order_id ≡ some 71)
    × (r.qty ≡ unit_of 5)
    × (r.purpose ≡ Purpose.exit 3 ExitReason.manual)
exit_position-tracked_example =
    exit_position-tracked venue (some OrderType.market) 3 7 (unit_of 5) ExitReason.manual
      (unit_of 95) desk answer 71 refl refl refl refl refl refl

-- A broker that takes nothing.
abbrev closed_venue : Exchange Fixed Sent
closed_venue = record venue { authenticate = λ b. (ok false, b) }

-- The command reports success, although nothing was sent.
close_reports_success : (close_command closed_venue settings 90_000 7 none desk).0 ≡ true
unfolding close_command
close_reports_success = refl
