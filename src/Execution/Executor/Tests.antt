-- ===== src/Execution/Executor/Tests.antt =====
-- The executor of execution/order_executor.py at concrete inputs; the broker is the number of orders
-- that it was sent.
use bist_bot.Common.{ℕ, ◌+◌, ◌≡◌, refl, ◌⊎◌, true, false, none, some, []}
use bist_bot.Common.Floats.{Fixed, fixed_floats, unit_of}
use bist_bot.Execution.Raises.{Error, ok, err}
use bist_bot.Execution.Order.{OrderType, OrderState}
use bist_bot.Execution.Executor.{
  Broker, SignalType, Signal, OrderExecutor, enabled, is_executable, resolve_quantity,
  execute_signal,
}
use bist_bot.Execution.Executor.Sending.{after_placing, execute_signal-sends}
use bist_bot.Execution.Executor.Recorded.{state_at, told, execute_signal-recorded}

-- It takes the order, and loses the answer.
abbrev lossy : Broker Fixed ℕ
lossy = record {
  authenticate = λ b. (ok true, b);
  place_order = λ ticker side q type price b. (err Error.runtime_error, b + 1);
}

abbrev steady : Broker Fixed ℕ
steady = record {
  authenticate = λ b. (ok true, b);
  place_order = λ ticker side q type price b. (
    ok (record {
      accepted = true;
      order_id = 90;
      state = OrderState.sent;
      broker_order_id = some 91;
    }),
    b + 1,
  );
}

abbrev signal : Signal Fixed
signal = record {
  ticker = 7;
  signal_type = SignalType.strong_buy;
  position_size = some (unit_of 10);
  price = none;
}

abbrev idle : OrderExecutor Fixed ℕ
idle = record {
  broker = 0;
  has_db = true;
  orders = [];
  next_id = 1;
  faults = [];
  require_auto_execute = true;
  auto_execute = false;
}

nothing_sent : (execute_signal steady signal none OrderType.market none false idle).1.broker ≡ 0
unfolding execute_signal
nothing_sent = refl

one_sent : (execute_signal steady signal none OrderType.market none true idle).1.broker ≡ 1
unfolding execute_signal
one_sent = refl

-- The row says that the order is rejected, although the venue has it.
lost_is_rejected :
    state_at 1 (execute_signal lossy signal none OrderType.market none true idle).1.orders
    ≡ some OrderState.rejected
unfolding execute_signal
lost_is_rejected = refl

execute_signal-sends_example :
    let after = (execute_signal steady signal none OrderType.market none true idle).1 in
    (after.broker ≡ 0)
    ⊎ (after.broker ≡ 0)
    ⊎ ((q : Fixed) × (resolve_quantity steady signal none ≡ some q)
        × (enabled true idle ≡ true)
        × (is_executable signal.signal_type ≡ true)
        × ((steady.authenticate 0).0 ≡ ok true)
        × (after.broker ≡ after_placing steady signal q OrderType.market none 0))
execute_signal-sends_example =
    execute_signal-sends steady signal none OrderType.market none true idle

execute_signal-recorded_example :
    let after = execute_signal steady signal none OrderType.market none true idle in
    (told after.0 ≡ none) ⊎ (state_at 1 after.1.orders ≡ told after.0)
execute_signal-recorded_example =
    execute_signal-recorded steady signal none OrderType.market none true idle refl refl
