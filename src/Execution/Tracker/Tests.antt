-- ===== src/Execution/Tracker/Tests.antt =====
-- The loop of execution/order_tracker.py at concrete inputs; the broker fills every order, and is
-- the number of questions that it was asked.
use bist_bot.Common.{false, any, ℕ, zero, suc, ◌+◌, ◌≡◌, refl, true, none, some, [], ◌∷◌, map}
use bist_bot.Execution.Raises.{Error, ok, err, Action}
use bist_bot.Execution.Order.{OrderState, OrderStatus}
use bist_bot.Execution.Tracker.{OrderRecord, OrderTracker, pending_rows, poll_once, run_loop}
use bist_bot.Execution.Tracker.Kept.{get_order, run_loop-keeps}
use bist_bot.Execution.Tracker.Reported.{asks_pending, HasAnswer, poll_once-reports}

abbrev row : ℕ → OrderState → ℕ → OrderRecord ℕ
row id state created_at = record {
  id = id;
  state = state;
  broker_order_id = some (id + 100);
  filled_qty = 0;
  avg_fill_price = none;
  created_at = created_at;
}

-- The first question fails.
abbrev venue : ℕ → Action ℕ (OrderStatus ℕ)
venue order_id zero = (err Error.request_exception, 1)
venue order_id (suc n) = (
  ok (record {
    order_id = order_id;
    state = OrderState.filled;
    filled_quantity = 5;
    average_fill_price = some 12;
    broker_order_id = none;
  }),
  n + 2,
)

abbrev tracker : OrderTracker ℕ ℕ
tracker = record {
  broker = 0;
  rows =
      row 1 OrderState.sent 40 ∷ row 2 OrderState.cancelled 10 ∷ row 3 OrderState.partial 20 ∷ [];
  faults = [];
}

oldest_first : map (λ r. r.id) (pending_rows tracker.rows) ≡ 3 ∷ 1 ∷ []
unfolding pending_rows
oldest_first = refl

first_poll_raises : (poll_once venue tracker).0 ≡ true
unfolding poll_once
first_poll_raises = refl

second_poll_fills :
    map (λ r. r.state) (run_loop venue 2 tracker).rows
    ≡ OrderState.filled ∷ OrderState.cancelled ∷ OrderState.filled ∷ []
unfolding run_loop
second_poll_fills = refl

run_loop-keeps_example :
    get_order 2 (run_loop venue 2 tracker).rows ≡ some (row 2 OrderState.cancelled 10)
run_loop-keeps_example = run_loop-keeps venue 2 2 tracker refl

-- The tracker once the broker answers.
abbrev ready : OrderTracker ℕ ℕ
ready = record tracker { broker = 1 }

ready_is_calm : (poll_once venue ready).0 ≡ false
unfolding poll_once
ready_is_calm = refl

poll_once-reports_example :
    (b2 : ℕ) × (s : ℕ) × (status : OrderStatus ℕ) × (any (asks_pending 1 b2) ready.rows ≡ true)
    × ((venue b2 s).0 ≡ ok status)
    × HasAnswer 1 status (poll_once venue ready).1.rows
poll_once-reports_example = poll_once-reports venue 1 101 ready refl ready_is_calm
