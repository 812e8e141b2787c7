-- ===== src/Execution/Paper/Tests.antt =====
-- Runs of PaperBroker (execution/paper_broker.py) at concrete inputs.
use bist_bot.Common.{◌≡◌, refl, true, false, none, some, List, [], ◌∷◌, lookup}
use bist_bot.Common.Int.{pos}
use bist_bot.Common.Floats.{Fixed, fixed_floats, fixed_decimals, unit_of}
use bist_bot.Risk.Money.{
  TradingCosts, is_zero_qty, quantize_money, quantize_price, calc_notional, buy_cost, sell_cost,
}
use bist_bot.Execution.Order.{OrderType, OrderSide, Order, remainder}
use bist_bot.Execution.Paper.{
  PaperBroker, Call, perform, perform_all, create, place_order, new_order, fill, apply_fill,
  partial_fill, fill_order, cancel_order,
}
use bist_bot.Execution.Paper.Lifecycle.{Follows, run-Follows}
use bist_bot.Execution.Paper.Accounts.{IsValid, run-IsValid}
use bist_bot.Execution.Executor.{SignalType, Signal, OrderExecutor, execute_signals}
use bist_bot.Execution.Paper.Routed.{Simulated, paper_broker}
use bist_bot.Execution.Paper.Agreed.{IsOk, IsAgreed, execute_signals-IsAgreed}

abbrev costs : TradingCosts Fixed
costs = record { commission_pct = pos 2; stamp_tax_pct = pos 9; bsmv_pct = pos 5 }

abbrev empty : PaperBroker Fixed
empty = record {
  cash = unit_of 10_000;
  manual_confirm = false;
  costs = costs;
  cumulative_fees = pos 0;
  positions = [];
  orders = [];
}

abbrev calls : List (Call Fixed)
calls =
    Call.place 1 11 7 OrderSide.buy (unit_of 10) OrderType.market (some (unit_of 100)) none
    ∷ Call.place 2 12 7 OrderSide.sell (unit_of 4) OrderType.limit (some (unit_of 110)) none
    ∷ Call.fill_part 3 12 (unit_of 1) (unit_of 110)
    ∷ Call.cancel 4 12
    ∷ Call.fill_rest 5 12 (unit_of 110)
    ∷ []

-- Ten shares at 100 cost 1000 and a commission of 0.20; one of them is sold at 110.
cash_after : (perform_all calls empty).cash ≡ pos 91_096_200
unfolding perform_all perform place_order fill_order cancel_order partial_fill fill apply_fill
    quantize_money calc_notional buy_cost sell_cost quantize_price is_zero_qty remainder
cash_after = refl

abbrev resting : Order Fixed
resting = new_order 1 30 7 OrderSide.sell (unit_of 4) OrderType.limit none none false

abbrev busy : PaperBroker Fixed
busy = record empty { orders = (30, resting) ∷ [] }

run-Follows_example : Follows {F = Fixed} resting (lookup 30 (perform_all calls busy).orders)
unfolding perform place_order fill_order cancel_order partial_fill fill apply_fill remainder
run-Follows_example =
    run-Follows {F = Fixed} calls busy 30 resting (refl, (refl, (tt, (tt, (tt, tt))))) refl

run-IsValid_example : IsValid {F = Fixed} (perform_all calls (create (unit_of 10_000) true costs))
run-IsValid_example = run-IsValid {F = Fixed} refl (unit_of 10_000) true costs calls

abbrev buying : Signal Fixed
buying = record {
  ticker = 7;
  signal_type = SignalType.strong_buy;
  position_size = some (unit_of 10);
  price = some (unit_of 100);
}

-- The fourth session, the update of the second row, fails.
abbrev executor : OrderExecutor Fixed (Simulated Fixed)
executor = record {
  broker = record { broker = empty; drawn = 0; clock = λ n. n };
  has_db = true;
  orders = [];
  next_id = 1;
  faults = false ∷ false ∷ false ∷ true ∷ [];
  require_auto_execute = false;
  auto_execute = false;
}

executor-IsAgreed : IsAgreed executor
executor-IsAgreed = record { rows = tt; ids = tt }

execute_signals-IsAgreed_example :
    let (r, after) = execute_signals paper_broker (buying ∷ buying ∷ []) false executor in
    IsOk r × IsAgreed after
execute_signals-IsAgreed_example =
    execute_signals-IsAgreed (buying ∷ buying ∷ []) false executor executor-IsAgreed
