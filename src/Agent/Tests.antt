-- ===== src/Agent/Tests.antt =====
-- The positions of agent/position_manager.py and their accounting at concrete inputs.
use bist_bot.Common.{false, ◌≡◌, refl, true, none, some, [], ◌∷◌, any, length}
use bist_bot.Common.Floats.{Fixed, fixed_floats, fixed_decimals, Fixed-IsOrdered, unit_of}
use bist_bot.Execution.Order.{OrderType, OrderSide, OrderState}
use bist_bot.Execution.Intents.{
  Intent, IntentStatus, SnapshotText, get, update_conditional, is_broker_order_bound,
}
use bist_bot.Execution.Algolab.{
  Item, OrdersField, Payload, Body, Reply, AlgoLabBroker, Terms, StateText,
}
use bist_bot.Execution.Algolab.Http.{
  send, judge, request_loop, attempts, json, object_of, authenticate, authorised, request,
  json_request, history, get_daily_orders, parse_orders, parse_items, parse_order,
}
use bist_bot.Execution.Algolab.Match.{
  matches_of, is_eligible, is_alike, validate_history_fill, usable_average,
}
use bist_bot.Execution.Algolab.Reconcile.{
  reconcile_order, settle_matches, settle_match, settle_matched_fill, account,
}
use bist_bot.Agent.Positions.{LivePosition, Positions, PositionState, find}
use bist_bot.Agent.Exits.{
  ExitSettings, Market, check_positions, check_exit_conditions, check_exit_conditions-stop, is_for,
}
use bist_bot.Agent.Positions.Listed.{Listed}
use bist_bot.Agent.Accounting.{accounting_service, Ledgers, record_fill}
use bist_bot.Agent.Sold.{replayed, record_fill-sells_once}
use bist_bot.Agent.Replay.{is_ack, record_fill-buys_once}

abbrev nothing_open : Positions Fixed
nothing_open = record { rows = []; next_id = 1; faults = [] }

abbrev ledgers : Ledgers Fixed
ledgers = record {
  orders = [];
  order_faults = [];
  positions = nothing_open;
  has_position_manager = true;
}

abbrev purchase : Intent Fixed
purchase = record {
  id = 1;
  client_id = 100;
  active_key = some 7;
  ticker = 7;
  side = OrderSide.buy;
  quantity = unit_of 5;
  order_type = OrderType.market;
  price = none;
  stop_price = none;
  order_db_id = some 31;
  signal_snapshot = SnapshotText.levels (some (unit_of 90)) (some (unit_of 120));
  status = IntentStatus.unknown;
  broker_order_id = none;
  created_at = 40;
  updated_at = 41;
}

acknowledged :
    is_ack
      (record_fill 50 purchase
        (some 9)
        (unit_of 5)
        (some (unit_of 100))
        OrderState.filled
        ledgers).0
    ≡ true
unfolding record_fill
acknowledged = refl

one_position :
    length
      (record_fill 50 purchase
        (some 9)
        (unit_of 5)
        (some (unit_of 100))
        OrderState.filled
        ledgers).1.positions.rows
    ≡ 1
unfolding record_fill
one_position = refl

record_fill-buys_once_example :
    let first =
      (record_fill 50 purchase
        (some 9)
        (unit_of 5)
        (some (unit_of 100))
        OrderState.filled
        ledgers).1 in
    (record_fill 60 purchase
      (some 9)
      (unit_of 5)
      (some (unit_of 100))
      OrderState.filled
      first).1.positions.rows
    ≡ first.positions.rows
unfolding find
record_fill-buys_once_example =
    record_fill-buys_once 50 60 purchase 31 (some 9) (some 9) (unit_of 5) (unit_of 5)
      (some (unit_of 100)) (some (unit_of 100)) OrderState.filled OrderState.filled ledgers refl
      refl refl refl acknowledged

abbrev held : LivePosition Fixed
held = record {
  id = 3;
  ticker = 7;
  entry_order_id = 31;
  entry_price = unit_of 100;
  quantity = unit_of 5;
  entry_time = 86_400;
  stop_loss = unit_of 90;
  target_price = unit_of 120;
  state = PositionState.position_open;
  exit_price = none;
  exit_time = none;
  exit_reason = none;
  exit_order_id = none;
  realized_pnl = none;
  realized_pnl_pct = none;
  fees_paid = unit_of 0;
  updated_at = 86_400;
}

abbrev other : LivePosition Fixed
other = record held { id = 2; ticker = 8 }

abbrev rules : ExitSettings Fixed
rules = record {
  trailing_stop_enabled = true;
  trailing_atr_mult = unit_of 3;
  max_holding_days = 28;
}

abbrev seen : Market Fixed
seen = record {
  prices = (7, unit_of 89) ∷ (8, unit_of 95) ∷ [];
  atr_map = (8, unit_of 2) ∷ [];
  closes_map = (8, (1, unit_of 110) ∷ []) ∷ [];
}

abbrev table : Positions Fixed
table = record { rows = other ∷ held ∷ []; next_id = 4; faults = [] }

-- The trailing stop of the other position, 110 - 3 * 2, is above its price.
two_triggers : length (check_positions rules seen 100_000 (other ∷ held ∷ []) table).0 ≡ 2
unfolding check_positions
two_triggers = refl

check_exit_conditions-stop_example :
    any (is_for 3) (check_exit_conditions rules seen 100_000 table).0 ≡ true
check_exit_conditions-stop_example =
    check_exit_conditions-stop Fixed-IsOrdered rules seen 100_000 table held (unit_of 89) refl
      (Listed.later other (Listed.first [])) refl refl refl

abbrev alone : Positions Fixed
alone = record { rows = other ∷ held ∷ []; next_id = 4; faults = [] }

abbrev sale : Intent Fixed
sale = record purchase {
  side = OrderSide.sell;
  order_db_id = some 44;
  signal_snapshot = SnapshotText.absent;
}

abbrev before_sale : Ledgers Fixed
before_sale = record ledgers { positions = alone }

record_fill-sells_once_example :
    let first =
      (record_fill 90_000 sale
        (some 9)
        (unit_of 5)
        (some (unit_of 110))
        OrderState.filled
        before_sale).1 in
    let again =
      record_fill 91_000 sale (some 9) (unit_of 5) (some (unit_of 110)) OrderState.filled first in
    (again.0 ≡ replayed (unit_of 5) (some (unit_of 110)))
    × (again.1.positions.rows ≡ first.positions.rows)
record_fill-sells_once_example =
    record_fill-sells_once 90_000 91_000 sale 44 (some 9) (some 9) (unit_of 5) (unit_of 5)
      (unit_of 110) (some (unit_of 110)) OrderState.filled OrderState.filled before_sale held refl
      refl refl refl refl refl refl refl refl refl refl

-- The live broker finds the purchase filled in the venue's history, and its position is opened.
abbrev filled_item : Item Fixed
filled_item = record {
  state = some StateText.executed;
  ticker = 7;
  side = OrderSide.buy;
  quantity = unit_of 5;
  order_type = OrderType.market;
  price = unit_of 0;
  stop_price = unit_of 0;
  order_id = some 9;
  client_order_id = some 100;
  filled_quantity = unit_of 5;
  average_fill_price = unit_of 100;
  created_at = some 1_000;
  malformed = false;
}

abbrev page : Payload Fixed
page = record {
  accepted = none;
  order_id = none;
  client_order_id = none;
  state = none;
  cancelled = none;
  session_token = none;
  encrypted_session = none;
  orders = OrdersField.items (filled_item ∷ []);
}

abbrev live : AlgoLabBroker Fixed (Ledgers Fixed)
live = record {
  is_configured = λ e. true;
  dry_run = false;
  max_retries = 1;
  order_intents = some (record { rows = purchase ∷ []; next_id = 2 });
  send_client_id = true;
  reconcile_window_seconds = 60;
  accounting_service = some (accounting_service 1_100);
  ledger = ledgers;
  status_map = λ t. none;
  cancel_remainder = true;
  session_token = some 1;
  session_encrypted = none;
  replies = Reply.answered (record { status_code = 200; body = Body.object page }) ∷ [];
  requests = [];
}

abbrev terms : Terms Fixed
terms = record {
  ticker = 7;
  side = OrderSide.buy;
  quantity = unit_of 5;
  order_type = OrderType.market;
  price = none;
  stop_price = none;
}

reconciled : length (reconcile_order 1_100 100 terms 1_000 live).1.ledger.positions.rows ≡ 1
unfolding reconcile_order history get_daily_orders json_request request request_loop attempts
    authorised authenticate send judge json object_of parse_orders parse_items parse_order
    matches_of is_eligible is_alike is_broker_order_bound settle_matches settle_match
    validate_history_fill usable_average settle_matched_fill account accounting_service get
    update_conditional
reconciled = refl
