-- ===== src/Execution/Algolab/Tests.antt =====
-- The broker of execution/algolab_broker.py at concrete inputs.
use bist_bot.Common.{ℕ, ◌≡◌, refl, ◌⊎◌, true, false, none, some, [], ◌∷◌, suc, ◌+◌, ◌≤◌}
use bist_bot.Common.Floats.{Fixed, fixed_floats, unit_of}
use bist_bot.Execution.Raises.{Error, err}
use bist_bot.Execution.Order.{OrderType, OrderSide}
use bist_bot.Execution.Intents.{
  Intents, SnapshotText, create, update, get_unresolved, is_broker_order_bound,
}
use bist_bot.Execution.Algolab.{
  Item, OrdersField, Payload, Body, Reply, Endpoint, AlgoLabBroker, Terms, StateText,
}
use bist_bot.Execution.Algolab.Reconcile.{
  set_intent, unknown_history, reconcile_order, settle_matches, settle_match, settle_empty,
  confirm_dropped, keep_reconcile_unknown,
}
use bist_bot.Execution.Algolab.Place.{claim, send_order, submit, reconcile_unknown, place_order}
use bist_bot.Execution.Algolab.Http.{
  send, judge, request_loop, attempts, json, object_of, authenticate, authorised, request,
  json_request, history, get_daily_orders, parse_orders, parse_items, parse_order, RetryMode,
  login_and_verify, open_request,
}
use bist_bot.Execution.Algolab.Match.{
  matches_of, is_eligible, is_alike, validate_history_fill, usable_average, same_optional_number,
}
use bist_bot.Execution.Algolab.Requests.{posted, is_unauthorised, json_request-posts}
use bist_bot.Execution.Algolab.Keeps.{is_refused, locks}
use bist_bot.Execution.Algolab.Safety.{reconcile_order-locks}
use bist_bot.Execution.Algolab.Single.{is_settled, no_second_order}

abbrev lots : Terms Fixed
lots = record {
  ticker = 7;
  side = OrderSide.buy;
  quantity = unit_of 10;
  order_type = OrderType.market;
  price = none;
  stop_price = none;
}

abbrev silent : Payload Fixed
silent = record {
  accepted = none;
  order_id = none;
  client_order_id = none;
  state = none;
  cancelled = none;
  session_token = none;
  encrypted_session = none;
  orders = OrdersField.missing;
}

abbrev no_rows : Intents Fixed
no_rows = record { rows = []; next_id = 1 }

abbrev live : AlgoLabBroker Fixed ℕ
live = record {
  is_configured = λ e. true;
  dry_run = false;
  max_retries = 1;
  order_intents = some no_rows;
  send_client_id = false;
  reconcile_window_seconds = 60;
  accounting_service = none;
  ledger = 0;
  status_map = λ t. none;
  cancel_remainder = true;
  session_token = some 1;
  session_encrypted = none;
  replies = [];
  requests = [];
}

-- A submission that the network loses, with a history that cannot be read.
abbrev after_loss : AlgoLabBroker Fixed ℕ
after_loss = (place_order 1_000 100 lots none SnapshotText.absent live).1

requests_sent : after_loss.requests ≡ Endpoint.orders ∷ Endpoint.order_history ∷ []
unfolding place_order claim create get_unresolved send_order set_intent update submit json_request
    request request_loop attempts authorised authenticate send judge reconcile_unknown
    reconcile_order history get_daily_orders unknown_history
requests_sent = refl

-- The venue's history has the order cancelled without a fill.
abbrev cancelled_item : Item Fixed
cancelled_item = record {
  state = some StateText.canceled;
  ticker = 7;
  side = OrderSide.buy;
  quantity = unit_of 10;
  order_type = OrderType.market;
  price = unit_of 0;
  stop_price = unit_of 0;
  order_id = some 55;
  client_order_id = some 100;
  filled_quantity = unit_of 0;
  average_fill_price = unit_of 0;
  created_at = some 1_000;
  malformed = false;
}

abbrev readable : AlgoLabBroker Fixed ℕ
readable = record after_loss {
  send_client_id = true;
  replies =
      Reply.answered (record {
        status_code = 200;
        body = Body.object (record silent { orders = OrdersField.items (cancelled_item ∷ []) });
      })
      ∷ [];
}

refused : is_refused (reconcile_order 1_100 100 lots 1_000 readable).0 ≡ true
unfolding place_order claim create get_unresolved send_order set_intent update submit json_request
    request request_loop attempts authorised authenticate send judge reconcile_unknown
    reconcile_order history get_daily_orders unknown_history keep_reconcile_unknown
    is_broker_order_bound json object_of parse_orders parse_items parse_order matches_of is_eligible
    settle_matches settle_match settle_empty confirm_dropped validate_history_fill is_alike
    usable_average same_optional_number
refused = refl

reconcile_order-locks_example :
    let after = reconcile_order 1_100 100 lots 1_000 readable in
    (locks 7 after.1 ≡ locks 7 readable) ⊎ (is_refused after.0 ≡ true)
reconcile_order-locks_example = reconcile_order-locks 7 1_100 100 lots 1_000 readable

still_locked : locks 7 after_loss ≡ true
unfolding place_order claim create get_unresolved send_order set_intent update submit json_request
    request request_loop attempts authorised authenticate send judge reconcile_unknown
    reconcile_order history get_daily_orders unknown_history
still_locked = refl

outcome_open : is_settled (place_order 1_000 100 lots none SnapshotText.absent live).0 ≡ false
unfolding place_order claim create get_unresolved send_order set_intent update submit json_request
    request request_loop attempts authorised authenticate send judge reconcile_unknown
    reconcile_order history get_daily_orders unknown_history
outcome_open = refl

no_second_order_example :
    place_order 1_200 101 lots none SnapshotText.absent after_loss
    ≡ (err Error.runtime_error, after_loss)
no_second_order_example =
    no_second_order 1_000 100 lots none SnapshotText.absent live no_rows 1_200 101 lots none
      SnapshotText.absent refl refl refl refl outcome_open

-- The venue refuses the token once, lets the broker log in again, and takes the order.
abbrev answer : ℕ → Payload Fixed → Reply Fixed
answer code p = Reply.answered (record { status_code = code; body = Body.object p })

abbrev expired : AlgoLabBroker Fixed ℕ
expired = record live {
  replies =
      answer 401 silent
      ∷ answer 200 silent
      ∷ answer 200 (record silent { session_token = some 2 })
      ∷ answer 200 silent
      ∷ [];
}

posted_twice : posted (json_request Endpoint.orders RetryMode.place expired).1 ≡ 2
unfolding json_request request request_loop attempts authorised authenticate login_and_verify
    open_request send judge json object_of
posted_twice = refl

json_request-posts_example :
    let first = authorised Endpoint.orders expired in
    let after = json_request Endpoint.orders RetryMode.place expired in
    (posted after.1 ≤ suc (posted expired))
    ⊎ ((posted after.1 ≤ posted expired + 2) × (is_unauthorised first.0 ≡ true))
json_request-posts_example = json_request-posts expired
