-- ===== src/Execution/Paper.antt =====
-- src/bist_bot/execution/paper_broker.py: the class PaperBroker, method by method. The id that
-- `uuid4` draws for an order and the clock reading are arguments.
pub mod Lifecycle
pub mod Accounts
pub mod Product
pub mod Routed
pub mod Agreed
mod Tests
use bist_bot.Common.{
  ℕ, Bool, true, false, Option, none, some, List, [], ◌∷◌, if◌then◌else◌, or_else, is_some, Dict,
  lookup, insert, erase, values, keep, ◌||◌, ◌&&◌, not,
}
use bist_bot.Common.Floats.{Floats, Decimals, nought, fmin}
use bist_bot.Risk.Money.{
  TradingCosts, is_zero_qty, quantize_money, quantize_price, calc_notional, buy_cost, sell_cost,
}
use bist_bot.Execution.Order.{
  OrderType, OrderSide, OrderState, is_market, is_created, is_working, is_terminal, Position, Order,
  OrderStatus, OrderResult, AccountInfo, remaining_quantity,
}

pub record PaperBroker (F : Type 0) : Type 0 where
  pub cash : F
  pub manual_confirm : Bool
  pub costs : TradingCosts F
  pub cumulative_fees : F
  pub positions : Dict (Position F)
  pub orders : Dict (Order F)

module _ {F : Type 0} ⦃fl : Floats F⦄ ⦃dc : Decimals F⦄ where
  open fl use {add, sub, le, eq}
  open dc use {of_float, to_float, dadd, dmul, ddiv, quantize}

  pub create : F → Bool → TradingCosts F → PaperBroker F
  create initial_cash manual_confirm costs = record {
    cash = quantize_money initial_cash;
    manual_confirm = manual_confirm;
    costs = costs;
    cumulative_fees = nought;
    positions = [];
    orders = [];
  }

  pub get_positions : PaperBroker F → List (Position F)
  get_positions b = values b.positions

  -- Python's `sum` adds from the left.
  sum_from : F → List (Position F) → F
  sum_from acc [] = acc
  sum_from acc (p ∷ ps) = sum_from (add acc (calc_notional p.quantity p.average_price)) ps

  pub get_account_info : PaperBroker F → AccountInfo F
  unfolding sum_from
  get_account_info b =
      let market_value = quantize_money (sum_from nought (values b.positions)) in
      record {
        cash_balance = b.cash;
        buying_power = b.cash;
        equity = quantize_money (add b.cash market_value);
      }

  -- `(average * quantity + amount) / total` in decimals, as a price.
  weighted : F → F → Decimals.Decimal dc → F → F
  weighted average quantity amount total = to_float (
      quantize (ddiv (dadd (dmul (of_float average) (of_float quantity)) amount) (of_float total))
        4)

  -- The positions after a purchase at this notional.
  bought : ℕ → ℕ → F → F → F → Dict (Position F) → Dict (Position F)
  unfolding weighted
  bought now ticker quantity fill_price notional positions = elim (lookup ticker positions) [
    | none ↦
        insert ticker
          (record {
            ticker = ticker;
            quantity = quantity;
            average_price = quantize_price fill_price;
            market_value = notional;
            unrealized_pnl = nought;
            updated_at = now;
          })
          positions
    | some p ↦
        let combined_qty = add p.quantity quantity in
        let average = weighted p.average_price p.quantity (of_float notional) combined_qty in
        if le combined_qty nought || is_zero_qty combined_qty
        then erase ticker positions
        else insert ticker
            (record p {
              average_price = average;
              quantity = combined_qty;
              market_value = calc_notional combined_qty average;
              updated_at = now;
            })
            positions
  ]

  -- The positions after a sale.
  sold : ℕ → ℕ → F → Dict (Position F) → Dict (Position F)
  sold now ticker quantity positions = elim (lookup ticker positions) [
    | none ↦ positions
    | some p ↦
        let left = sub p.quantity quantity in
        if le left nought || is_zero_qty left
        then erase ticker positions
        else insert ticker
            (record p {
              quantity = left;
              market_value = calc_notional left p.average_price;
              updated_at = now;
            })
            positions
  ]

  -- `_apply_fill`
  pub apply_fill : ℕ → Order F → F → F → PaperBroker F → PaperBroker F
  unfolding bought sold
  apply_fill now order quantity fill_price b =
      let notional = calc_notional quantity fill_price in
      elim order.side [
        | OrderSide.buy ↦
            let fee = buy_cost b.costs notional in
            record b {
              cash = quantize_money (sub (sub b.cash notional) fee);
              cumulative_fees = quantize_money (add b.cumulative_fees fee);
              positions = bought now order.ticker quantity fill_price notional b.positions;
            }
        | OrderSide.sell ↦
            let fee = sell_cost b.costs notional in
            record b {
              cash = quantize_money (sub (add b.cash notional) fee);
              cumulative_fees = quantize_money (add b.cumulative_fees fee);
              positions = sold now order.ticker quantity b.positions;
            }
      ]

  -- The average price after a fill: the first fill's price, then the weighted mean.
  fill_average : Order F → F → F → Option F
  unfolding weighted
  fill_average o fill_qty fill_price =
      if le o.filled_quantity nought
      then some (quantize_price fill_price)
      else elim o.average_fill_price [
        | none ↦ none
        | some average ↦ some (
            weighted average o.filled_quantity (dmul (of_float fill_price) (of_float fill_qty))
              (add o.filled_quantity fill_qty))
      ]

  -- The order after a fill of this quantity.
  filled_by : ℕ → Order F → F → F → Order F
  unfolding fill_average
  filled_by now o fill_qty fill_price =
      let o1 = record o {
        average_fill_price = fill_average o fill_qty fill_price;
        filled_quantity = add o.filled_quantity fill_qty;
      } in
      record o1 {
        state = if eq (remaining_quantity o1) nought then OrderState.filled else OrderState.partial;
        updated_at = now;
      }

  -- `_fill_order`; the Boolean is its result.
  pub fill : ℕ → ℕ → F → F → PaperBroker F → PaperBroker F × Bool
  unfolding filled_by
  fill now order_id quantity fill_price b = elim (lookup order_id b.orders) [
    | none ↦ (b, false)
    | some o ↦
        let fill_qty = fmin quantity (remaining_quantity o) in
        let o1 = filled_by now o fill_qty fill_price in
        if is_terminal o.state || le fill_qty nought then (b, false) else (
          apply_fill now o1 fill_qty fill_price (record b { orders = insert order_id o1 b.orders }),
          true,
        )
  ]

  -- The new order that `place_order` stores.
  pub new_order : ℕ → ℕ → ℕ → OrderSide → F → OrderType → Option F → Option F → Bool → Order F
  new_order now order_id ticker side quantity order_type price stop_price manual = record {
    ticker = ticker;
    side = side;
    quantity = quantity;
    order_type = order_type;
    price = price;
    stop_price = stop_price;
    order_id = order_id;
    broker_order_id = none;
    state = if manual then OrderState.created else OrderState.sent;
    filled_quantity = nought;
    average_fill_price = none;
    created_at = now;
    updated_at = now;
    reason = none;
    client_order_id = none;
    state_known = true;
  }

  -- The state that the order has in the end; it is always there.
  pub state_of : ℕ → PaperBroker F → OrderState
  state_of order_id b = elim (lookup order_id b.orders) [
    | none ↦ OrderState.created
    | some o ↦ o.state
  ]

  -- A market order is filled at once, unless orders wait for a confirmation.
  pub route : Bool → Bool → ℕ → ℕ → F → Option F → PaperBroker F → PaperBroker F
  route manual market now order_id quantity price b =
      if not manual && market then (fill now order_id quantity (or_else price nought) b).0 else b

  pub place_order :
      ℕ
      → ℕ
      → ℕ
      → OrderSide
      → F
      → OrderType
      → Option F
      → Option F
      → PaperBroker F
      → PaperBroker F × OrderResult
  unfolding new_order state_of route
  place_order now order_id ticker side quantity order_type price stop_price b =
      let o =
        new_order now order_id ticker side quantity order_type price stop_price b.manual_confirm in
      let b1 = record b { orders = insert order_id o b.orders } in
      let b2 = route b.manual_confirm (is_market order_type) now order_id quantity price b1 in
      (
        b2,
        record {
          accepted = true;
          order_id = order_id;
          state = state_of order_id b2;
          broker_order_id = some order_id;
        },
      )

  -- `price or 0.0`: a price of 0.0 is falsy, and stands for itself.
  pub confirm_order : ℕ → ℕ → Option F → PaperBroker F → PaperBroker F × Bool
  confirm_order now order_id fill_price b = elim (lookup order_id b.orders) [
    | none ↦ (b, false)
    | some o ↦
        let o1 = record o { state = OrderState.sent; updated_at = now } in
        let b1 = record b { orders = insert order_id o1 b.orders } in
        let at = or_else fill_price (or_else o.price nought) in
        let done = fill now order_id (remaining_quantity o1) at b1 in
        if not (is_created o.state)
        then (b, false)
        else (if is_market o.order_type || is_some fill_price then done else (b1, true))
  ]

  pub cancel_order : ℕ → ℕ → PaperBroker F → PaperBroker F × Bool
  cancel_order now order_id b = elim (lookup order_id b.orders) [
    | none ↦ (b, false)
    | some o ↦ if is_terminal o.state then (b, false) else (
      record b {
        orders =
            insert order_id (record o { state = OrderState.cancelled; updated_at = now }) b.orders;
      },
      true,
    )
  ]

  pub reject_order : ℕ → ℕ → ℕ → PaperBroker F → PaperBroker F × Bool
  reject_order now order_id reason b = elim (lookup order_id b.orders) [
    | none ↦ (b, false)
    | some o ↦ if is_terminal o.state then (b, false) else (
      record b {
        orders =
            insert order_id
              (record o { state = OrderState.rejected; reason = some reason; updated_at = now })
              b.orders;
      },
      true,
    )
  ]

  pub partial_fill : ℕ → ℕ → F → F → PaperBroker F → PaperBroker F × Bool
  partial_fill now order_id quantity fill_price b = fill now order_id quantity fill_price b

  pub fill_order : ℕ → ℕ → F → PaperBroker F → PaperBroker F × Bool
  fill_order now order_id fill_price b = elim (lookup order_id b.orders) [
    | none ↦ (b, false)
    | some o ↦ fill now order_id (remaining_quantity o) fill_price b
  ]

  -- `none` is the KeyError.
  pub get_order_status : ℕ → PaperBroker F → Option (OrderStatus F)
  get_order_status order_id b = elim (lookup order_id b.orders) [
    | none ↦ none
    | some o ↦ some (record {
      order_id = o.order_id;
      state = o.state;
      filled_quantity = o.filled_quantity;
      average_fill_price = o.average_fill_price;
      broker_order_id = some (or_else o.broker_order_id o.order_id);
    })
  ]

  pub get_open_orders : PaperBroker F → List (Order F)
  get_open_orders b = keep (λ o. is_working o.state) (values b.orders)

-- The calls that change the broker, with the ids and clock readings that they take.
pub data Call (F : Type 0) : Type 0 where
  place : ℕ → ℕ → ℕ → OrderSide → F → OrderType → Option F → Option F → Call F
  confirm : ℕ → ℕ → Option F → Call F
  cancel : ℕ → ℕ → Call F
  reject : ℕ → ℕ → ℕ → Call F
  fill_part : ℕ → ℕ → F → F → Call F
  fill_rest : ℕ → ℕ → F → Call F

module _ {F : Type 0} ⦃fl : Floats F⦄ ⦃dc : Decimals F⦄ where
  pub perform : Call F → PaperBroker F → PaperBroker F
  perform (Call.place now id ticker side quantity type price stop_price) b =
      (place_order now id ticker side quantity type price stop_price b).0
  perform (Call.confirm now id fill_price) b = (confirm_order now id fill_price b).0
  perform (Call.cancel now id) b = (cancel_order now id b).0
  perform (Call.reject now id reason) b = (reject_order now id reason b).0
  perform (Call.fill_part now id quantity fill_price) b =
      (partial_fill now id quantity fill_price b).0
  perform (Call.fill_rest now id fill_price) b = (fill_order now id fill_price b).0

  pub perform_all : List (Call F) → PaperBroker F → PaperBroker F
  perform_all [] b = b
  perform_all (c ∷ cs) b = perform_all cs (perform c b)
