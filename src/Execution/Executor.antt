-- ===== src/Execution/Executor.antt =====
-- src/bist_bot/execution/order_executor.py, over any broker and with the orders that it keeps by
-- src/bist_bot/db/repositories/orders_repository.py. Metrics, alerts, timing and logs are left out.
pub mod Sending
pub mod Recorded
mod Tests
use bist_bot.Common.{
  ℕ, ◌+◌, Bool, true, false, Option, none, some, List, [], ◌∷◌, ◌++◌, if◌then◌else◌, ◌==◌, not,
  ◌&&◌, ◌||◌, is_some, or_else,
}
use bist_bot.Common.Floats.{Floats, nought}
use bist_bot.Execution.Raises.{Error, Result, ok, err, Action}
use bist_bot.Execution.Order.{OrderType, OrderSide, OrderState, OrderResult}

-- What the executor calls of a broker; the clock and fresh ids are the broker's own.
pub record Broker (F B : Type 0) : Type 0 where
  pub authenticate : Action B Bool
  pub place_order : ℕ → OrderSide → F → OrderType → Option F → Action B OrderResult

pub data SignalType : Type 0 where
  strong_buy buy weak_buy hold radar weak_sell sell strong_sell : SignalType

abbrev pub is_executable : SignalType → Bool
is_executable SignalType.strong_buy = true
is_executable SignalType.buy = true
is_executable SignalType.strong_sell = true
is_executable SignalType.sell = true
is_executable _ = false

abbrev pub side_of : SignalType → OrderSide
side_of SignalType.strong_buy = OrderSide.buy
side_of SignalType.buy = OrderSide.buy
side_of _ = OrderSide.sell

-- The fields of a signal that the executor reads.
pub record Signal (F : Type 0) : Type 0 where
  pub ticker : ℕ
  pub signal_type : SignalType
  pub position_size : Option F
  pub price : Option F

-- A row of the orders.
pub record Entry (F : Type 0) : Type 0 where
  pub id : ℕ
  pub ticker : ℕ
  pub side : OrderSide
  pub qty : F
  pub order_type : OrderType
  pub price : Option F
  pub state : OrderState
  pub broker_order_id : Option ℕ

-- The executor with its broker and its orders; `has_db` says whether there is a database, and
-- `faults` which of its sessions fail.
pub record OrderExecutor (F B : Type 0) : Type 0 where
  pub broker : B
  pub has_db : Bool
  pub orders : List (Entry F)
  pub next_id : ℕ
  pub faults : List Bool
  pub require_auto_execute : Bool
  pub auto_execute : Bool

abbrev pub head_of : List Bool → Bool
head_of [] = false
head_of (b ∷ bs) = b

abbrev pub tail_of : List Bool → List Bool
tail_of [] = []
tail_of (b ∷ bs) = bs

unfoldable pub set_state :
    {F : Type 0} → ℕ → OrderState → Option ℕ → List (Entry F) → List (Entry F)
set_state id state broker_order_id [] = []
set_state id state broker_order_id (r ∷ rs) =
    if r.id == id
    then record r {
      state = state;
      broker_order_id = if is_some broker_order_id then broker_order_id else r.broker_order_id;
    }
      ∷ rs
    else r ∷ set_state id state broker_order_id rs

module _ {F B : Type 0} where
  -- `db.create_order`: the new row's id, or nothing where there is no database or it fails.
  unfoldable pub create_order :
      ℕ → OrderSide → F → OrderType → Option F → OrderExecutor F B → Option ℕ × OrderExecutor F B
  create_order ticker side qty order_type price x =
      if not x.has_db
      then (none, x)
      else (if head_of x.faults then (none, record x { faults = tail_of x.faults }) else (
        some x.next_id,
        record x {
          orders =
              x.orders
              ++ (record {
                id = x.next_id;
                ticker = ticker;
                side = side;
                qty = qty;
                order_type = order_type;
                price = price;
                state = OrderState.created;
                broker_order_id = none;
              }
                  ∷ []);
          next_id = x.next_id + 1;
          faults = tail_of x.faults;
        },
      ))

  -- `db.update_order` of a row that was created: whether it raises.
  unfoldable pub update_order :
      Option ℕ → OrderState → Option ℕ → OrderExecutor F B → Bool × OrderExecutor F B
  unfolding set_state
  update_order none state broker_order_id x = (false, x)
  update_order (some id) state broker_order_id x =
      if head_of x.faults then (true, record x { faults = tail_of x.faults }) else (
        false,
        record x {
          orders = set_state id state broker_order_id x.orders;
          faults = tail_of x.faults;
        },
      )

  abbrev pub enabled : Bool → OrderExecutor F B → Bool
  enabled force x = not (x.require_auto_execute && (not force && not x.auto_execute))

  -- The broker raised: the row is rejected, and only a NotImplementedError goes on.
  unfoldable pub record_failure :
      Error → Option ℕ → OrderExecutor F B → Result (Option OrderResult) × OrderExecutor F B
  unfolding update_order
  record_failure e row x =
      let (raised, x1) = update_order row OrderState.rejected none x in
      if raised then (err Error.other, x1) else elim e [
        | Error.not_implemented ↦ (err Error.not_implemented, x1)
        | failure ↦ (
          ok (
              some (record {
                accepted = false;
                order_id = 0;
                state = OrderState.rejected;
                broker_order_id = none;
              })),
          x1,
        )
      ]

  -- The broker answered.
  unfoldable pub record_answer :
      OrderResult → Option ℕ → OrderExecutor F B → Result (Option OrderResult) × OrderExecutor F B
  unfolding update_order
  record_answer r row x =
      (ok (some r), (update_order row r.state (some (or_else r.broker_order_id r.order_id)) x).1)

  unfoldable pub settle_result :
      Result OrderResult
      → Option ℕ
      → OrderExecutor F B
      → Result (Option OrderResult) × OrderExecutor F B
  unfolding record_failure record_answer
  settle_result (ok result) row x = record_answer result row x
  settle_result (err e) row x = record_failure e row x

module _ {F B : Type 0} (br : Broker F B) ⦃fl : Floats F⦄ where
  open fl use {le}

  -- `resolve_quantity`, whose large quantities only warn.
  unfoldable pub resolve_quantity : Signal F → Option F → Option F
  resolve_quantity signal quantity =
      let qty = or_else quantity (or_else signal.position_size nought) in
      if le qty nought then none else some qty

  -- Placing the order, once the broker is authenticated.
  unfoldable pub submit_signal :
      Signal F
      → F
      → OrderType
      → Option F
      → OrderExecutor F B
      → Result (Option OrderResult) × OrderExecutor F B
  unfolding create_order settle_result
  submit_signal signal qty order_type price x =
      let side = side_of signal.signal_type in
      let (row, x1) = create_order signal.ticker side qty order_type price x in
      let (r, b) =
        br.place_order signal.ticker side qty order_type
          (if is_some price then price else signal.price) x1.broker in
      settle_result r row (record x1 { broker = b })

  -- A failed authentication is no result, unless it is a NotImplementedError.
  unfoldable pub admitted :
      Result Bool
      → Signal F
      → F
      → OrderType
      → Option F
      → OrderExecutor F B
      → Result (Option OrderResult) × OrderExecutor F B
  unfolding submit_signal
  admitted (ok true) signal qty order_type price x = submit_signal signal qty order_type price x
  admitted (ok false) signal qty order_type price x = (ok none, x)
  admitted (err Error.not_implemented) signal qty order_type price x =
      (err Error.not_implemented, x)
  admitted (err _) signal qty order_type price x = (ok none, x)

  unfoldable pub authenticated :
      Signal F
      → F
      → OrderType
      → Option F
      → OrderExecutor F B
      → Result (Option OrderResult) × OrderExecutor F B
  unfolding admitted
  authenticated signal qty order_type price x =
      let (r, b) = br.authenticate x.broker in
      admitted r signal qty order_type price (record x { broker = b })

  unfoldable pub execute_signal :
      Signal F
      → Option F
      → OrderType
      → Option F
      → Bool
      → OrderExecutor F B
      → Result (Option OrderResult) × OrderExecutor F B
  unfolding resolve_quantity authenticated
  execute_signal signal quantity order_type price force x =
      if not (enabled force x) || not (is_executable signal.signal_type)
      then (ok none, x)
      else elim (resolve_quantity signal quantity) [
        | none ↦ (ok none, x)
        | some qty ↦ authenticated signal qty order_type price x
      ]

  -- `execute_signals`; an exception ends the loop.
  unfoldable pub execute_signals :
      List (Signal F) → Bool → OrderExecutor F B → Result (List OrderResult) × OrderExecutor F B
  unfolding execute_signal
  execute_signals [] force x = (ok [], x)
  execute_signals (s ∷ ss) force x =
      let (r, x1) = execute_signal s none OrderType.market none force x in
      let (rest, x2) = execute_signals ss force x1 in
      elim r [
        | err e ↦ (err e, x1)
        | ok o ↦ elim rest [
          | err e ↦ (err e, x2)
          | ok rs ↦ (ok (elim o [ none ↦ rs | some result ↦ result ∷ rs ]), x2)
        ]
      ]
