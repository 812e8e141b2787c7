-- ===== src/Agent/Desk.antt =====
-- The orders that the trading agent sends: src/bist_bot/agent/exit_service.py, with the rows that it
-- keeps by src/bist_bot/db/repositories/orders_repository.py. The audit log is left out, and a row
-- keeps the reason of an exit decoded.
pub mod Tracked
use bist_bot.Common.{
  ℕ, ◌+◌, Bool, true, false, Option, none, some, List, [], ◌∷◌, ◌++◌, if◌then◌else◌, ◌==◌, not,
  ◌&&◌, keep, is_some, or_else,
}
use bist_bot.Common.Floats.{Floats, Decimals, nought}
use bist_bot.Execution.Raises.{Error, Result, ok, err, Action}
use bist_bot.Execution.Order.{
  OrderType, OrderSide, OrderState, OrderResult, OrderStatus, is_created, is_working, is_filled,
  is_terminal,
}
use bist_bot.Agent.Positions.{Positions, ExitReason, fails, connected, rest_of, close_position}

-- The broker. `place_linked` is `place_order` with the row's id and the signal, and answers `none`
-- where that raises a TypeError; `get_order_status none` asks about the text "None".
pub record Exchange (F B : Type 0) : Type 0 where
  pub authenticate : Action B Bool
  pub place_order : ℕ → OrderSide → F → OrderType → Option F → Action B OrderResult
  pub place_linked : ℕ → OrderSide → F → OrderType → Option ℕ → Action B (Option OrderResult)
  pub get_order_status : Option ℕ → Action B (OrderStatus F)

-- `purpose`, with the position and the reason that an exit carries.
pub data Purpose : Type 0 where
  entry : Purpose
  exit : ℕ → ExitReason → Purpose

pub record DeskOrder (F : Type 0) : Type 0 where
  pub id : ℕ
  pub ticker : ℕ
  pub side : OrderSide
  pub qty : F
  pub order_type : OrderType
  pub price : Option F
  pub state : OrderState
  pub broker_order_id : Option ℕ
  pub filled_qty : F
  pub avg_fill_price : Option F
  pub purpose : Purpose

-- The broker and the two tables; `order_faults` says which sessions on the orders fail.
pub record Desk (F B : Type 0) : Type 0 where
  pub broker : B
  pub orders : List (DeskOrder F)
  pub next_order : ℕ
  pub order_faults : List Bool
  pub positions : Positions F

abbrev pub is_exit : Purpose → Bool
is_exit Purpose.entry = false
is_exit (Purpose.exit position_id reason) = true

abbrev pub first_of : List Bool → Bool
first_of [] = false
first_of (b ∷ bs) = b

module _ {F B : Type 0} ⦃fl : Floats F⦄ where
  unfoldable pub create_order :
      ℕ → OrderSide → F → OrderType → Option F → Purpose → Action (Desk F B) ℕ
  create_order ticker side quantity order_type price purpose d =
      let d1 = record d { order_faults = rest_of d.order_faults } in
      if first_of d.order_faults then (err Error.other, d1) else (
        ok d.next_order,
        record d1 {
          orders =
              d.orders
              ++ (record {
                id = d.next_order;
                ticker = ticker;
                side = side;
                qty = quantity;
                order_type = order_type;
                price = price;
                state = OrderState.created;
                broker_order_id = none;
                filled_qty = nought;
                avg_fill_price = none;
                purpose = purpose;
              }
                  ∷ []);
          next_order = d.next_order + 1;
        },
      )

module _ {F : Type 0} where
  -- What is given as None stays.
  abbrev pub amended : OrderState → Option ℕ → Option F → Option F → DeskOrder F → DeskOrder F
  amended state broker_order_id filled_qty avg_fill_price r = record r {
    state = state;
    broker_order_id = if is_some broker_order_id then broker_order_id else r.broker_order_id;
    filled_qty = or_else filled_qty r.filled_qty;
    avg_fill_price = if is_some avg_fill_price then avg_fill_price else r.avg_fill_price;
  }

  unfoldable pub amend_order :
      ℕ → (DeskOrder F → DeskOrder F) → List (DeskOrder F) → List (DeskOrder F)
  amend_order id f [] = []
  amend_order id f (r ∷ rs) = if r.id == id then f r ∷ rs else r ∷ amend_order id f rs

module _ {F B : Type 0} where
  -- `update_order`: whether it raises, and the desk after it.
  unfoldable pub update_order :
      ℕ → OrderState → Option ℕ → Option F → Option F → Desk F B → Bool × Desk F B
  unfolding amend_order
  update_order id state broker_order_id filled_qty avg_fill_price d =
      let d1 = record d { order_faults = rest_of d.order_faults } in
      if first_of d.order_faults then (true, d1) else (
        false,
        record d1 {
          orders =
              amend_order id (amended state broker_order_id filled_qty avg_fill_price) d.orders;
        },
      )

  -- An accepted exit is SENT, where its row and the broker's id are known.
  unfoldable pub track_exit : Option ℕ → Option ℕ → Desk F B → Desk F B
  unfolding update_order
  track_exit (some id) (some broker_order_id) d =
      (update_order id OrderState.sent (some broker_order_id) none none d).1
  track_exit _ _ d = d

  unfoldable pub settle_exit : Result OrderResult → Option ℕ → Desk F B → Result Bool × Desk F B
  unfolding track_exit
  settle_exit (err e) row d = (err e, d)
  settle_exit (ok result) row d =
      if result.accepted then (ok true, track_exit row result.broker_order_id d) else (ok false, d)

abbrev pub row_of : Result ℕ → Option ℕ
row_of (ok id) = some id
row_of (err e) = none

module _ {F B : Type 0} (ex : Exchange F B) ⦃fl : Floats F⦄ where
  -- Once the broker is authenticated; a failed session leaves the order without a row.
  unfoldable pub place_exit :
      OrderType → ℕ → ℕ → F → ExitReason → F → Desk F B → Result Bool × Desk F B
  unfolding create_order settle_exit
  place_exit order_type position_id ticker quantity exit_reason current_price d =
      let (row, d1) =
        create_order ticker OrderSide.sell quantity order_type (some current_price)
          (Purpose.exit position_id exit_reason) d in
      let (r, b) =
        ex.place_order ticker OrderSide.sell quantity order_type (some current_price) d1.broker in
      settle_exit r (row_of row) (record d1 { broker = b })

  -- `EXIT_ORDER_TYPE` is `none` where it names no order type.
  unfoldable pub exit_position :
      Option OrderType → ℕ → ℕ → F → ExitReason → F → Desk F B → Result Bool × Desk F B
  unfolding place_exit
  exit_position exit_order_type position_id ticker quantity exit_reason current_price d =
      let (login, b) = ex.authenticate d.broker in
      let d1 = record d { broker = b } in
      elim login [
        | err e ↦ (err e, d1)
        | ok granted ↦
            if granted
            then place_exit (or_else exit_order_type OrderType.market) position_id ticker quantity
                exit_reason current_price d1
            else (ok false, d1)
      ]

abbrev pub is_pending_exit : {F : Type 0} → DeskOrder F → Bool
is_pending_exit r = is_exit r.purpose && (if is_created r.state then true else is_working r.state)

module _ {F B : Type 0} (ex : Exchange F B) ⦃fl : Floats F⦄ ⦃dc : Decimals F⦄ where
  -- The position of an exit that is filled; an id of 0 is none.
  unfoldable pub close_filled : ℕ → Purpose → OrderStatus F → Desk F B → Desk F B
  unfolding close_position
  close_filled now Purpose.entry status d = d
  close_filled now (Purpose.exit position_id reason) status d =
      if is_filled status.state && not (position_id == 0)
      then record d {
        positions =
            close_position now position_id (or_else status.average_fill_price nought) reason none
              nought d.positions;
      }
      else d

  -- One pending exit, with all exceptions caught.
  unfoldable pub process_exit : ℕ → DeskOrder F → Desk F B → Desk F B
  unfolding update_order close_filled
  process_exit now r d =
      let (answer, b) = ex.get_order_status r.broker_order_id d.broker in
      let d1 = record d { broker = b } in
      elim answer [
        | err e ↦ d1
        | ok status ↦
            let (raised, d2) =
              update_order r.id status.state none (some status.filled_quantity)
                status.average_fill_price d1 in
            if is_terminal status.state
            then (if raised then d2 else close_filled now r.purpose status d2)
            else d1
      ]

  unfoldable pub process_exits : ℕ → List (DeskOrder F) → Desk F B → Desk F B
  unfolding process_exit
  process_exits now [] d = d
  process_exits now (r ∷ rs) d = process_exits now rs (process_exit now r d)

  unfoldable pub process_pending_exits : ℕ → Desk F B → Desk F B
  unfolding process_exits
  process_pending_exits now d =
      let d1 = record d { positions = connected d.positions } in
      if fails d.positions then d1 else process_exits now (keep is_pending_exit d.orders) d1
