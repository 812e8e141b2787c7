-- ===== src/Execution/Tracker.antt =====
-- src/bist_bot/execution/order_tracker.py, with the queries of
-- src/bist_bot/db/repositories/orders_repository.py that it makes. The thread is the number of polls
-- that it makes before it is stopped.
mod Kept
mod Reported
mod Tests
use bist_bot.Common.{
  ℕ, zero, suc, Bool, true, false, Option, none, some, List, [], ◌∷◌, if◌then◌else◌, ◌==◌, ltb,
  ◌&&◌, ◌||◌, is_some,
}
use bist_bot.Execution.Raises.{Result, ok, err, Action}
use bist_bot.Execution.Order.{OrderState, OrderStatus, is_working}

-- A row of the orders, with the columns that the tracker reads or writes.
pub record OrderRecord (F : Type 0) : Type 0 where
  pub id : ℕ
  pub state : OrderState
  pub broker_order_id : Option ℕ
  pub filled_qty : F
  pub avg_fill_price : Option F
  pub created_at : ℕ

-- `faults` says which of the coming sessions of the database fail.
pub record OrderTracker (F B : Type 0) : Type 0 where
  pub broker : B
  pub rows : List (OrderRecord F)
  pub faults : List Bool

abbrev pub next_fault : List Bool → Bool
next_fault [] = false
next_fault (b ∷ bs) = b

abbrev pub later_faults : List Bool → List Bool
later_faults [] = []
later_faults (b ∷ bs) = bs

module _ {F : Type 0} where
  -- `ORDER BY created_at, id`
  abbrev pub is_earlier : OrderRecord F → OrderRecord F → Bool
  is_earlier r s =
      ltb r.created_at s.created_at || ((r.created_at == s.created_at) && ltb r.id s.id)

  unfoldable pub insert_row : OrderRecord F → List (OrderRecord F) → List (OrderRecord F)
  insert_row r [] = r ∷ []
  insert_row r (s ∷ rs) = if is_earlier s r then s ∷ insert_row r rs else r ∷ s ∷ rs

  unfoldable pub pending_rows : List (OrderRecord F) → List (OrderRecord F)
  unfolding insert_row
  pending_rows [] = []
  pending_rows (r ∷ rs) =
      if is_working r.state then insert_row r (pending_rows rs) else pending_rows rs

  -- What `update_order` writes in a row: it keeps the columns that are given as None.
  abbrev pub synced : OrderStatus F → OrderRecord F → OrderRecord F
  synced status r = record r {
    state = status.state;
    broker_order_id =
        if is_some status.broker_order_id then status.broker_order_id else r.broker_order_id;
    filled_qty = status.filled_quantity;
    avg_fill_price =
        if is_some status.average_fill_price then status.average_fill_price else r.avg_fill_price;
  }

  unfoldable pub sync_row : ℕ → OrderStatus F → List (OrderRecord F) → List (OrderRecord F)
  sync_row id status [] = []
  sync_row id status (r ∷ rs) =
      if r.id == id then synced status r ∷ rs else r ∷ sync_row id status rs

-- The broker's `get_order_status` is a parameter.
module _ {F B : Type 0} (get_order_status : ℕ → Action B (OrderStatus F)) where
  -- One order, whose broker id is known: whether it raised.
  unfoldable pub poll_order : ℕ → ℕ → OrderTracker F B → Bool × OrderTracker F B
  unfolding sync_row
  poll_order id broker_order_id t =
      let (answer, b) = get_order_status broker_order_id t.broker in
      let t1 = record t { broker = b } in
      elim answer [
        | ok status ↦
            let t2 = record t1 { faults = later_faults t.faults } in
            if next_fault t.faults
            then (true, t2)
            else (false, record t2 { rows = sync_row id status t.rows })
        | err e ↦ (true, t1)
      ]

  -- The loop over the rows that were read: the first exception ends it.
  unfoldable pub poll_orders : List (OrderRecord F) → OrderTracker F B → Bool × OrderTracker F B
  unfolding poll_order
  poll_orders [] t = (false, t)
  poll_orders (r ∷ rs) t = elim r.broker_order_id [
    | none ↦ poll_orders rs t
    | some broker_order_id ↦
        let (raised, t1) = poll_order r.id broker_order_id t in
        let rest = poll_orders rs t1 in if raised then (true, t1) else rest
  ]

  unfoldable pub poll_once : OrderTracker F B → Bool × OrderTracker F B
  unfolding poll_orders pending_rows
  poll_once t =
      let t1 = record t { faults = later_faults t.faults } in
      if next_fault t.faults then (true, t1) else poll_orders (pending_rows t.rows) t1

  -- So many rounds of the loop, which goes on after an exception.
  unfoldable pub run_loop : ℕ → OrderTracker F B → OrderTracker F B
  unfolding poll_once
  run_loop zero t = t
  run_loop (suc n) t = run_loop n (poll_once t).1
