-- ===== src/Execution/Tracker/Kept.antt =====
-- The orders that the loop of execution/order_tracker.py leaves alone.
use bist_bot.Common.{
  ℕ, zero, suc, ◌≡◌, refl, ◌∙◌, inl, inr, Bool, false, Option, none, some, List, [], ◌∷◌,
  if◌then◌else◌, ◌==◌, ◌&&◌, ◌||◌, any, arith, Bool-cases, Option-cases,
}
use bist_bot.Execution.Raises.{Action, Result-cases}
use bist_bot.Execution.Order.{OrderStatus, is_working}
use bist_bot.Execution.Tracker.{
  OrderRecord, OrderTracker, next_fault, later_faults, insert_row, pending_rows, sync_row,
  poll_order, poll_orders, poll_once, run_loop,
}

-- `session.get(OrderRecord, order_id)`
abbrev pub get_order : {F : Type 0} → ℕ → List (OrderRecord F) → Option (OrderRecord F)
get_order id [] = none
get_order id (r ∷ rs) = if r.id == id then some r else get_order id rs

abbrev pub is_row : {F : Type 0} → ℕ → OrderRecord F → Bool
is_row id r = r.id == id

-- A row of this id that is SENT or PARTIAL.
abbrev pub is_pending_row : {F : Type 0} → ℕ → OrderRecord F → Bool
is_pending_row id r = (r.id == id) && is_working r.state

module _ {F : Type 0} where
  any-insert_row :
      (id : ℕ) (r : OrderRecord F) (rs : List (OrderRecord F))
      → any (is_row id) (insert_row r rs) ≡ (is_row id r || any (is_row id) rs)
  unfolding insert_row
  any-insert_row id r [] = refl
  any-insert_row id r (s ∷ rs) = ground (arith, any-insert_row id r rs)

  -- The id is not polled when none of its rows is pending.
  any-pending_rows :
      (id : ℕ) (rs : List (OrderRecord F))
      → any (is_pending_row id) rs ≡ false
      → any (is_row id) (pending_rows rs) ≡ false
  unfolding pending_rows
  any-pending_rows id [] h = refl
  any-pending_rows id (r ∷ rs) h =
      ground (arith, any-pending_rows id rs, any-insert_row id r (pending_rows rs))

  pub get_order-sync_row :
      (id other : ℕ) (status : OrderStatus F) (rs : List (OrderRecord F))
      → (other == id) ≡ false
      → get_order id (sync_row other status rs) ≡ get_order id rs
  unfolding sync_row
  get_order-sync_row id other status [] h = refl
  get_order-sync_row id other status (r ∷ rs) h =
      ground (arith, get_order-sync_row id other status rs h)

  any-sync_row :
      (id other : ℕ) (status : OrderStatus F) (rs : List (OrderRecord F))
      → (other == id) ≡ false
      → any (is_pending_row id) (sync_row other status rs) ≡ any (is_pending_row id) rs
  unfolding sync_row
  any-sync_row id other status [] h = refl
  any-sync_row id other status (r ∷ rs) h = ground (arith, any-sync_row id other status rs h)

-- The rows of this id are as they were.
abbrev pub SameOrder : {F B : Type 0} → ℕ → OrderTracker F B → OrderTracker F B → Type 0
SameOrder id t u =
    (get_order id u.rows ≡ get_order id t.rows)
    × (any (is_pending_row id) u.rows ≡ any (is_pending_row id) t.rows)

module _ {F B : Type 0} (get_order_status : ℕ → Action B (OrderStatus F)) where
  poll_order-SameOrder :
      (id other broker_order_id : ℕ) (t : OrderTracker F B)
      → (other == id) ≡ false
      → SameOrder id t (poll_order get_order_status other broker_order_id t).1
  unfolding poll_order
  poll_order-SameOrder id other broker_order_id t h =
      elim (Result-cases (get_order_status broker_order_id t.broker).0) [
        | inl (status, e) ↦ elim (Bool-cases (next_fault t.faults)) [
          | inl f ↦ rw (poll_order, e, f) (refl, refl)
          | inr f ↦
              rw (poll_order, e, f)
                (get_order-sync_row id other status t.rows h, any-sync_row id other status t.rows h)
        ]
        | inr (failure, e) ↦ rw (poll_order, e) (refl, refl)
      ]

  poll_orders-SameOrder :
      (id : ℕ) (rs : List (OrderRecord F)) (t : OrderTracker F B)
      → any (is_row id) rs ≡ false
      → SameOrder id t (poll_orders get_order_status rs t).1
  unfolding poll_orders
  poll_orders-SameOrder id [] t h = (refl, refl)
  poll_orders-SameOrder id (r ∷ rs) t h =
      let other : (r.id == id) ≡ false = ground (arith, h) in
      let others : any (is_row id) rs ≡ false = ground (arith, h) in
      elim (Option-cases r.broker_order_id) [
        | inl e ↦ rw (poll_orders, e) (poll_orders-SameOrder id rs t others)
        | inr (broker_order_id, e) ↦
            let polled = poll_order get_order_status r.id broker_order_id t in
            let (same, pending) = poll_order-SameOrder id r.id broker_order_id t other in
            let (same_rest, pending_rest) = poll_orders-SameOrder id rs polled.1 others in
            elim (Bool-cases polled.0) [
              | inl f ↦ rw (poll_orders, e, f) (same, pending)
              | inr f ↦ rw (poll_orders, e, f) (same_rest ∙ same, pending_rest ∙ pending)
            ]
      ]

  poll_once-SameOrder :
      (id : ℕ) (t : OrderTracker F B)
      → any (is_pending_row id) t.rows ≡ false
      → SameOrder id t (poll_once get_order_status t).1
  unfolding poll_once
  poll_once-SameOrder id t h = elim (Bool-cases (next_fault t.faults)) [
    | inl e ↦ rw (poll_once, e) (refl, refl)
    | inr e ↦
        rw (poll_once, e)
          (poll_orders-SameOrder id (pending_rows t.rows)
            (record t { faults = later_faults t.faults }) (any-pending_rows id t.rows h))
  ]

  -- However many rounds the loop makes, and whatever the broker answers and whichever calls raise,
  -- an order whose row is neither SENT nor PARTIAL keeps its row: its state, its broker id, its
  -- filled quantity and its price stay as they are.
  pub run_loop-keeps :
      (n id : ℕ) (t : OrderTracker F B)
      → any (is_pending_row id) t.rows ≡ false
      → get_order id (run_loop get_order_status n t).rows ≡ get_order id t.rows
  unfolding run_loop
  run_loop-keeps zero id t h = refl
  run_loop-keeps (suc n) id t h =
      let (same, pending) = poll_once-SameOrder id t h in
      run_loop-keeps n id (poll_once get_order_status t).1 (pending ∙ h) ∙ same
