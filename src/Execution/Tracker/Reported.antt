-- ===== src/Execution/Tracker/Reported.antt =====
-- What a round of execution/order_tracker.py brings back from the broker.
use bist_bot.Common.{
  ℕ, ◌≡◌, refl, sym, ap, ◌∙◌, ◌⊎◌, inl, inr, Bool, true, false, Option, none, some, List, [], ◌∷◌,
  ◌==◌, ◌&&◌, ◌||◌, any, arith, Bool-cases, Option-cases,
}
use bist_bot.Execution.Raises.{ok, Action, Result-cases}
use bist_bot.Execution.Order.{OrderStatus, is_working}
use bist_bot.Execution.Tracker.{
  OrderRecord, OrderTracker, next_fault, later_faults, insert_row, pending_rows, synced, sync_row,
  poll_order, poll_orders, poll_once,
}
use bist_bot.Execution.Tracker.Kept.{is_row, get_order, get_order-sync_row}

abbrev is_value : ℕ → Option ℕ → Bool
is_value x none = false
is_value x (some y) = y == x

-- The row asks the broker about this broker id.
abbrev pub asks : {F : Type 0} → ℕ → ℕ → OrderRecord F → Bool
asks id broker_order_id r = (r.id == id) && is_value broker_order_id r.broker_order_id

-- A pending row that asks.
abbrev pub asks_pending : {F : Type 0} → ℕ → ℕ → OrderRecord F → Bool
asks_pending id broker_order_id r = is_working r.state && asks id broker_order_id r

-- The row of this id has what this answer of the broker says.
abbrev pub HasAnswer : {F : Type 0} → ℕ → OrderStatus F → List (OrderRecord F) → Type 0
HasAnswer {F} id status rs =
    (r : OrderRecord F) × (get_order id rs ≡ some r)
    × (r.state ≡ status.state)
    × (r.filled_qty ≡ status.filled_quantity)

module _ {F : Type 0} where
  any-asks-insert_row :
      (id b : ℕ) (r : OrderRecord F) (rs : List (OrderRecord F))
      → any (asks id b) (insert_row r rs) ≡ (asks id b r || any (asks id b) rs)
  unfolding insert_row
  any-asks-insert_row id b r [] = refl
  any-asks-insert_row id b r (s ∷ rs) = ground (arith, any-asks-insert_row id b r rs)

  any-asks-pending_rows :
      (id b : ℕ) (rs : List (OrderRecord F))
      → any (asks id b) (pending_rows rs) ≡ any (asks_pending id b) rs
  unfolding pending_rows
  any-asks-pending_rows id b [] = refl
  any-asks-pending_rows id b (r ∷ rs) =
      let rest = any-asks-pending_rows id b rs in
      let inserted = any-asks-insert_row id b r (pending_rows rs) in
      elim (Bool-cases (is_working r.state)) [
        | inl e ↦ rw (pending_rows, e, inserted, rest) refl
        | inr e ↦ rw (pending_rows, e, rest) refl
      ]

  any-is_row-asks :
      (id b : ℕ) (rs : List (OrderRecord F))
      → any (asks_pending id b) rs ≡ true
      → any (is_row id) rs ≡ true
  any-is_row-asks id b [] h = h
  any-is_row-asks id b (r ∷ rs) h = ground (arith, any-is_row-asks id b rs)

  any-is_row-sync_row :
      (id other : ℕ) (status : OrderStatus F) (rs : List (OrderRecord F))
      → any (is_row id) (sync_row other status rs) ≡ any (is_row id) rs
  unfolding sync_row
  any-is_row-sync_row id other status [] = refl
  any-is_row-sync_row id other status (r ∷ rs) =
      ground (arith, any-is_row-sync_row id other status rs)

  sync_row-HasAnswer :
      (id other : ℕ) (status : OrderStatus F) (rs : List (OrderRecord F))
      → (other == id) ≡ true
      → any (is_row id) rs ≡ true
      → HasAnswer id status (sync_row other status rs)
  unfolding sync_row
  sync_row-HasAnswer id other status [] e h = absurd (ground arith)
  sync_row-HasAnswer id other status (r ∷ rs) e h = elim (Bool-cases (r.id == id)) [
    | inl f ↦
        let g : (r.id == other) ≡ true = ground (arith, e, f) in
        rw (sync_row, g, f) (synced status r, refl, refl, refl)
    | inr f ↦
        let g : (r.id == other) ≡ false = ground (arith, e, f) in
        rw (sync_row, g, f) (sync_row-HasAnswer id other status rs e (ground (arith, f, h)))
  ]

module _ {F B : Type 0} (get_order_status : ℕ → Action B (OrderStatus F)) where
  poll_order-answer :
      (id b : ℕ) (t : OrderTracker F B)
      → (poll_order get_order_status id b t).0 ≡ false
      → (status : OrderStatus F) × ((get_order_status b t.broker).0 ≡ ok status)
        × ((poll_order get_order_status id b t).1.rows ≡ sync_row id status t.rows)
  unfolding poll_order
  poll_order-answer id b t h = elim (Result-cases (get_order_status b t.broker).0) [
    | inl (status, e) ↦ elim (Bool-cases (next_fault t.faults)) [
      | inl f ↦ absurd (ground (arith, e, f, h))
      | inr f ↦ (status, e, rw (poll_order, e, f) refl)
    ]
    | inr (failure, e) ↦ absurd (ground (arith, e, h))
  ]

  -- The broker answered a question of these rows about the id, and the row has the answer.
  abbrev pub IsAnswered : ℕ → List (OrderRecord F) → List (OrderRecord F) → Type 0
  IsAnswered id asked rs =
      (b : ℕ) × (s : B) × (status : OrderStatus F) × (any (asks id b) asked ≡ true)
      × ((get_order_status b s).0 ≡ ok status)
      × HasAnswer id status rs

  IsAnswered-sync_row :
      (id other b : ℕ) (s : B) (status : OrderStatus F) (asked rs : List (OrderRecord F))
      → (get_order_status b s).0 ≡ ok status
      → ((other == id) ≡ true → any (asks id b) asked ≡ true)
      → any (is_row id) rs ≡ true
      → ((other == id) ≡ true) ⊎ IsAnswered id asked rs
      → IsAnswered id asked (sync_row other status rs)
  IsAnswered-sync_row id other b s status asked rs answer asking there before =
      elim (Bool-cases (other == id)) [
        | inl e ↦ (b, s, status, asking e, answer, sync_row-HasAnswer id other status rs e there)
        | inr e ↦ elim before [
          | inl f ↦ absurd (ground (arith, e, f))
          | inr (b2, s2, status2, asked2, answer2, (r, found, state, filled)) ↦ (
            b2,
            s2,
            status2,
            asked2,
            answer2,
            (r, get_order-sync_row id other status rs e ∙ found, state, filled),
          )
        ]
      ]

  poll_orders-IsAnswered :
      (id : ℕ) (asked rs : List (OrderRecord F)) (t : OrderTracker F B)
      → ((b : ℕ) → any (asks id b) rs ≡ true → any (asks id b) asked ≡ true)
      → (poll_orders get_order_status rs t).0 ≡ false
      → any (is_row id) t.rows ≡ true
      → ((b : ℕ) × (any (asks id b) rs ≡ true)) ⊎ IsAnswered id asked t.rows
      → IsAnswered id asked (poll_orders get_order_status rs t).1.rows
  unfolding poll_orders
  poll_orders-IsAnswered id asked [] t sub calm there before = elim before [
    | inl (b, h) ↦ absurd (ground (arith, h))
    | inr h ↦ h
  ]
  poll_orders-IsAnswered id asked (r ∷ rs) t sub calm there before =
      let sub_rest : (b : ℕ) → any (asks id b) rs ≡ true → any (asks id b) asked ≡ true =
        λ b h. sub b (ground (arith, h)) in
      elim (Option-cases r.broker_order_id) [
        | inl e ↦
            let step : (poll_orders get_order_status (r ∷ rs) t).0
                ≡ (poll_orders get_order_status rs t).0 =
              rw (poll_orders, e) refl in
            let left : ((b : ℕ) × (any (asks id b) rs ≡ true)) ⊎ IsAnswered id asked t.rows =
              elim before [ inl (b, h) ↦ inl (b, ground (arith, e, h)) | inr h ↦ inr h ] in
            rw (poll_orders, e)
              (poll_orders-IsAnswered id asked rs t sub_rest (sym step ∙ calm) there left)
        | inr (b, e) ↦
            let polled = poll_order get_order_status r.id b t in
            elim (Bool-cases polled.0) [
              | inl f ↦
                  let step : (poll_orders get_order_status (r ∷ rs) t).0 ≡ true =
                    rw (poll_orders, e, f) refl in
                  absurd (ground (arith, sym step ∙ calm))
              | inr f ↦
                  let (status, answer, written) = poll_order-answer r.id b t f in
                  let step : (poll_orders get_order_status (r ∷ rs) t).0
                      ≡ (poll_orders get_order_status rs polled.1).0 =
                    rw (poll_orders, e, f) refl in
                  let asking : (r.id == id) ≡ true → any (asks id b) asked ≡ true =
                    λ g. sub b (ground (arith, e, g)) in
                  let answered : ((r.id == id) ≡ true) ⊎ IsAnswered id asked t.rows
                      → IsAnswered id asked polled.1.rows =
                    λ prior. rw written (
                      IsAnswered-sync_row id r.id b t.broker status asked t.rows answer asking there
                        prior) in
                  let there_rest : any (is_row id) polled.1.rows ≡ true =
                    rw written (any-is_row-sync_row id r.id status t.rows ∙ there) in
                  let left : ((b2 : ℕ) × (any (asks id b2) rs ≡ true))
                      ⊎ IsAnswered id asked polled.1.rows =
                    elim before [
                      | inl (b2, h) ↦ elim (Bool-cases (any (asks id b2) rs)) [
                        | inl g ↦ inl (b2, g)
                        | inr g ↦ inr (answered (inl (ground (arith, g, h))))
                      ]
                      | inr h ↦ inr (answered (inr h))
                    ] in
                  rw (poll_orders, e, f)
                    (poll_orders-IsAnswered id asked rs polled.1 sub_rest (sym step ∙ calm)
                      there_rest left)
            ]
      ]

  -- When a round ends without an exception, every order that was SENT or PARTIAL and had a broker id
  -- (a row of its id asks about `b`) has the state and the filled quantity that the broker answered
  -- in some state of the broker about a broker id of a pending row of that order.
  pub poll_once-reports :
      (id b : ℕ) (t : OrderTracker F B)
      → any (asks_pending id b) t.rows ≡ true
      → (poll_once get_order_status t).0 ≡ false
      → (b2 : ℕ) × (s : B) × (status : OrderStatus F) × (any (asks_pending id b2) t.rows ≡ true)
        × ((get_order_status b2 s).0 ≡ ok status)
        × HasAnswer id status (poll_once get_order_status t).1.rows
  unfolding poll_once
  poll_once-reports id b t h calm = elim (Bool-cases (next_fault t.faults)) [
    | inl e ↦
        let step : (poll_once get_order_status t).0 ≡ true = rw (poll_once, e) refl in
        absurd (ground (arith, sym step ∙ calm))
    | inr e ↦
        let t1 = record t { faults = later_faults t.faults } in
        let asked = pending_rows t.rows in
        let step : poll_once get_order_status t ≡ poll_orders get_order_status asked t1 =
          rw (poll_once, e) refl in
        let there = any-is_row-asks id b t.rows h in
        let (b2, s, status, asks2, answer, has) =
          poll_orders-IsAnswered id asked asked t1 (λ c g. g) (sym (ap (λ u. u.0) step) ∙ calm)
            there (inl (b, any-asks-pending_rows id b t.rows ∙ h)) in
        (b2, s, status, sym (any-asks-pending_rows id b2 t.rows) ∙ asks2, answer, rw step has)
  ]
