-- ===== src/Execution/Paper/Accounts.antt =====
-- The book of PaperBroker (execution/paper_broker.py): its orders, its positions and its cash.
use bist_bot.Common.{
  ℕ, ◌≡◌, refl, ◌∙◌, inl, inr, Bool, true, false, Option, some, List, [], ◌∷◌, arith, Bool-cases,
  Option-cases, Dict, lookup, insert, Each, Each-insert, Each-erase, Each-lookup, ◌||◌, or_else,
  is_some,
}
use bist_bot.Common.Floats.{Floats, Decimals, nought, fmin}
use bist_bot.Risk.Money.{TradingCosts, is_zero_qty, calc_notional}
use bist_bot.Execution.Order.{
  OrderType, OrderSide, OrderSide-cases, OrderState, is_terminal, is_dropped, is_created, is_market,
  Order, Position, remaining_quantity,
}
use bist_bot.Execution.Paper.{
  PaperBroker, Call, perform, perform_all, create, fill, filled_by, fill_average, apply_fill,
  bought, sold, place_order, new_order, route, confirm_order, cancel_order, reject_order,
  partial_fill, fill_order,
}

module _ {F : Type 0} ⦃fl : Floats F⦄ where
  open fl use {le, eq}

  -- An order stands under its id; filled, nothing remains of it, and partly filled, something does;
  -- before its first fill it has no filled quantity, and after it an average price.
  pub record IsSound (k : ℕ) (o : Order F) : Type 0 where
    pub own_id : o.order_id ≡ k
    pub filled_done : o.state ≡ OrderState.filled → eq (remaining_quantity o) nought ≡ true
    pub partial_open : o.state ≡ OrderState.partial → eq (remaining_quantity o) nought ≡ false
    pub created_empty : o.state ≡ OrderState.created → le o.filled_quantity nought ≡ true
    pub sent_empty : o.state ≡ OrderState.sent → le o.filled_quantity nought ≡ true
    pub priced : le o.filled_quantity nought ≡ false → is_some o.average_fill_price ≡ true

  -- A position stands under its ticker, and holds more than nothing.
  pub record IsHeld (k : ℕ) (p : Position F) : Type 0 where
    pub own_ticker : p.ticker ≡ k
    pub quantity_pos : le p.quantity nought ≡ false

  pub record IsValid (b : PaperBroker F) : Type 0 where
    pub orders_sound : Each IsSound b.orders
    pub positions_held : Each IsHeld b.positions

module _ {F : Type 0} ⦃fl : Floats F⦄ ⦃dc : Decimals F⦄ where
  bought-IsHeld :
      (now ticker : ℕ) (q p notional : F) (d : Dict (Position F))
      → fl.le q nought ≡ false
      → Each IsHeld d
      → Each IsHeld (bought now ticker q p notional d)
  unfolding bought
  bought-IsHeld now ticker q p notional d more held = elim (Option-cases (lookup ticker d)) [
    | inl e ↦
        rw (e, bought)
          (Each-insert IsHeld ticker _ d (record { own_ticker = refl; quantity_pos = more }) held)
    | inr (pos, e) ↦
        let old = Each-lookup IsHeld ticker d held e in
        let combined = fl.add pos.quantity q in
        elim (Bool-cases (fl.le combined nought || is_zero_qty combined)) [
          | inl g ↦ rw (e, g, bought) (Each-erase IsHeld ticker d held)
          | inr g ↦
              rw (e, g, bought)
                (Each-insert IsHeld ticker _ d
                  (record { own_ticker = old.own_ticker; quantity_pos = ground arith }) held)
        ]
  ]

  sold-IsHeld :
      (now ticker : ℕ) (q : F) (d : Dict (Position F))
      → Each IsHeld d
      → Each IsHeld (sold now ticker q d)
  unfolding sold
  sold-IsHeld now ticker q d held = elim (Option-cases (lookup ticker d)) [
    | inl e ↦ rw (e, sold) held
    | inr (pos, e) ↦
        let old = Each-lookup IsHeld ticker d held e in
        let left = fl.sub pos.quantity q in
        elim (Bool-cases (fl.le left nought || is_zero_qty left)) [
          | inl g ↦ rw (e, g, sold) (Each-erase IsHeld ticker d held)
          | inr g ↦
              rw (e, g, sold)
                (Each-insert IsHeld ticker _ d
                  (record { own_ticker = old.own_ticker; quantity_pos = ground arith }) held)
        ]
  ]

  fill_average-priced :
      (k : ℕ) (o : Order F) (q p : F) → IsSound k o → is_some (fill_average o q p) ≡ true
  unfolding fill_average
  fill_average-priced k o q p s = elim (Bool-cases (fl.le o.filled_quantity nought)) [
    | inl g ↦ rw g
    | inr g ↦ rw g (ground (arith, s.priced g))
  ]

  filled_by-IsSound :
      (now k : ℕ) (o : Order F) (q p : F) → IsSound k o → IsSound k (filled_by now o q p)
  unfolding filled_by
  filled_by-IsSound now k o q p s = record {
    own_id = s.own_id;
    filled_done = ground arith;
    partial_open = ground arith;
    created_empty = ground arith;
    sent_empty = ground arith;
    priced = λ _. fill_average-priced k o q p s;
  }

  apply_fill-IsValid :
      (now : ℕ) (o : Order F) (q p : F) (b : PaperBroker F)
      → fl.le q nought ≡ false
      → IsValid b
      → IsValid (apply_fill now o q p b)
  unfolding apply_fill
  apply_fill-IsValid now o q p b more v = elim (OrderSide-cases o.side) [
    | inl e ↦
        rw (e, apply_fill)
          (record {
            orders_sound = v.orders_sound;
            positions_held =
                bought-IsHeld now o.ticker q p (calc_notional q p) b.positions more
                  v.positions_held;
          })
    | inr e ↦
        rw (e, apply_fill)
          (record {
            orders_sound = v.orders_sound;
            positions_held = sold-IsHeld now o.ticker q b.positions v.positions_held;
          })
  ]

  fill-IsValid :
      (now id : ℕ) (q p : F) (b : PaperBroker F) → IsValid b → IsValid (fill now id q p b).0
  unfolding fill
  fill-IsValid now id q p b v = elim (Option-cases (lookup id b.orders)) [
    | inl e ↦ rw (e, fill) v
    | inr (o, e) ↦
        let fill_qty = fmin q (remaining_quantity o) in
        let o1 = filled_by now o fill_qty p in
        elim (Bool-cases (is_terminal o.state || fl.le fill_qty nought)) [
          | inl g ↦ rw (e, g, fill) v
          | inr g ↦
              let sound =
                filled_by-IsSound now id o fill_qty p
                  (Each-lookup IsSound id b.orders v.orders_sound e) in
              let b1 = record b { orders = insert id o1 b.orders } in
              rw (e, g, fill)
                (apply_fill-IsValid now o1 fill_qty p b1 (ground arith) (record {
                  orders_sound = Each-insert IsSound id o1 b.orders sound v.orders_sound;
                  positions_held = v.positions_held;
                }))
        ]
  ]

  store-IsValid :
      (id : ℕ) (o : Order F) (b : PaperBroker F)
      → IsSound id o
      → IsValid b
      → IsValid (record b { orders = insert id o b.orders })
  store-IsValid id o b s v = record {
    orders_sound = Each-insert IsSound id o b.orders s v.orders_sound;
    positions_held = v.positions_held;
  }

  drop-IsSound :
      (id : ℕ) (o o1 : Order F)
      → is_dropped o1.state ≡ true
      → o1.order_id ≡ o.order_id
      → o1.filled_quantity ≡ o.filled_quantity
      → o1.average_fill_price ≡ o.average_fill_price
      → IsSound id o
      → IsSound id o1
  drop-IsSound id o o1 d same_id same_filled same_average s = record {
    own_id = same_id ∙ s.own_id;
    filled_done = ground arith;
    partial_open = ground arith;
    created_empty = ground arith;
    sent_empty = ground arith;
    priced = rw (same_filled, same_average) s.priced;
  }

  cancel_order-IsValid :
      (now id : ℕ) (b : PaperBroker F) → IsValid b → IsValid (cancel_order now id b).0
  unfolding cancel_order
  cancel_order-IsValid now id b v = elim (Option-cases (lookup id b.orders)) [
    | inl e ↦ rw (e, cancel_order) v
    | inr (o, e) ↦ elim (Bool-cases (is_terminal o.state)) [
      | inl g ↦ rw (e, g, cancel_order) v
      | inr g ↦
          let o1 = record o { state = OrderState.cancelled; updated_at = now } in
          let s = Each-lookup IsSound id b.orders v.orders_sound e in
          rw (e, g, cancel_order)
            (store-IsValid id o1 b (drop-IsSound id o o1 refl refl refl refl s) v)
    ]
  ]

  reject_order-IsValid :
      (now id reason : ℕ) (b : PaperBroker F) → IsValid b → IsValid (reject_order now id reason b).0
  unfolding reject_order
  reject_order-IsValid now id reason b v = elim (Option-cases (lookup id b.orders)) [
    | inl e ↦ rw (e, reject_order) v
    | inr (o, e) ↦ elim (Bool-cases (is_terminal o.state)) [
      | inl g ↦ rw (e, g, reject_order) v
      | inr g ↦
          let o1 = record o {
            state = OrderState.rejected;
            reason = some reason;
            updated_at = now;
          } in
          let s = Each-lookup IsSound id b.orders v.orders_sound e in
          rw (e, g, reject_order)
            (store-IsValid id o1 b (drop-IsSound id o o1 refl refl refl refl s) v)
    ]
  ]

  fill_order-IsValid :
      (now id : ℕ) (p : F) (b : PaperBroker F) → IsValid b → IsValid (fill_order now id p b).0
  unfolding fill_order
  fill_order-IsValid now id p b v = elim (Option-cases (lookup id b.orders)) [
    | inl e ↦ rw (e, fill_order) v
    | inr (o, e) ↦ rw (e, fill_order) (fill-IsValid now id (remaining_quantity o) p b v)
  ]

  confirm_order-IsValid :
      (now id : ℕ) (p : Option F) (b : PaperBroker F)
      → IsValid b
      → IsValid (confirm_order now id p b).0
  unfolding confirm_order
  confirm_order-IsValid now id p b v = elim (Option-cases (lookup id b.orders)) [
    | inl e ↦ rw (e, confirm_order) v
    | inr (o, e) ↦ elim (Bool-cases (is_created o.state)) [
      | inr g ↦ rw (e, g, confirm_order) v
      | inl g ↦
          let o1 = record o { state = OrderState.sent; updated_at = now } in
          let s = Each-lookup IsSound id b.orders v.orders_sound e in
          let s1 : IsSound id o1 = ground (arith, s.priced, s.created_empty, s.own_id) in
          let b1 = record b { orders = insert id o1 b.orders } in
          let v1 = store-IsValid id o1 b s1 v in
          elim (Bool-cases (is_market o.order_type || is_some p)) [
            | inr g' ↦ rw (e, g, g', confirm_order) v1
            | inl g' ↦
                rw (e, g, g', confirm_order)
                  (fill-IsValid now id (remaining_quantity o1) (or_else p (or_else o.price nought))
                    b1 v1)
          ]
    ]
  ]

  route-IsValid :
      (manual market : Bool) (now id : ℕ) (q : F) (price : Option F) (b : PaperBroker F)
      → IsValid b
      → IsValid (route manual market now id q price b)
  unfolding route
  route-IsValid true market now id q price b v = v
  route-IsValid false true now id q price b v = fill-IsValid now id q (or_else price nought) b v
  route-IsValid false false now id q price b v = v

  module _ (zero_le : fl.le nought nought ≡ true) where
    new_order-IsSound :
        (now id ticker : ℕ) (side : OrderSide) (q : F) (type : OrderType) (price stop : Option F)
        (manual : Bool)
        → IsSound id (new_order now id ticker side q type price stop manual)
    unfolding new_order
    new_order-IsSound now id ticker side q type price stop true = ground arith
    new_order-IsSound now id ticker side q type price stop false = ground arith

    perform-IsValid : (c : Call F) (b : PaperBroker F) → IsValid b → IsValid (perform c b)
    unfolding perform
    perform-IsValid (Call.place now id ticker side q type price stop) b v =
        let o = new_order now id ticker side q type price stop b.manual_confirm in
        let s = new_order-IsSound now id ticker side q type price stop b.manual_confirm in
        let b1 = record b { orders = insert id o b.orders } in
        unfold place_order in
        route-IsValid b.manual_confirm (is_market type) now id q price b1 (store-IsValid id o b s v)
    perform-IsValid (Call.confirm now id p) b v = confirm_order-IsValid now id p b v
    perform-IsValid (Call.cancel now id) b v = cancel_order-IsValid now id b v
    perform-IsValid (Call.reject now id reason) b v = reject_order-IsValid now id reason b v
    perform-IsValid (Call.fill_part now id q p) b v =
        unfold partial_fill in fill-IsValid now id q p b v
    perform-IsValid (Call.fill_rest now id p) b v = fill_order-IsValid now id p b v

    perform_all-IsValid :
        (cs : List (Call F)) (b : PaperBroker F) → IsValid b → IsValid (perform_all cs b)
    unfolding perform_all
    perform_all-IsValid [] b v = v
    perform_all-IsValid (c ∷ cs) b v = perform_all-IsValid cs (perform c b) (perform-IsValid c b v)

    -- On floats where 0 <= 0, whatever is called on a new broker, a filled order has no remainder
    -- and a partly filled one has some, an order that is created or sent has no fill and one with a
    -- fill has an average price, every order stands under its id, and every position stands under
    -- its ticker and holds more than nothing.
    pub run-IsValid :
        (cash : F) (manual : Bool) (costs : TradingCosts F) (cs : List (Call F))
        → IsValid (perform_all cs (create cash manual costs))
    unfolding create
    run-IsValid cash manual costs cs =
        perform_all-IsValid cs _ (record { orders_sound = tt; positions_held = tt })
