-- ===== src/Execution/Paper/Lifecycle.antt =====
-- What PaperBroker (execution/paper_broker.py) does to an order over its life.
use bist_bot.Common.{
  ℕ, ◌≡◌, refl, ap, ◌∙◌, inl, inr, Bool, true, false, Option, none, some, List, [], ◌∷◌, arith,
  Bool-cases, Option-cases, Dict, lookup, insert, lookup-insert, ◌==◌, ◌||◌, or_else, is_some,
}
use mathlib.Core.Path.{subst}
use bist_bot.Common.Floats.{Floats, Decimals, nought, fmin}
use bist_bot.Execution.Order.{
  OrderType, OrderSide, OrderState, is_terminal, is_created, is_market, Order, remaining_quantity,
}
use bist_bot.Execution.Paper.{
  PaperBroker, Call, perform, perform_all, fill, filled_by, apply_fill, place_order, new_order,
  route, confirm_order, cancel_order, reject_order, partial_fill, fill_order,
}

-- The moves of an order's state that a broker may make: forward through sent and partial to an end
-- state, never back, and never out of an end state.
abbrev pub May : OrderState → OrderState → Type 0
May OrderState.created s = Unit
May OrderState.sent OrderState.created = ⊥
May OrderState.sent _ = Unit
May OrderState.partial OrderState.created = ⊥
May OrderState.partial OrderState.sent = ⊥
May OrderState.partial _ = Unit
May OrderState.filled s = s ≡ OrderState.filled
May OrderState.cancelled s = s ≡ OrderState.cancelled
May OrderState.rejected s = s ≡ OrderState.rejected

May-refl : (s : OrderState) → May s s
May-refl OrderState.created = tt
May-refl OrderState.sent = tt
May-refl OrderState.partial = tt
May-refl OrderState.filled = refl
May-refl OrderState.cancelled = refl
May-refl OrderState.rejected = refl

May-trans : (r s t : OrderState) → May r s → May s t → May r t
May-trans r s t p q = ground arith

module _ {F : Type 0} where
  -- What may become of an order: its state moves on, its terms stay, and an end state freezes it.
  pub record Becomes (o o' : Order F) : Type 0 where
    pub state_moves : May o.state o'.state
    pub same_ticker : o'.ticker ≡ o.ticker
    pub same_side : o'.side ≡ o.side
    pub same_quantity : o'.quantity ≡ o.quantity
    pub same_type : o'.order_type ≡ o.order_type
    pub frozen : is_terminal o.state ≡ true → o' ≡ o

  -- The order is still there, and has become what it may.
  abbrev pub Follows : Order F → Option (Order F) → Type 0
  Follows o none = ⊥
  Follows o (some o') = Becomes o o'

  Becomes-refl : (o : Order F) → Becomes o o
  Becomes-refl o = record {
    state_moves = May-refl o.state;
    same_ticker = refl;
    same_side = refl;
    same_quantity = refl;
    same_type = refl;
    frozen = λ _. refl;
  }

  Becomes-trans : (o o' o'' : Order F) → Becomes o o' → Becomes o' o'' → Becomes o o''
  Becomes-trans o o' o'' p q = record {
    state_moves = May-trans o.state o'.state o''.state p.state_moves q.state_moves;
    same_ticker = q.same_ticker ∙ p.same_ticker;
    same_side = q.same_side ∙ p.same_side;
    same_quantity = q.same_quantity ∙ p.same_quantity;
    same_type = q.same_type ∙ p.same_type;
    frozen =
        λ e. q.frozen (ap (λ (x : Order F). is_terminal x.state) (p.frozen e) ∙ e) ∙ p.frozen e;
  }

  -- What a call leaves of the orders that were there.
  abbrev pub Tracks : Dict (Order F) → Dict (Order F) → Type 0
  Tracks before after =
      (j : ℕ) (o : Order F) → lookup j before ≡ some o → Follows o (lookup j after)

  Tracks-refl : (d : Dict (Order F)) → Tracks d d
  Tracks-refl d j o e = rw e (Becomes-refl o)

  Follows-trans :
      (o : Order F) (d d' : Dict (Order F)) (j : ℕ)
      → Follows o (lookup j d)
      → Tracks d d'
      → Follows o (lookup j d')
  Follows-trans o d d' j f t = elim (Option-cases (lookup j d)) [
    | inl e ↦ absurd (rw e at f)
    | inr (o', e) ↦
        let first : Becomes o o' = rw e at f in
        let second : Follows o' (lookup j d') = t j o' e in
        elim (Option-cases (lookup j d')) [
          | inl e' ↦ absurd (rw e' at second)
          | inr (o'', e') ↦ rw e' (Becomes-trans o o' o'' first (rw e' at second))
        ]
  ]

  -- Storing what an order has become, or a new order, keeps track of all.
  insert-Tracks :
      (k : ℕ) (o o1 : Order F) (d : Dict (Order F))
      → lookup k d ≡ some o
      → Becomes o o1
      → Tracks d (insert k o1 d)
  insert-Tracks k o o1 d e b j oj ej = rw lookup-insert (elim (Bool-cases (j == k)) [
    | inl same ↦
        let it : o ≡ oj = ground arith in rw same (subst (λ (x : Order F). Becomes x o1) it b)
    | inr other ↦ rw (other, ej) (Becomes-refl oj)
  ])

  insert_new-Tracks :
      (k : ℕ) (o : Order F) (d : Dict (Order F)) → lookup k d ≡ none → Tracks d (insert k o d)
  insert_new-Tracks k o d e j oj ej = rw lookup-insert (elim (Bool-cases (j == k)) [
    | inl same ↦ absurd (ground arith)
    | inr other ↦ rw (other, ej) (Becomes-refl oj)
  ])

module _ {F : Type 0} ⦃fl : Floats F⦄ ⦃dc : Decimals F⦄ where
  filled_by-Becomes :
      (now : ℕ) (o : Order F) (q p : F)
      → is_terminal o.state ≡ false
      → Becomes o (filled_by now o q p)
  unfolding filled_by
  filled_by-Becomes now o q p live = ground arith

  pub apply_fill-orders :
      (now : ℕ) (o : Order F) (q p : F) (b : PaperBroker F)
      → (apply_fill now o q p b).orders ≡ b.orders
  unfolding apply_fill
  apply_fill-orders now o q p b = ground arith

  fill-Tracks :
      (now id : ℕ) (q p : F) (b : PaperBroker F) → Tracks b.orders (fill now id q p b).0.orders
  unfolding fill
  fill-Tracks now id q p b = elim (Option-cases (lookup id b.orders)) [
    | inl e ↦ rw (e, fill) (Tracks-refl b.orders)
    | inr (o, e) ↦
        let fill_qty = fmin q (remaining_quantity o) in
        elim (Bool-cases (is_terminal o.state || fl.le fill_qty nought)) [
          | inl g ↦ rw (e, g, fill) (Tracks-refl b.orders)
          | inr g ↦
              rw (e, g, apply_fill-orders, fill)
                (insert-Tracks id o (filled_by now o fill_qty p) b.orders e
                  (filled_by-Becomes now o fill_qty p (ground arith)))
        ]
  ]

  fill_order-Tracks :
      (now id : ℕ) (p : F) (b : PaperBroker F) → Tracks b.orders (fill_order now id p b).0.orders
  unfolding fill_order
  fill_order-Tracks now id p b = elim (Option-cases (lookup id b.orders)) [
    | inl e ↦ rw (e, fill_order) (Tracks-refl b.orders)
    | inr (o, e) ↦ rw (e, fill_order) (fill-Tracks now id (remaining_quantity o) p b)
  ]

  cancel_order-Tracks :
      (now id : ℕ) (b : PaperBroker F) → Tracks b.orders (cancel_order now id b).0.orders
  unfolding cancel_order
  cancel_order-Tracks now id b = elim (Option-cases (lookup id b.orders)) [
    | inl e ↦ rw (e, cancel_order) (Tracks-refl b.orders)
    | inr (o, e) ↦ elim (Bool-cases (is_terminal o.state)) [
      | inl g ↦ rw (e, g, cancel_order) (Tracks-refl b.orders)
      | inr g ↦
          let o1 = record o { state = OrderState.cancelled; updated_at = now } in
          rw (e, g, cancel_order) (insert-Tracks id o o1 b.orders e (ground arith))
    ]
  ]

  reject_order-Tracks :
      (now id reason : ℕ) (b : PaperBroker F)
      → Tracks b.orders (reject_order now id reason b).0.orders
  unfolding reject_order
  reject_order-Tracks now id reason b = elim (Option-cases (lookup id b.orders)) [
    | inl e ↦ rw (e, reject_order) (Tracks-refl b.orders)
    | inr (o, e) ↦ elim (Bool-cases (is_terminal o.state)) [
      | inl g ↦ rw (e, g, reject_order) (Tracks-refl b.orders)
      | inr g ↦
          let o1 = record o {
            state = OrderState.rejected;
            reason = some reason;
            updated_at = now;
          } in
          rw (e, g, reject_order) (insert-Tracks id o o1 b.orders e (ground arith))
    ]
  ]

  Tracks-trans : (d d' d'' : Dict (Order F)) → Tracks d d' → Tracks d' d'' → Tracks d d''
  Tracks-trans d d' d'' s t j o e = Follows-trans o d' d'' j (s j o e) t

  confirm_order-Tracks :
      (now id : ℕ) (p : Option F) (b : PaperBroker F)
      → Tracks b.orders (confirm_order now id p b).0.orders
  unfolding confirm_order
  confirm_order-Tracks now id p b = elim (Option-cases (lookup id b.orders)) [
    | inl e ↦ rw (e, confirm_order) (Tracks-refl b.orders)
    | inr (o, e) ↦ elim (Bool-cases (is_created o.state)) [
      | inr g ↦ rw (e, g, confirm_order) (Tracks-refl b.orders)
      | inl g ↦
          let o1 = record o { state = OrderState.sent; updated_at = now } in
          let b1 = record b { orders = insert id o1 b.orders } in
          let sent = insert-Tracks id o o1 b.orders e (ground arith) in
          let at = or_else p (or_else o.price nought) in
          elim (Bool-cases (is_market o.order_type || is_some p)) [
            | inr g' ↦ rw (e, g, g', confirm_order) sent
            | inl g' ↦
                rw (e, g, g', confirm_order)
                  (Tracks-trans b.orders b1.orders
                    (fill now id (remaining_quantity o1) at b1).0.orders sent
                    (fill-Tracks now id (remaining_quantity o1) at b1))
          ]
    ]
  ]

  pub route-Tracks :
      (manual market : Bool) (now id : ℕ) (q : F) (price : Option F) (b : PaperBroker F)
      → Tracks b.orders (route manual market now id q price b).orders
  unfolding route
  route-Tracks true market now id q price b = Tracks-refl b.orders
  route-Tracks false true now id q price b = fill-Tracks now id q (or_else price nought) b
  route-Tracks false false now id q price b = Tracks-refl b.orders

  place_order-Tracks :
      (now id ticker : ℕ) (side : OrderSide) (q : F) (type : OrderType) (price stop : Option F)
      (b : PaperBroker F)
      → lookup id b.orders ≡ none
      → Tracks b.orders (place_order now id ticker side q type price stop b).0.orders
  place_order-Tracks now id ticker side q type price stop b e =
      let o = new_order now id ticker side q type price stop b.manual_confirm in
      let b1 = record b { orders = insert id o b.orders } in
      unfold place_order in
      Tracks-trans b.orders b1.orders
        (route b.manual_confirm (is_market type) now id q price b1).orders
        (insert_new-Tracks id o b.orders e)
        (route-Tracks b.manual_confirm (is_market type) now id q price b1)

  -- The id that a placed order takes is new.
  abbrev pub IsFresh : Call F → PaperBroker F → Type 0
  IsFresh (Call.place _ id _ _ _ _ _ _) b = lookup id b.orders ≡ none
  IsFresh _ b = Unit

  abbrev pub AllFresh : List (Call F) → PaperBroker F → Type 0
  AllFresh [] b = Unit
  AllFresh (c ∷ cs) b = IsFresh c b × AllFresh cs (perform c b)

  perform-Tracks :
      (c : Call F) (b : PaperBroker F) → IsFresh c b → Tracks b.orders (perform c b).orders
  unfolding perform
  perform-Tracks (Call.place now id ticker side q type price stop) b e =
      place_order-Tracks now id ticker side q type price stop b e
  perform-Tracks (Call.confirm now id p) b e = confirm_order-Tracks now id p b
  perform-Tracks (Call.cancel now id) b e = cancel_order-Tracks now id b
  perform-Tracks (Call.reject now id reason) b e = reject_order-Tracks now id reason b
  perform-Tracks (Call.fill_part now id q p) b e = unfold partial_fill in fill-Tracks now id q p b
  perform-Tracks (Call.fill_rest now id p) b e = fill_order-Tracks now id p b

  run-Tracks :
      (cs : List (Call F)) (b : PaperBroker F)
      → AllFresh cs b
      → Tracks b.orders (perform_all cs b).orders
  unfolding perform_all
  run-Tracks [] b e = Tracks-refl b.orders
  run-Tracks (c ∷ cs) b e =
      Tracks-trans b.orders (perform c b).orders (perform_all cs (perform c b)).orders
        (perform-Tracks c b e.0) (run-Tracks cs (perform c b) e.1)

  -- Whatever is called, where new orders take new ids, an order stays in the book with its ticker,
  -- side, quantity and type, its state moves only along `May`, and if it was filled, cancelled or
  -- rejected nothing of it has changed.
  pub run-Follows :
      (cs : List (Call F)) (b : PaperBroker F) (j : ℕ) (o : Order F)
      → AllFresh cs b
      → lookup j b.orders ≡ some o
      → Follows o (lookup j (perform_all cs b).orders)
  run-Follows cs b j o fresh e = run-Tracks cs b fresh j o e
