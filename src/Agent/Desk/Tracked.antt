-- ===== src/Agent/Desk/Tracked.antt =====
-- What the orders of agent/exit_service.py tell of an exit.
use bist_bot.Common.{
  ℕ, ◌≡◌, refl, true, false, Option, none, some, List, [], ◌∷◌, ◌++◌, if◌then◌else◌, ◌==◌, any,
  or_else, arith,
}
use bist_bot.Common.Floats.{Floats, nought}
use bist_bot.Execution.Raises.{ok}
use bist_bot.Execution.Order.{OrderType, OrderSide, OrderState, OrderResult}
use bist_bot.Agent.Positions.{ExitReason, rest_of}
use bist_bot.Agent.Desk.{
  Exchange, Purpose, DeskOrder, Desk, first_of, create_order, amended, amend_order, update_order,
  track_exit, settle_exit, place_exit, exit_position, is_pending_exit,
}

abbrev pub order_at : {F : Type 0} → ℕ → List (DeskOrder F) → Option (DeskOrder F)
order_at id [] = none
order_at id (r ∷ rs) = if r.id == id then some r else order_at id rs

module _ {F : Type 0} where
  order_at-amend_order :
      (id : ℕ) (f : DeskOrder F → DeskOrder F) (rs : List (DeskOrder F)) (r : DeskOrder F)
      → any (λ s. s.id == id) rs ≡ false
      → r.id ≡ id
      → (f r).id ≡ id
      → order_at id (amend_order id f (rs ++ (r ∷ []))) ≡ some (f r)
  unfolding amend_order
  order_at-amend_order id f [] r fresh same kept =
      let e : (r.id == id) ≡ true = ground arith in
      let g : ((f r).id == id) ≡ true = ground arith in rw (e, g) refl
  order_at-amend_order id f (s ∷ rs) r fresh same kept =
      let other : (s.id == id) ≡ false = ground (arith, fresh) in
      rw (other, other) (order_at-amend_order id f rs r (ground (arith, fresh)) same kept)

module _ {F B : Type 0} (ex : Exchange F B) ⦃fl : Floats F⦄ where
  -- An exit that the broker takes is not lost: where the sessions on the orders do not fail, the new
  -- id is fresh, the broker lets the agent in and accepts the sale with an id of its own,
  -- `exit_position` reports success, and the new row is among those that `process_pending_exits`
  -- asks about, with that id, the quantity, the position and the reason.
  pub exit_position-tracked :
      (type : Option OrderType) (position_id ticker : ℕ) (quantity : F) (reason : ExitReason)
      (price : F) (d : Desk F B) (result : OrderResult) (broker_order_id : ℕ)
      → d.order_faults ≡ []
      → any (λ r. r.id == d.next_order) d.orders ≡ false
      → (ex.authenticate d.broker).0 ≡ ok true
      → (ex.place_order ticker OrderSide.sell quantity
          (or_else type OrderType.market)
          (some price)
          (ex.authenticate d.broker).1).0
        ≡ ok result
      → result.accepted ≡ true
      → result.broker_order_id ≡ some broker_order_id
      → let after = exit_position ex type position_id ticker quantity reason price d in
        (after.0 ≡ ok true)
        × (r : DeskOrder F) × (order_at d.next_order after.1.orders ≡ some r)
        × (is_pending_exit r ≡ true)
        × (r.broker_order_id ≡ some broker_order_id)
        × (r.qty ≡ quantity)
        × (r.purpose ≡ Purpose.exit position_id reason)
  unfolding exit_position place_exit create_order settle_exit track_exit update_order
  exit_position-tracked type position_id ticker quantity reason price d result broker_order_id calm
        fresh login placed accepted known =
      let ready : first_of d.order_faults ≡ false = rw calm refl in
      let still : first_of (rest_of d.order_faults) ≡ false = rw calm refl in
      let created : DeskOrder F = record {
        id = d.next_order;
        ticker = ticker;
        side = OrderSide.sell;
        qty = quantity;
        order_type = or_else type OrderType.market;
        price = some price;
        state = OrderState.created;
        broker_order_id = none;
        filled_qty = nought;
        avg_fill_price = none;
        purpose = Purpose.exit position_id reason;
      } in
      let f = amended {F = F} OrderState.sent (some broker_order_id) none none in
      (
        rw (exit_position, login, ready, placed, accepted) refl,
        f created,
        rw (exit_position, login, ready, placed, accepted, known, still)
            (order_at-amend_order d.next_order f d.orders created fresh refl refl),
        refl,
        refl,
        refl,
        refl,
      )
