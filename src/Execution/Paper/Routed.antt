-- ===== src/Execution/Paper/Routed.antt =====
-- The executor of src/bist_bot/execution/order_executor.py on the simulated broker of
-- src/bist_bot/execution/paper_broker.py: the broker fills the interface that the executor calls.
use bist_bot.Common.{
  ℕ, suc, ◌+◌, ◌≤◌, ◌≢◌, ◌≡◌, ◌⊎◌, refl, sym, ◌∙◌, inl, inr, Bool, true, false, Option, none, some,
  ◌||◌, or_else, Bool-cases, Option-cases, Each, Each-insert, lookup, insert, lookup-insert_ne,
  lookup-insert_self,
}
use bist_bot.Common.Floats.{Floats, Decimals, nought, fmin}
use bist_bot.Execution.Raises.{ok}
use bist_bot.Execution.Order.{
  OrderType, OrderSide, is_market, is_terminal, Order, remaining_quantity,
}
use bist_bot.Execution.Executor.{Broker}
use bist_bot.Execution.Paper.{PaperBroker, fill, filled_by, new_order, route, state_of, place_order}
use bist_bot.Execution.Paper.Lifecycle.{Becomes, apply_fill-orders, route-Tracks}

-- The broker with what it draws: the n-th order takes the id n and the n-th reading of the clock.
pub record Simulated (F : Type 0) : Type 0 where
  pub broker : PaperBroker F
  pub drawn : ℕ
  pub clock : ℕ → ℕ

module _ {F : Type 0} ⦃fl : Floats F⦄ ⦃dc : Decimals F⦄ where
  abbrev pub paper_broker : Broker F (Simulated F)
  paper_broker = record {
    authenticate = λ s. (ok true, s);
    place_order = λ ticker side q type price s.
        let (b, r) = place_order (s.clock s.drawn) s.drawn ticker side q type price none s.broker in
        (ok r, record s { broker = b; drawn = s.drawn + 1 });
  }

  -- A fill writes at most the order that it fills.
  fill-orders :
      (now id : ℕ) (q p : F) (b : PaperBroker F)
      → ((fill now id q p b).0.orders ≡ b.orders)
        ⊎ ((o : Order F) × ((fill now id q p b).0.orders ≡ insert id o b.orders))
  unfolding fill
  fill-orders now id q p b = elim (Option-cases (lookup id b.orders)) [
    | inl e ↦ inl (rw (e, fill) refl)
    | inr (o, e) ↦
        let part = fmin q (remaining_quantity o) in
        let o1 = filled_by now o part p in
        elim (Bool-cases (is_terminal o.state || fl.le part nought)) [
          | inl idle ↦ inl (rw (e, idle, fill) refl)
          | inr fills ↦ inr (
            o1,
            rw (e, fills, fill)
                (apply_fill-orders now o1 part p (record b { orders = insert id o1 b.orders })),
          )
        ]
  ]

  route-orders :
      (manual market : Bool) (now id : ℕ) (q : F) (price : Option F) (b : PaperBroker F)
      → ((route manual market now id q price b).orders ≡ b.orders)
        ⊎ ((o : Order F) × ((route manual market now id q price b).orders ≡ insert id o b.orders))
  unfolding route
  route-orders true market now id q price b = inl refl
  route-orders false true now id q price b = fill-orders now id q (or_else price nought) b
  route-orders false false now id q price b = inl refl

  state_of-lookup :
      (id : ℕ) (o : Order F) (b : PaperBroker F)
      → lookup id b.orders ≡ some o
      → state_of id b ≡ o.state
  unfolding state_of
  state_of-lookup id o b e = rw (e, state_of) refl

  -- The answer of the broker names the order that it stored, which has the terms that were asked for;
  -- the other orders are as before, and the ids of all of them are below any bound of the earlier ones
  -- and the new one.
  pub place_order-stores :
      (now id ticker : ℕ) (side : OrderSide) (q : F) (type : OrderType) (price stop : Option F)
      (b : PaperBroker F)
      → let (after, r) = place_order now id ticker side q type price stop b in
        ((o : Order F) × (lookup id after.orders ≡ some o)
          × (o.ticker ≡ ticker)
          × (o.side ≡ side)
          × (o.quantity ≡ q)
          × (o.order_type ≡ type)
          × (o.state ≡ r.state))
        × (r.broker_order_id ≡ some id)
        × ((j : ℕ) → j ≢ id → lookup j after.orders ≡ lookup j b.orders)
        × ((n : ℕ)
            → suc id ≤ n
            → Each (λ j o. suc j ≤ n) b.orders
            → Each (λ j o. suc j ≤ n) after.orders)
  unfolding place_order new_order state_of
  place_order-stores now id ticker side q type price stop b =
      let o = new_order now id ticker side q type price stop b.manual_confirm in
      let b1 = record b { orders = insert id o b.orders } in
      let b2 = route b.manual_confirm (is_market type) now id q price b1 in
      let first = lookup-insert_self id o b.orders in
      let follows = route-Tracks b.manual_confirm (is_market type) now id q price b1 id o first in
      let shape = route-orders b.manual_confirm (is_market type) now id q price b1 in
      (
        elim (Option-cases (lookup id b2.orders)) [
          | inl e ↦ absurd (rw e at follows)
          | inr (o2, e) ↦
              let same : Becomes o o2 = rw e at follows in
              (
                o2,
                e,
                same.same_ticker,
                same.same_side,
                same.same_quantity,
                same.same_type,
                sym (state_of-lookup id o2 b2 e),
              )
        ],
        refl,
        λ j other. elim shape [
          | inl e ↦ rw e (lookup-insert_ne j id o b.orders other)
          | inr (o2, e) ↦
              rw e
                (lookup-insert_ne j id o2 b1.orders other ∙ lookup-insert_ne j id o b.orders other)
        ],
        λ n fresh all.
            let stored = Each-insert (λ j p. suc j ≤ n) id o b.orders fresh all in
            elim shape [
              | inl e ↦ rw e stored
              | inr (o2, e) ↦ rw e (Each-insert (λ j p. suc j ≤ n) id o2 b1.orders fresh stored)
            ],
      )
