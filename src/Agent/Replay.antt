-- ===== src/Agent/Replay.antt =====
-- Recording the fill of a purchase more than once (execution/reconcile_accounting.py).
use bist_bot.Common.{
  ℕ, ◌≡◌, refl, ap, ◌∙◌, sym, ◌⊎◌, inl, inr, Bool, true, false, Option, none, some, List, [], ◌∷◌,
  ◌++◌, ◌==◌, arith, Bool-cases, Option-cases,
}
use mathlib.Core.Path.{subst}
use bist_bot.Common.Floats.{Floats, Decimals, nought}
use bist_bot.Execution.Order.{OrderSide, OrderState}
use bist_bot.Execution.Intents.{Intent, IntentStatus, SnapshotText, holds_value}
use bist_bot.Execution.Algolab.{AccountingOutcome}
use bist_bot.Agent.Positions.{
  LivePosition, Positions, is_open_on, find, open_position, get_position,
}
use bist_bot.Agent.Accounting.{
  Ledgers, update_order, levels_of, record_buy, record_buy_of, record_side, record_position,
  record_fill,
}

abbrev pub is_ack : AccountingOutcome → Bool
is_ack o = elim o.status [ IntentStatus.ack ↦ true | other ↦ false ]

module _ {F : Type 0} where
  -- The first open position on the ticker is the one that the order opened, and no connection fails.
  IsBooked : ℕ → ℕ → Positions F → Type 0
  IsBooked k id p =
      (r : LivePosition F) × (find (is_open_on k) p.rows ≡ some r)
      × (r.entry_order_id ≡ id)
      × (p.faults ≡ [])

  find-append :
      (k : ℕ) (rs : List (LivePosition F)) (r : LivePosition F)
      → find (is_open_on k) rs ≡ none
      → is_open_on k r ≡ true
      → find (is_open_on k) (rs ++ (r ∷ [])) ≡ some r
  unfolding find
  find-append k [] r h e = rw e refl
  find-append k (s ∷ rs) r h e = elim (Bool-cases (is_open_on k s)) [
    | inl g ↦ absurd (ground (arith, h, g))
    | inr g ↦ rw g (find-append k rs r (ground (arith, h, g)) e)
  ]

module _ {F : Type 0} ⦃fl : Floats F⦄ ⦃dc : Decimals F⦄ where
  open fl use {le}

  record_buy-booked :
      (now k id : ℕ) (filled average stop target : F) (p : Positions F)
      → IsBooked k id p
      → (record_buy now k (some id) filled average stop target p).1.rows ≡ p.rows
  unfolding record_buy IsBooked get_position
  record_buy-booked now k id filled average stop target p (r, found, own, calm) =
      let same : holds_value (some id) r.entry_order_id ≡ true = ground (arith, own) in
      rw (record_buy, calm, found, same) refl

  open_position-books :
      (now k id : ℕ) (entry quantity stop target : F) (p : Positions F)
      → p.faults ≡ []
      → find (is_open_on k) p.rows ≡ none
      → IsBooked k id (open_position now k id entry quantity stop target p).1
  unfolding IsBooked open_position
  open_position-books now k id entry quantity stop target p calm free =
      let same : (k == k) ≡ true = ground arith in
      rw (open_position, calm) (_, find-append k p.rows _ free (rw same refl), refl, refl)

  record_buy_free :
      (now k id : ℕ) (filled average stop target : F) (p : Positions F)
      → p.faults ≡ []
      → find (is_open_on k) p.rows ≡ none
      → (record_buy now k (some id) filled average stop target p).1
        ≡ (open_position now k id average filled stop target (get_position k p).1).1
  unfolding record_buy
  record_buy_free now k id filled average stop target p calm free =
      let nothing : (get_position k p).0 ≡ none = unfold get_position in rw (calm, free) refl in
      rw (record_buy, nothing) refl

  record_buy-books :
      (now k id : ℕ) (filled average stop target : F) (p : Positions F)
      → p.faults ≡ []
      → find (is_open_on k) p.rows ≡ none
      → IsBooked k id (record_buy now k (some id) filled average stop target p).1
  record_buy-books now k id filled average stop target p calm free =
      let quiet : (get_position k p).1.faults ≡ [] = unfold get_position in rw calm refl in
      let still : find (is_open_on k) (get_position k p).1.rows ≡ none =
        unfold get_position in free in
      subst (IsBooked k id) (sym (record_buy_free now k id filled average stop target p calm free))
        (open_position-books now k id average filled stop target (get_position k p).1 quiet still)

  record_buy_of-books :
      (now k id : ℕ) (filled average : F) (snapshot : SnapshotText F) (p : Positions F)
      → p.faults ≡ []
      → find (is_open_on k) p.rows ≡ none
      → is_ack (record_buy_of now k (some id) filled average snapshot p).0 ≡ true
      → IsBooked k id (record_buy_of now k (some id) filled average snapshot p).1
  unfolding record_buy_of
  record_buy_of-books now k id filled average snapshot p calm free ack =
      elim (Option-cases (levels_of snapshot)) [
        | inl e ↦ absurd (ground (arith, e, ack))
        | inr (levels, e) ↦
            rw (record_buy_of, e)
              (record_buy-books now k id filled average levels.0 levels.1 p calm free)
      ]

  record_buy_of-booked :
      (now k id : ℕ) (filled average : F) (snapshot : SnapshotText F) (p : Positions F)
      → IsBooked k id p
      → (record_buy_of now k (some id) filled average snapshot p).1.rows ≡ p.rows
  unfolding record_buy_of
  record_buy_of-booked now k id filled average snapshot p b =
      elim (Option-cases (levels_of snapshot)) [
        | inl e ↦ rw (record_buy_of, e) refl
        | inr (levels, e) ↦
            rw (record_buy_of, e) (record_buy-booked now k id filled average levels.0 levels.1 p b)
      ]

  record_side_buy :
      (now : ℕ) (i : Intent F) (id : ℕ) (filled average : F) (p : Positions F)
      → i.side ≡ OrderSide.buy
      → i.order_db_id ≡ some id
      → record_side now i.side i.ticker i.order_db_id filled average i.signal_snapshot p
        ≡ record_buy_of now i.ticker (some id) filled average i.signal_snapshot p
  unfolding record_side
  record_side_buy now i id filled average p side db = rw (side, db) refl

  record_position-booked :
      (now : ℕ) (i : Intent F) (id : ℕ) (filled average : F) (l : Ledgers F)
      → i.side ≡ OrderSide.buy
      → i.order_db_id ≡ some id
      → IsBooked i.ticker id l.positions
      → (record_position now i filled average l).1.positions.rows ≡ l.positions.rows
  unfolding record_position
  record_position-booked now i id filled average l side db b =
      elim (Bool-cases l.has_position_manager) [
        | inr e ↦ rw (record_position, e) refl
        | inl e ↦
            rw (record_position, e, record_side_buy now i id filled average l.positions side db)
              (record_buy_of-booked now i.ticker id filled average i.signal_snapshot l.positions b)
      ]

  record_position-books :
      (now : ℕ) (i : Intent F) (id : ℕ) (filled average : F) (l : Ledgers F)
      → i.side ≡ OrderSide.buy
      → i.order_db_id ≡ some id
      → l.positions.faults ≡ []
      → find (is_open_on i.ticker) l.positions.rows ≡ none
      → is_ack (record_position now i filled average l).0 ≡ true
      → IsBooked i.ticker id (record_position now i filled average l).1.positions
  unfolding record_position
  record_position-books now i id filled average l side db calm free ack =
      elim (Bool-cases l.has_position_manager) [
        | inr e ↦ absurd (ground (arith, e, ack))
        | inl e ↦
            let bought = record_side_buy now i id filled average l.positions side db in
            rw (record_position, e, bought)
              (record_buy_of-books now i.ticker id filled average i.signal_snapshot l.positions calm
                free (ground (arith, e, bought, ack)))
      ]

  -- `record_fill` leaves the positions, or does what its last step does to them.
  record_fill_cases :
      (now : ℕ) (i : Intent F) (broker : Option ℕ) (filled : F) (average : Option F)
      (state : OrderState) (l : Ledgers F)
      → let after = record_fill now i broker filled average state l in
        ((after.1.positions ≡ l.positions) × (is_ack after.0 ≡ false))
        ⊎ ((a : F) × (m : Ledgers F) × (m.positions ≡ l.positions)
            × (after ≡ record_position now i filled a m))
  unfolding record_fill update_order
  record_fill_cases now i broker filled average state l = elim (Bool-cases (le filled nought)) [
    | inl e ↦ inl (rw (record_fill, e) (refl, refl))
    | inr e ↦ elim (Option-cases average) [
      | inl g ↦ inl (rw (record_fill, e, g) (refl, refl))
      | inr (a, g) ↦ elim (Bool-cases (le a nought)) [
        | inl h ↦ inl (rw (record_fill, e, g, h) (refl, refl))
        | inr h ↦ elim (Option-cases i.order_db_id) [
          | inl d ↦ inr (a, l, refl, ground (arith, e, g, h, d))
          | inr (id, d) ↦
              let written = update_order now id state broker filled a l in
              elim (Bool-cases written.0) [
                | inl q ↦ inl (ground (arith, e, g, h, d, q))
                | inr q ↦ inr (a, written.1, ground arith, ground (arith, e, g, h, d, q))
              ]
        ]
      ]
    ]
  ]

  record_fill-books :
      (now : ℕ) (i : Intent F) (id : ℕ) (broker : Option ℕ) (filled : F) (average : Option F)
      (state : OrderState) (l : Ledgers F)
      → i.side ≡ OrderSide.buy
      → i.order_db_id ≡ some id
      → l.positions.faults ≡ []
      → find (is_open_on i.ticker) l.positions.rows ≡ none
      → is_ack (record_fill now i broker filled average state l).0 ≡ true
      → IsBooked i.ticker id (record_fill now i broker filled average state l).1.positions
  record_fill-books now i id broker filled average state l side db calm free ack =
      elim (record_fill_cases now i broker filled average state l) [
        | inl (same, refused) ↦ absurd (ground (arith, refused, ack))
        | inr (a, m, same, e) ↦
            subst (λ after. IsBooked i.ticker id after.1.positions) (sym e)
              (record_position-books now i id filled a m side db
                (subst (λ p. p.faults ≡ []) (sym same) calm)
                (subst (λ p. find (is_open_on i.ticker) p.rows ≡ none) (sym same) free)
                (subst (λ after. is_ack after.0 ≡ true) e ack))
      ]

  record_fill-booked :
      (now : ℕ) (i : Intent F) (id : ℕ) (broker : Option ℕ) (filled : F) (average : Option F)
      (state : OrderState) (l : Ledgers F)
      → i.side ≡ OrderSide.buy
      → i.order_db_id ≡ some id
      → IsBooked i.ticker id l.positions
      → (record_fill now i broker filled average state l).1.positions.rows ≡ l.positions.rows
  record_fill-booked now i id broker filled average state l side db b =
      elim (record_fill_cases now i broker filled average state l) [
        | inl (same, refused) ↦ ap (λ p. p.rows) same
        | inr (a, m, same, e) ↦
            ap (λ after. after.1.positions.rows) e
            ∙ record_position-booked now i id filled a m side db
                (subst (IsBooked i.ticker id) (sym same) b)
            ∙ ap (λ p. p.rows) same
      ]

  -- Of a buy order that has its row, on a ticker without an open position, and with a database that
  -- answers: once its fill is accounted with `ack`, recording a fill of the same order again, whatever
  -- the broker says of it then, opens no second position.
  pub record_fill-buys_once :
      (now now2 : ℕ) (i : Intent F) (id : ℕ) (broker broker2 : Option ℕ) (filled filled2 : F)
      (average average2 : Option F) (state state2 : OrderState) (l : Ledgers F)
      → i.side ≡ OrderSide.buy
      → i.order_db_id ≡ some id
      → l.positions.faults ≡ []
      → find (is_open_on i.ticker) l.positions.rows ≡ none
      → is_ack (record_fill now i broker filled average state l).0 ≡ true
      → let first = (record_fill now i broker filled average state l).1 in
        (record_fill now2 i broker2 filled2 average2 state2 first).1.positions.rows
        ≡ first.positions.rows
  record_fill-buys_once now now2 i id broker broker2 filled filled2 average average2 state state2 l
        side db calm free ack =
      record_fill-booked now2 i id broker2 filled2 average2 state2
        (record_fill now i broker filled average state l).1 side db
        (record_fill-books now i id broker filled average state l side db calm free ack)
