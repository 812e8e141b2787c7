-- ===== src/Agent/Sold.antt =====
-- Recording the fill of a sale more than once (execution/reconcile_accounting.py).
pub mod Rows
use bist_bot.Common.{
  ℕ, ◌≡◌, refl, sym, ap, Option-cases, if◌then◌else◌, ◌∙◌, ◌⊎◌, inl, inr, Bool, true, false, Option,
  none, some, List, [], ◌∷◌, ◌==◌, ◌&&◌, arith, Bool-cases, keep,
}
use mathlib.Core.Path.{subst}
use bist_bot.Common.Floats.{Floats, Decimals, nought, fabs}
use bist_bot.Execution.Intents.{Intent, holds_value}
use bist_bot.Agent.Positions.{
  LivePosition, Positions, ExitReason, is_open_on, is_closed, find, amend, fails, connected,
  closed_row, close_position, get_position,
}
use bist_bot.Execution.Algolab.{AccountingOutcome}
use bist_bot.Execution.Order.{OrderSide, OrderState}
use bist_bot.Agent.Accounting.{
  Ledgers, accounted, unaccounted, nothing_filled, find_closed_by_exit_order, record_sell,
  with_positions, update_order, record_side, record_position, record_fill,
}
use bist_bot.Agent.Sold.Rows.{find-none, find-one, keep-amend_gone, keep-amend_none, keep-amend_one}

-- A position that the order closed.
abbrev pub is_closed_by : {F : Type 0} → ℕ → LivePosition F → Bool
is_closed_by id r = holds_value r.exit_order_id id && is_closed r.state

module _ {F : Type 0} ⦃fl : Floats F⦄ ⦃dc : Decimals F⦄ where
  open fl use {lit, lt, le, sub}

  close_position-rows :
      (now : ℕ) (price fees : F) (reason : ExitReason) (exit : Option ℕ) (p : Positions F)
      (r : LivePosition F)
      → p.faults ≡ []
      → keep (λ x. x.id == r.id) p.rows ≡ r ∷ []
      → close_position now r.id price reason exit fees p ≡ record (connected p) {
        rows = amend (λ x. x.id == r.id) (closed_row now price reason exit fees r) p.rows;
      }
  unfolding close_position
  close_position-rows now price fees reason exit p r calm own =
      let mine : find (λ x. x.id == r.id) p.rows ≡ some r =
        find-one (λ x. x.id == r.id) p.rows r own in
      let ready : fails p ≡ false = rw calm refl in rw (close_position, ready, mine) refl

  record_sell_first :
      (now k id : ℕ) (filled average : F) (p : Positions F) (r : LivePosition F)
      → p.faults ≡ []
      → keep (is_open_on k) p.rows ≡ r ∷ []
      → lt (lit 1 9) (fabs (sub r.quantity filled)) ≡ false
      → (record_sell now k (some id) filled average p).1
        ≡ close_position now r.id average ExitReason.reconciled_exit
            (some id)
            nought
            (get_position k p).1
  unfolding record_sell
  record_sell_first now k id filled average p r calm only whole =
      let mine = find-one (is_open_on k) p.rows r only in
      let there : (get_position k p).0 ≡ some r = unfold get_position in rw (calm, mine) refl in
      rw (record_sell, there, whole) refl

  record_sell_again :
      (now k id : ℕ) (filled average : F) (p : Positions F) (r : LivePosition F)
      → p.faults ≡ []
      → keep (is_open_on k) p.rows ≡ []
      → keep (is_closed_by id) p.rows ≡ r ∷ []
      → ((record_sell now k (some id) filled average p).0 ≡ accounted none)
        × ((record_sell now k (some id) filled average p).1.rows ≡ p.rows)
  unfolding record_sell find_closed_by_exit_order
  record_sell_again now k id filled average p r calm free closed =
      let gone = find-none (is_open_on k) p.rows free in
      let there : (get_position k p).0 ≡ none = unfold get_position in rw (calm, gone) refl in
      let after : (get_position k p).1 ≡ record p { faults = [] } =
        unfold get_position in rw calm refl in
      rw (record_sell, there, after, closed) (refl, refl)

  record_sell-once :
      (now now2 k id : ℕ) (filled filled2 average average2 : F) (p : Positions F)
      (r : LivePosition F)
      → p.faults ≡ []
      → keep (is_open_on k) p.rows ≡ r ∷ []
      → keep (λ x. x.id == r.id) p.rows ≡ r ∷ []
      → keep (is_closed_by id) p.rows ≡ []
      → lt (lit 1 9) (fabs (sub r.quantity filled)) ≡ false
      → let first = (record_sell now k (some id) filled average p).1 in
        ((record_sell now2 k (some id) filled2 average2 first).0 ≡ accounted none)
        × ((record_sell now2 k (some id) filled2 average2 first).1.rows ≡ first.rows)
  unfolding closed_row
  record_sell-once now now2 k id filled filled2 average average2 p r calm only own fresh whole =
      let f = closed_row now average ExitReason.reconciled_exit (some id) nought r in
      let mine : LivePosition F → Bool = λ x. x.id == r.id in
      let read = (get_position k p).1 in
      let q : Positions F = record (connected read) { rows = amend mine f read.rows } in
      let same_rows : read.rows ≡ p.rows = unfold get_position in refl in
      let quiet : read.faults ≡ [] = unfold get_position in rw calm refl in
      let closing : (record_sell now k (some id) filled average p).1 ≡ q =
        record_sell_first now k id filled average p r calm only whole
        ∙ close_position-rows now average nought ExitReason.reconciled_exit (some id) read r quiet
            (rw same_rows own) in
      let itself : (r.id == r.id) ≡ true = ground arith in
      let exit : (id == id) ≡ true = ground arith in
      let off : (x : LivePosition F) → is_open_on k (f x) ≡ false = λ x. ground arith in
      let on : (x : LivePosition F) → is_closed_by id (f x) ≡ true = λ x. rw exit refl in
      let free : keep (is_open_on k) q.rows ≡ [] =
        rw same_rows (keep-amend_gone (is_open_on k) mine f p.rows r off itself (inr only)) in
      let closed : keep (is_closed_by id) q.rows ≡ f r ∷ [] =
        rw same_rows (keep-amend_one (is_closed_by id) mine f p.rows r on fresh own) in
      let still : q.faults ≡ [] = rw quiet refl in
      rw closing (record_sell_again now2 k id filled2 average2 q (f r) still free closed)

  record_position_sell :
      (now : ℕ) (i : Intent F) (filled average : F) (l : Ledgers F)
      → i.side ≡ OrderSide.sell
      → l.has_position_manager ≡ true
      → let sale = record_sell now i.ticker i.order_db_id filled average l.positions in
        record_position now i filled average l ≡ (sale.0, with_positions sale.1 l)
  unfolding record_position record_side
  record_position_sell now i filled average l side manager =
      rw (record_position, manager, side) refl

  update_order-calm :
      (now id : ℕ) (state : OrderState) (broker : Option ℕ) (filled average : F) (l : Ledgers F)
      → l.order_faults ≡ []
      → let written = update_order now id state broker filled average l in
        (written.0 ≡ false)
        × (written.1.order_faults ≡ [])
        × (written.1.positions ≡ l.positions)
        × (written.1.has_position_manager ≡ l.has_position_manager)
  unfolding update_order
  update_order-calm now id state broker filled average l calm =
      rw (update_order, calm) (refl, refl, refl, refl)

  record_fill_reaches :
      (now : ℕ) (i : Intent F) (id : ℕ) (broker : Option ℕ) (filled average : F)
      (state : OrderState) (l : Ledgers F)
      → i.order_db_id ≡ some id
      → (update_order now id state broker filled average l).0 ≡ false
      → le filled nought ≡ false
      → le average nought ≡ false
      → record_fill now i broker filled (some average) state l
        ≡ record_position now i filled average (update_order now id state broker filled average l).1
  unfolding record_fill
  record_fill_reaches now i id broker filled average state l db written some_filled priced =
      ground (arith, db, written, some_filled, priced)

  -- A fill of a sell order is what the sale does to the positions, once the order's row is written.
  record_fill_sell :
      (now : ℕ) (i : Intent F) (id : ℕ) (broker : Option ℕ) (filled average : F)
      (state : OrderState) (l : Ledgers F)
      → i.side ≡ OrderSide.sell
      → i.order_db_id ≡ some id
      → l.has_position_manager ≡ true
      → l.order_faults ≡ []
      → le filled nought ≡ false
      → le average nought ≡ false
      → let sale = record_sell now i.ticker i.order_db_id filled average l.positions in
        let after = record_fill now i broker filled (some average) state l in
        (after.0 ≡ sale.0)
        × (after.1.positions ≡ sale.1)
        × (after.1.order_faults ≡ [])
        × (after.1.has_position_manager ≡ true)
  record_fill_sell now i id broker filled average state l side db manager calm some_filled priced =
      let l1 = (update_order now id state broker filled average l).1 in
      let (raised, quiet, same_positions, same_manager) =
        update_order-calm now id state broker filled average l calm in
      let reached =
        record_fill_reaches now i id broker filled average state l db raised some_filled priced in
      let sale = record_sell now i.ticker i.order_db_id filled average l1.positions in
      let same : record_position now i filled average l1 ≡ (sale.0, with_positions sale.1 l1) =
        record_position_sell now i filled average l1 side (same_manager ∙ manager) in
      subst
        (λ p.
          let it = record_sell now i.ticker i.order_db_id filled average p in
          let after = record_fill now i broker filled (some average) state l in
          (after.0 ≡ it.0)
          × (after.1.positions ≡ it.1)
          × (after.1.order_faults ≡ [])
          × (after.1.has_position_manager ≡ true))
        same_positions
        (subst
          (λ after.
            (after.0 ≡ sale.0)
            × (after.1.positions ≡ sale.1)
            × (after.1.order_faults ≡ [])
            × (after.1.has_position_manager ≡ true))
          (sym (reached ∙ same)) (refl, refl, quiet, same_manager ∙ manager))

  -- What a fill that names no filled quantity or no price is answered, and any other fill of an order
  -- whose sale is recorded already.
  abbrev pub replayed : F → Option F → AccountingOutcome
  replayed filled average = if le filled nought then nothing_filled else elim average [
    | none ↦ unaccounted
    | some a ↦ if le a nought then unaccounted else accounted none
  ]

  -- Of a sell order that has its row, with databases that answer and a position manager: where its
  -- ticker has one open position, which is the only row with its id, and no position is closed by the
  -- order yet, once record_fill has got a fill of the whole position at a price above nothing, recording
  -- a fill of the order again, whatever it says, changes no position; it is answered as rejected where
  -- its quantity is not above nothing, as not accounted where it has no price above nothing, and as
  -- accounted otherwise.
  pub record_fill-sells_once :
      (now now2 : ℕ) (i : Intent F) (id : ℕ) (broker broker2 : Option ℕ)
      (filled filled2 average : F) (average2 : Option F) (state state2 : OrderState) (l : Ledgers F)
      (r : LivePosition F)
      → i.side ≡ OrderSide.sell
      → i.order_db_id ≡ some id
      → l.has_position_manager ≡ true
      → l.order_faults ≡ []
      → l.positions.faults ≡ []
      → keep (is_open_on i.ticker) l.positions.rows ≡ r ∷ []
      → keep (λ x. x.id == r.id) l.positions.rows ≡ r ∷ []
      → keep (is_closed_by id) l.positions.rows ≡ []
      → le filled nought ≡ false
      → le average nought ≡ false
      → lt (lit 1 9) (fabs (sub r.quantity filled)) ≡ false
      → let first = (record_fill now i broker filled (some average) state l).1 in
        let again = record_fill now2 i broker2 filled2 average2 state2 first in
        (again.0 ≡ replayed filled2 average2) × (again.1.positions.rows ≡ first.positions.rows)
  unfolding record_fill
  record_fill-sells_once now now2 i id broker broker2 filled filled2 average average2 state state2 l
        r side db manager calm quiet only own fresh some_filled priced whole =
      let (answered, sold, calm1, manager1) =
        record_fill_sell now i id broker filled average state l side db manager calm some_filled
          priced in
      let first = (record_fill now i broker filled (some average) state l).1 in
      elim (Bool-cases (le filled2 nought)) [
        | inl e ↦ rw (record_fill, e) (refl, refl)
        | inr e ↦ elim (Option-cases average2) [
          | inl g ↦ rw (record_fill, e, g) (refl, refl)
          | inr (a, g) ↦ elim (Bool-cases (le a nought)) [
            | inl h ↦ rw (record_fill, e, g, h) (refl, refl)
            | inr h ↦
                let (again, left, calm2, manager2) =
                  record_fill_sell now2 i id broker2 filled2 a state2 first side db manager1 calm1 e
                    h in
                let told : replayed filled2 (some a) ≡ accounted none = rw (e, h) refl in
                let (twice, same) =
                  subst
                    (λ o.
                      let q = (record_sell now i.ticker o filled average l.positions).1 in
                      ((record_sell now2 i.ticker o filled2 a q).0 ≡ accounted none)
                      × ((record_sell now2 i.ticker o filled2 a q).1.rows ≡ q.rows))
                    (sym db)
                    (record_sell-once now now2 i.ticker id filled filled2 average a l.positions r
                      quiet only own fresh whole) in
                let (answer, rows) =
                  subst
                    (λ q.
                      ((record_sell now2 i.ticker i.order_db_id filled2 a q).0 ≡ accounted none)
                      × ((record_sell now2 i.ticker i.order_db_id filled2 a q).1.rows ≡ q.rows))
                    (sym sold) (twice, same) in
                subst
                  (λ o.
                    let again = record_fill now2 i broker2 filled2 o state2 first in
                    (again.0 ≡ replayed filled2 o)
                    × (again.1.positions.rows ≡ first.positions.rows))
                  (sym g) (again ∙ answer ∙ sym told, ap (λ p. p.rows) left ∙ rows)
          ]
        ]
      ]
