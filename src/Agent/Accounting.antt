-- ===== src/Agent/Accounting.antt =====
-- src/bist_bot/execution/reconcile_accounting.py, with update_order of
-- src/bist_bot/db/repositories/orders_repository.py: what a reconciled fill does to the two ledgers.
use bist_bot.Common.{
  ℕ, Bool, true, false, Option, none, some, List, [], ◌∷◌, if◌then◌else◌, ◌==◌, not, ◌&&◌, is_some,
  or_else, keep, length,
}
use bist_bot.Common.Floats.{Floats, Decimals, nought, fabs}
use bist_bot.Execution.Order.{OrderSide, OrderState}
use bist_bot.Execution.Intents.{Intent, IntentStatus, SnapshotText, holds_value}
use bist_bot.Execution.Algolab.{AccountingOutcome}
use bist_bot.Agent.Positions.{
  Positions, ExitReason, is_closed, fails, connected, rest_of, open_position, get_position,
  close_position,
}

-- The columns of `orders` that `update_order` writes.
pub record OrderRow (F : Type 0) : Type 0 where
  pub id : ℕ
  pub state : OrderState
  pub broker_order_id : Option ℕ
  pub filled_qty : F
  pub avg_fill_price : Option F
  pub updated_at : ℕ

-- The two ledgers; `order_faults` tells which sessions on the orders fail.
pub record Ledgers (F : Type 0) : Type 0 where
  pub orders : List (OrderRow F)
  pub order_faults : List Bool
  pub positions : Positions F
  pub has_position_manager : Bool

abbrev pub accounted : Option ℕ → AccountingOutcome
accounted position_id = record {
  success = true;
  status = IntentStatus.ack;
  position_id = position_id;
}

abbrev pub unaccounted : AccountingOutcome
unaccounted = record { success = false; status = IntentStatus.ack_unaccounted; position_id = none }

abbrev pub nothing_filled : AccountingOutcome
nothing_filled = record { success = true; status = IntentStatus.rejected; position_id = none }

module _ {F : Type 0} where
  pub written_row : ℕ → OrderState → Option ℕ → F → F → OrderRow F → OrderRow F
  written_row now state broker_order_id filled_qty avg_fill_price r = record r {
    state = state;
    broker_order_id = if is_some broker_order_id then broker_order_id else r.broker_order_id;
    filled_qty = filled_qty;
    avg_fill_price = some avg_fill_price;
    updated_at = now;
  }

  pub write_order : ℕ → (OrderRow F → OrderRow F) → List (OrderRow F) → List (OrderRow F)
  write_order order_id f [] = []
  write_order order_id f (r ∷ rs) =
      if r.id == order_id then f r ∷ rs else r ∷ write_order order_id f rs

  -- `update_order`, as the accounting calls it: whether it raises, and the ledgers after it.
  unfoldable pub update_order : ℕ → ℕ → OrderState → Option ℕ → F → F → Ledgers F → Bool × Ledgers F
  unfolding written_row write_order
  update_order now order_id state broker_order_id filled_qty avg_fill_price l =
      let l1 = record l { order_faults = rest_of l.order_faults } in
      if (elim l.order_faults [ [] ↦ false | b ∷ bs ↦ b ]) then (true, l1) else (
        false,
        record l1 {
          orders =
              write_order order_id (written_row now state broker_order_id filled_qty avg_fill_price)
                l.orders;
        },
      )

  -- `_find_closed_by_exit_order`: exactly one closed position has this exit order.
  unfoldable pub find_closed_by_exit_order : ℕ → Positions F → Bool × Positions F
  find_closed_by_exit_order order_db_id p = (
    not (fails p)
        && (length (keep (λ r. holds_value r.exit_order_id order_db_id && is_closed r.state) p.rows)
            == 1),
    connected p,
  )

  abbrev pub with_positions : Positions F → Ledgers F → Ledgers F
  with_positions p l = record l { positions = p }

module _ {F : Type 0} ⦃fl : Floats F⦄ ⦃dc : Decimals F⦄ where
  open fl use {lit, lt, le, eq, sub}

  -- `x` where Python takes it for true.
  abbrev pub nonzero : Option F → Option F
  nonzero none = none
  nonzero (some x) = if eq x nought then none else some x

  abbrev pub levels_of : SnapshotText F → Option (F × F)
  levels_of (SnapshotText.levels stop target) = elim (nonzero stop) [
    | none ↦ none
    | some s ↦ elim (nonzero target) [ none ↦ none | some t ↦ some (s, t) ]
  ]
  levels_of _ = none

  -- The BUY path, with the levels of the snapshot.
  unfoldable pub record_buy :
      ℕ → ℕ → Option ℕ → F → F → F → F → Positions F → AccountingOutcome × Positions F
  unfolding get_position open_position
  record_buy now ticker order_db_id filled average stop target p =
      let (existing, p1) = get_position ticker p in
      let (opened, p2) =
        open_position now ticker (or_else order_db_id 0) average filled stop target p1 in
      let fresh : AccountingOutcome × Positions F =
        (if opened then accounted none else unaccounted, p2) in
      elim existing [
        | none ↦ fresh
        | some r ↦
            if holds_value order_db_id r.entry_order_id then (accounted (some r.id), p1) else fresh
      ]

  unfoldable pub record_buy_of :
      ℕ → ℕ → Option ℕ → F → F → SnapshotText F → Positions F → AccountingOutcome × Positions F
  unfolding record_buy
  record_buy_of now ticker order_db_id filled average snapshot p = elim (levels_of snapshot) [
    | none ↦ (unaccounted, p)
    | some (stop, target) ↦ record_buy now ticker order_db_id filled average stop target p
  ]

  -- The SELL path; a position that is already closed by this order is accounted.
  unfoldable pub record_sell :
      ℕ → ℕ → Option ℕ → F → F → Positions F → AccountingOutcome × Positions F
  unfolding get_position find_closed_by_exit_order close_position
  record_sell now ticker order_db_id filled average p =
      let (existing, p1) = get_position ticker p in
      elim existing [
        | none ↦ elim order_db_id [
          | none ↦ (unaccounted, p1)
          | some id ↦
              let (closed, p2) = find_closed_by_exit_order id p1 in
              (if closed then accounted none else unaccounted, p2)
        ]
        | some r ↦ if lt (lit 1 9) (fabs (sub r.quantity filled)) then (unaccounted, p1) else (
          accounted (some r.id),
          close_position now r.id average ExitReason.reconciled_exit order_db_id nought p1,
        )
      ]

  unfoldable pub record_side :
      ℕ
      → OrderSide
      → ℕ
      → Option ℕ
      → F
      → F
      → SnapshotText F
      → Positions F
      → AccountingOutcome × Positions F
  unfolding record_buy_of record_sell
  record_side now OrderSide.buy ticker order_db_id filled average snapshot p =
      record_buy_of now ticker order_db_id filled average snapshot p
  record_side now OrderSide.sell ticker order_db_id filled average snapshot p =
      record_sell now ticker order_db_id filled average p

  -- The ledgers once the order's row is written.
  unfoldable pub record_position : ℕ → Intent F → F → F → Ledgers F → AccountingOutcome × Ledgers F
  unfolding record_side
  record_position now i filled average l =
      if l.has_position_manager
      then (let (outcome, p) =
            record_side now i.side i.ticker i.order_db_id filled average i.signal_snapshot
              l.positions in
          (outcome, with_positions p l))
      else (unaccounted, l)

  -- `record_fill`, for an intent that exists.
  unfoldable pub record_fill :
      ℕ
      → Intent F
      → Option ℕ
      → F
      → Option F
      → OrderState
      → Ledgers F
      → AccountingOutcome × Ledgers F
  unfolding record_position update_order
  record_fill now i broker_order_id filled avg_fill_price broker_state l =
      if le filled nought then (nothing_filled, l) else elim avg_fill_price [
        | none ↦ (unaccounted, l)
        | some average ↦ if le average nought then (unaccounted, l) else elim i.order_db_id [
          | none ↦ record_position now i filled average l
          | some id ↦
              let (raised, l1) =
                update_order now id broker_state broker_order_id filled average l in
              if raised then (unaccounted, l1) else record_position now i filled average l1
        ]
      ]

  -- `record_fill` as the live broker calls it; an intent that is missing is an empty dict, which names
  -- no order and has no snapshot.
  unfoldable pub accounting_service :
      ℕ
      → Option (Intent F)
      → Option ℕ
      → F
      → Option F
      → OrderState
      → Ledgers F
      → AccountingOutcome × Ledgers F
  unfolding record_fill
  accounting_service now none broker_order_id filled avg_fill_price broker_state l =
      (if le filled nought then nothing_filled else unaccounted, l)
  accounting_service now (some i) broker_order_id filled avg_fill_price broker_state l =
      record_fill now i broker_order_id filled avg_fill_price broker_state l
