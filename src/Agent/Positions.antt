-- ===== src/Agent/Positions.antt =====
-- src/bist_bot/agent/position_manager.py: the table of live positions. A connection to the database
-- fails when the head of `faults` says so. The columns that no modelled call reads (the signal, the
-- settlement date, the audit log) are left out.
pub mod Counts
pub mod Closed
pub mod Listed
use bist_bot.Common.{
  ℕ, ◌+◌, ◌/◌, Bool, true, false, Option, none, some, List, [], ◌∷◌, ◌++◌, if◌then◌else◌, ◌==◌, leb,
  ◌&&◌, keep, length,
}
use bist_bot.Common.Floats.{Floats, Decimals, nought}
use bist_bot.Risk.Money.{calc_pnl}

pub data PositionState : Type 0 where
  entry_ordered entry_sent entry_partial position_open position_settled exit_ordered exit_sent
        closed rejected :
      PositionState

-- `ExitReason`, and the text RECONCILED_EXIT, which the accounting writes in its place.
pub data ExitReason : Type 0 where
  stop_hit target_hit trailing_stop manual emergency signal_reversal max_holding_days
        reconciled_exit :
      ExitReason

abbrev pub is_position_open : PositionState → Bool
is_position_open PositionState.position_open = true
is_position_open _ = false

abbrev pub is_closed : PositionState → Bool
is_closed PositionState.closed = true
is_closed _ = false

-- A row of `live_positions`; the times are in seconds.
pub record LivePosition (F : Type 0) : Type 0 where
  pub id : ℕ
  pub ticker : ℕ
  pub entry_order_id : ℕ
  pub entry_price : F
  pub quantity : F
  pub entry_time : ℕ
  pub stop_loss : F
  pub target_price : F
  pub state : PositionState
  pub exit_price : Option F
  pub exit_time : Option ℕ
  pub exit_reason : Option ExitReason
  pub exit_order_id : Option ℕ
  pub realized_pnl : Option F
  pub realized_pnl_pct : Option F
  pub fees_paid : F
  pub updated_at : ℕ

pub record Positions (F : Type 0) : Type 0 where
  pub rows : List (LivePosition F)
  pub next_id : ℕ
  pub faults : List Bool

abbrev pub rest_of : List Bool → List Bool
rest_of [] = []
rest_of (b ∷ bs) = bs

module _ {F : Type 0} where
  -- The next connection: whether it fails, and the state after it.
  abbrev pub fails : Positions F → Bool
  fails p = elim p.faults [ [] ↦ false | b ∷ bs ↦ b ]

  abbrev pub connected : Positions F → Positions F
  connected p = record p { faults = rest_of p.faults }

  unfoldable pub find : (LivePosition F → Bool) → List (LivePosition F) → Option (LivePosition F)
  find test [] = none
  find test (r ∷ rs) = if test r then some r else find test rs

  unfoldable pub amend :
      (LivePosition F → Bool)
      → (LivePosition F → LivePosition F)
      → List (LivePosition F)
      → List (LivePosition F)
  amend test f [] = []
  amend test f (r ∷ rs) = (if test r then f r else r) ∷ amend test f rs

  abbrev pub is_open_on : ℕ → LivePosition F → Bool
  is_open_on ticker r = (r.ticker == ticker) && is_position_open r.state

  unfoldable pub get_position : ℕ → Positions F → Option (LivePosition F) × Positions F
  unfolding find
  get_position ticker p = (if fails p then none else find (is_open_on ticker) p.rows, connected p)

  pub insert_by_entry : LivePosition F → List (LivePosition F) → List (LivePosition F)
  insert_by_entry r [] = r ∷ []
  insert_by_entry r (s ∷ ss) =
      if leb s.entry_time r.entry_time then r ∷ s ∷ ss else s ∷ insert_by_entry r ss

  -- `ORDER BY entry_time DESC`
  pub sort_by_entry : List (LivePosition F) → List (LivePosition F)
  unfolding insert_by_entry
  sort_by_entry [] = []
  sort_by_entry (r ∷ rs) = insert_by_entry r (sort_by_entry rs)

  unfoldable pub get_open_positions : Positions F → List (LivePosition F) × Positions F
  unfolding sort_by_entry
  get_open_positions p = (
    if fails p then [] else sort_by_entry (keep (λ r. is_position_open r.state) p.rows),
    connected p,
  )

  -- The days are those of UTC.
  unfoldable pub get_daily_trade_count : ℕ → Positions F → ℕ × Positions F
  get_daily_trade_count now p =
      let day = now / 86_400 in
      (if fails p then 0 else length (keep (λ r. r.entry_time / 86_400 == day) p.rows), connected p)

module _ {F : Type 0} ⦃fl : Floats F⦄ where
  open fl use {round}

  -- `open_position`; `true` stands for the record that it returns.
  unfoldable pub open_position : ℕ → ℕ → ℕ → F → F → F → F → Positions F → Bool × Positions F
  open_position now ticker entry_order_id entry_price quantity stop_loss target_price p =
      if fails p then (false, connected p) else (
        true,
        record (connected p) {
          rows =
              p.rows
              ++ (record {
                id = p.next_id;
                ticker = ticker;
                entry_order_id = entry_order_id;
                entry_price = entry_price;
                quantity = quantity;
                entry_time = now;
                stop_loss = stop_loss;
                target_price = target_price;
                state = PositionState.position_open;
                exit_price = none;
                exit_time = none;
                exit_reason = none;
                exit_order_id = none;
                realized_pnl = none;
                realized_pnl_pct = none;
                fees_paid = nought;
                updated_at = now;
              }
                  ∷ []);
          next_id = p.next_id + 1;
        },
      )

  -- `_update_stop_loss`
  unfoldable pub update_stop_loss : ℕ → ℕ → F → Positions F → Positions F
  unfolding amend
  update_stop_loss now position_id new_stop p =
      if fails p then connected p else record (connected p) {
        rows =
            amend (λ r. (r.id == position_id) && is_position_open r.state)
              (λ r. record r { stop_loss = round new_stop 4; updated_at = now }) p.rows;
      }

module _ {F : Type 0} ⦃fl : Floats F⦄ ⦃dc : Decimals F⦄ where
  open fl use {round, eq, lit}
  open dc use {of_float, to_float, dsub, ddiv, dmul}

  -- The profit in percent of the entry price.
  pub pnl_pct : F → F → F
  pnl_pct exit_price entry_price =
      if eq entry_price nought
      then nought
      else round
          (to_float (
            dmul (ddiv (dsub (of_float exit_price) (of_float entry_price)) (of_float entry_price))
              (of_float (lit 100 0))))
          2

  unfoldable pub closed_row :
      ℕ → F → ExitReason → Option ℕ → F → LivePosition F → LivePosition F → LivePosition F
  unfolding pnl_pct calc_pnl
  closed_row now exit_price exit_reason exit_order_id fees_paid read r = record r {
    state = PositionState.closed;
    exit_price = some exit_price;
    exit_time = some now;
    exit_reason = some exit_reason;
    exit_order_id = exit_order_id;
    realized_pnl = some (round (calc_pnl exit_price read.entry_price read.quantity fees_paid) 2);
    realized_pnl_pct = some (round (pnl_pct exit_price read.entry_price) 2);
    fees_paid = fees_paid;
    updated_at = now;
  }

  -- `close_position`, which catches every exception and returns nothing.
  unfoldable pub close_position : ℕ → ℕ → F → ExitReason → Option ℕ → F → Positions F → Positions F
  unfolding closed_row amend find
  close_position now position_id exit_price exit_reason exit_order_id fees_paid p =
      if fails p then connected p else elim (find (λ r. r.id == position_id) p.rows) [
        | none ↦ connected p
        | some read ↦ record (connected p) {
          rows =
              amend (λ r. r.id == position_id)
                (closed_row now exit_price exit_reason exit_order_id fees_paid read) p.rows;
        }
      ]
