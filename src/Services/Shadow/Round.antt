-- ===== src/Services/Shadow/Round.antt =====
-- A scan and the daily summary of src/bist_bot/services/shadow_trade_service.py.
use bist_bot.Common.{
  ℕ, ◌+◌, Bool, true, false, Option, none, some, List, [], ◌∷◌, ◌++◌, if◌then◌else◌, ◌==◌, leb, not,
  ◌||◌, any, keep, length, Dict,
}
use bist_bot.Common.Int.{pos}
use bist_bot.Common.Floats.{Floats, nought}
use bist_bot.Services.Scans.{ScanSignal, current_prices}
use bist_bot.Services.Shadow.Files.{ShadowSettings, ClosedRow, Shadow, Summary}
use bist_bot.Services.Shadow.Due.{close_due_positions}
use bist_bot.Services.Shadow.Opened.{
  is_in_cooldown, is_shadow_candidate, ledger_close_rows, open_candidates,
}

module _ {F : Type 0} ⦃fl : Floats F⦄ where
  open fl use {lit, lt, le, eq, add, sub, mul, div, round, of_int}

  abbrev pub is_closed_now : List (ClosedRow F) → ℕ → Bool
  is_closed_now closed ticker = any (λ row. row.ticker == ticker) closed

  unfoldable pub process_scan :
      ShadowSettings F
      → (ℕ → Bool)
      → List (ScanSignal F)
      → Dict (Option F)
      → ℕ
      → Shadow F
      → Option (List (ClosedRow F) × Shadow F)
  process_scan settings writes signals market_data now s =
      if not settings.shadow_enabled
      then some ([], s)
      else elim (close_due_positions s.positions (current_prices signals market_data) now signals) [
        | none ↦ none
        | some (closed, left) ↦
            let (positions, ledger) =
              open_candidates settings writes
                (λ t. is_closed_now closed t || is_in_cooldown settings s.closed_rows now t)
                (keep (is_shadow_candidate settings) signals) (left, s.ledger) in
            some (
              closed,
              record s {
                positions = positions;
                closed_rows = s.closed_rows ++ closed;
                ledger = ledger_close_rows writes closed ledger;
              },
            )
      ]

  unfoldable pub recent_closed : ℕ → List (ClosedRow F) → List (ClosedRow F)
  recent_closed now rows = keep (λ row. leb now (row.exit_time + 86_400)) rows

  unfoldable pub sum_pnl : List (ClosedRow F) → F → F
  sum_pnl [] total = total
  sum_pnl (row ∷ rows) total = sum_pnl rows (add total row.pnl_pct)

  unfoldable pub summary_of : Shadow F → List (ClosedRow F) → Summary F
  unfolding sum_pnl
  summary_of s recent =
      let count = of_int (pos (length recent)) in
      record {
        open_count = length s.positions;
        closed_count = length recent;
        avg_pnl = div (sum_pnl recent nought) count;
        win_rate =
            mul (div (of_int (pos (length (keep (λ row. lt nought row.pnl_pct) recent)))) count)
              (lit 100 0);
      }

  -- `local_date` is the date in Istanbul, and `send_message` the notifier's answer.
  unfoldable pub maybe_send_daily_summary :
      ShadowSettings F
      → (ℕ → ℕ)
      → (Summary F → Bool)
      → ℕ
      → List (ClosedRow F)
      → Shadow F
      → Bool × Shadow F
  unfolding recent_closed
  maybe_send_daily_summary settings local_date send_message now [] s = (false, s)
  maybe_send_daily_summary settings local_date send_message now (row ∷ rows) s =
      let recent = recent_closed now s.closed_rows in
      if not settings.shadow_enabled
        || (elim s.last_sent_date [ none ↦ false | some sent ↦ sent == local_date now ])
      then (false, s)
      else elim recent [
        | [] ↦ (false, s)
        | r ∷ rs ↦
            if send_message (summary_of s (r ∷ rs))
            then (true, record s { last_sent_date = some (local_date now) })
            else (false, s)
      ]
