-- ===== src/Services/Outcomes/Round.antt =====
-- A scan of src/bist_bot/services/signal_outcome_tracker.py.
use bist_bot.Common.{
  ℕ, ◌+◌, ◌-◌, ◌/◌, Bool, Option, none, some, List, [], ◌∷◌, ◌++◌, if◌then◌else◌, ◌==◌, leb, ◌||◌,
  any, keep, is_some, Dict, lookup, insert, erase,
}
use bist_bot.Common.Int.{ℤ, pos, neg}
use bist_bot.Common.Floats.{Floats, Decimals, nought}
use bist_bot.Risk.Money.{round_trip_cost}
use bist_bot.Services.Scans.{ScanSignal, current_prices}
use bist_bot.Services.Outcomes.Files.{
  SignalOutcome, OutcomeSettings, Tracked, OutcomeRow, Outcomes, Frame, is_al,
}
use bist_bot.Services.Outcomes.Hits.{
  categorize, tracked_from_signal, frame_of, update_mfe_mae, signal_outcome_of, exit_price_of,
}

-- `int(seconds // 60)`, which rounds down.
abbrev pub whole_minutes : ℕ → ℕ → ℤ
whole_minutes now entry =
    if leb entry now then pos ((now - entry) / 60) else neg (pos ((entry - now + 59) / 60))

module _ {F : Type 0} ⦃fl : Floats F⦄ ⦃dc : Decimals F⦄ where
  open fl use {le, sub, mul, round}

  unfoldable pub outcome_row :
      OutcomeSettings F → ℕ → Tracked F → F → ℕ → SignalOutcome → OutcomeRow F
  outcome_row settings ticker p price now hit =
      let exit_price = exit_price_of hit p price in
      let gross = mul (sub exit_price p.entry_price) p.quantity in
      let cost =
        round_trip_cost settings.costs (mul p.entry_price p.quantity) (mul exit_price p.quantity) in
      record {
        signal_id = p.signal_id;
        ticker = ticker;
        score = p.score;
        entry_ts = p.entry_ts;
        entry_price = p.entry_price;
        stop = p.stop;
        target = p.target;
        exit_price = exit_price;
        exit_ts = now;
        outcome = hit;
        holding_min = whole_minutes now p.entry_ts;
        mfe_pct = p.mfe_pct;
        mae_pct = p.mae_pct;
        gross_pnl = round gross 2;
        net_pnl = round (sub gross cost) 2;
      }

  -- What the loop makes of one position: its row, if it is closed.
  unfoldable pub due_row_of :
      OutcomeSettings F → Dict (Frame F) → Dict F → ℕ → Bool → ℕ → Tracked F → Option (OutcomeRow F)
  unfolding outcome_row
  due_row_of settings frames prices now eod ticker p = elim (lookup ticker prices) [
    | none ↦ none
    | some price ↦
        if le price nought
        then none
        else elim (signal_outcome_of settings p (frame_of ticker frames) price now eod) [
          | none ↦ none
          | some hit ↦ some (outcome_row settings ticker p price now hit)
        ]
  ]

  -- The loop over a snapshot of the items, with the dictionary that it deletes from.
  unfoldable pub close_tracked :
      (ℕ → Tracked F → Option (OutcomeRow F))
      → Dict (Tracked F)
      → Dict (Tracked F)
      → List (OutcomeRow F) × Dict (Tracked F)
  close_tracked row [] positions = ([], positions)
  close_tracked row ((ticker, p) ∷ items) positions = elim (row ticker p) [
    | none ↦ close_tracked row items positions
    | some r ↦
        let (rows, left) = close_tracked row items (erase ticker positions) in (r ∷ rows, left)
  ]

  unfoldable pub open_tracked :
      (ℕ → Bool) → List (ScanSignal F) → Dict (Tracked F) → Dict (Tracked F)
  open_tracked closed [] positions = positions
  open_tracked closed (s ∷ signals) positions = open_tracked closed signals (
      if is_some (lookup s.ticker positions) || closed s.ticker
      then positions
      else insert s.ticker (tracked_from_signal s) positions)

  -- The rows of signals that are in the database.
  unfoldable pub updates_of : List (OutcomeRow F) → List (ℕ × SignalOutcome × F)
  updates_of [] = []
  updates_of (r ∷ rows) = elim r.signal_id [
    | none ↦ updates_of rows
    | some id ↦ (id, r.outcome, r.exit_price) ∷ updates_of rows
  ]

  abbrev pub with_batch :
      List (ℕ × SignalOutcome × F)
      → List (List (ℕ × SignalOutcome × F))
      → List (List (ℕ × SignalOutcome × F))
  with_batch [] sent = sent
  with_batch (u ∷ us) sent = sent ++ ((u ∷ us) ∷ [])

  abbrev pub closes_of : Dict (Frame F) → Dict (Option F)
  closes_of [] = []
  closes_of ((ticker, f) ∷ frames) = (ticker, f.close) ∷ closes_of frames

  -- The part of `process_scan` under its lock.
  unfoldable pub scan_locked :
      OutcomeSettings F
      → List (ScanSignal F)
      → Dict (Frame F)
      → ℕ
      → Bool
      → Outcomes F
      → List (OutcomeRow F) × Outcomes F
  scan_locked settings signals frames now eod s =
      let positions = update_mfe_mae frames s.positions in
      let prices = current_prices signals (closes_of frames) in
      let (closed, left) =
        close_tracked (due_row_of settings frames prices now eod) positions positions in
      let candidates =
        keep
          (λ sig.
            is_al
              (categorize sig.signal_type sig.score sig.buy_threshold settings.max_signal_score))
          signals in
      (
        closed,
        record s {
          positions = open_tracked (λ t. any (λ r. r.ticker == t) closed) candidates left;
          closed_rows = s.closed_rows ++ closed;
          updates = with_batch (updates_of closed) s.updates;
        },
      )

  unfoldable pub track_scan :
      OutcomeSettings F
      → List (ScanSignal F)
      → Dict (Frame F)
      → ℕ
      → Bool
      → Outcomes F
      → List (OutcomeRow F) × Outcomes F
  track_scan settings signals frames now eod s =
      if settings.outcome_tracking_enabled
      then scan_locked settings signals frames now eod s
      else ([], s)
