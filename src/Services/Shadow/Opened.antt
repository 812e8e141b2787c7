-- ===== src/Services/Shadow/Opened.antt =====
-- The new positions of src/bist_bot/services/shadow_trade_service.py and their rows in the ledger.
use bist_bot.Common.{
  ℕ, ◌+◌, ◌*◌, Bool, false, Option, none, some, List, [], ◌∷◌, if◌then◌else◌, ◌==◌, leb, not, ◌&&◌,
  ◌||◌, any, is_some, or_else, Dict, lookup, insert,
}
use bist_bot.Common.Int.{pos, pos_part, leb_ℤ}
use bist_bot.Common.Floats.{Floats, nought}
use bist_bot.Services.Scans.{ScanSignal}
use bist_bot.Services.Ledger.{Kind, Ledger, Opening, Closing, Target, record_open, close_entry}
use bist_bot.Services.Shadow.Files.{ShadowSettings, ShadowPosition, ClosedRow, is_stop}

module _ {F : Type 0} ⦃fl : Floats F⦄ where
  open fl use {lit, lt, le, eq, add, sub, mul, div, round, of_int}

  -- `ticker in _cooldown_tickers(now)`: a stop that is not older than the days of the setting.
  unfoldable pub is_in_cooldown : ShadowSettings F → List (ClosedRow F) → ℕ → ℕ → Bool
  is_in_cooldown settings rows now ticker =
      not (leb_ℤ settings.shadow_cooldown_days (pos 0))
      && any
          (λ row.
            row.ticker == ticker
            && (is_stop row.hit
                && leb now (row.exit_time + pos_part settings.shadow_cooldown_days * 86_400)))
          rows

  unfoldable pub is_shadow_candidate : ShadowSettings F → ScanSignal F → Bool
  is_shadow_candidate settings s =
      (le settings.shadow_min_score s.score && lt s.score s.buy_threshold)
      && (not settings.shadow_only_robust || settings.robust_tickers s.ticker)

  abbrev pub has_size : Option F → Bool
  has_size none = false
  has_size (some size) = lt nought size

  unfoldable pub entry_from_signal : ShadowSettings F → ScanSignal F → ShadowPosition F
  entry_from_signal settings s =
      let risk_budget =
        mul settings.initial_capital (div settings.max_total_risk_pct (lit 100 0)) in
      record {
        entry_price = s.price;
        entry_time = s.timestamp;
        stop = s.stop_loss;
        target = s.target_price;
        score = s.score;
        agreement_ratio = s.agreement_ratio;
        reasons = s.reasons;
        holding_days =
            if leb_ℤ settings.shadow_holding_days (pos 1)
            then 1
            else pos_part settings.shadow_holding_days;
        quantity =
            if has_size s.position_size
            then or_else s.position_size nought
            else (if lt nought s.stop_loss && lt s.stop_loss s.price
                then div risk_budget (sub s.price s.stop_loss)
                else (if lt nought s.price then div risk_budget s.price else nought));
      }

  abbrev pub some_level : F → Option F
  some_level level = if eq level nought then none else some level

  abbrev pub shadow_opening : ScanSignal F → Opening F
  shadow_opening s = record {
    kind = Kind.shadow;
    ticker = s.ticker;
    signal_type = s.signal_type;
    score = some s.score;
    entry_price = s.price;
    entry_time = s.timestamp;
    stop_loss = some_level s.stop_loss;
    target_price = some_level s.target_price;
    paper_trade_id = none;
  }

  -- `_ledger_record_open`. `writes` says for which tickers the database takes the scan's row; where it
  -- raises, the error is logged.
  unfoldable pub ledger_record_open : (ℕ → Bool) → ScanSignal F → Ledger F → Ledger F
  ledger_record_open writes s l =
      if writes s.ticker then (record_open (shadow_opening s) l).1 else l

  abbrev pub shadow_closing : ClosedRow F → Closing F
  shadow_closing row = record {
    exit_price = row.exit_price;
    exit_time = row.exit_time;
    close_reason = row.hit;
    gross_pnl_pct = some row.pnl_pct;
    net_pnl_pct = none;
  }

  unfoldable pub ledger_close_row : (ℕ → Bool) → ClosedRow F → Ledger F → Ledger F
  ledger_close_row writes row l =
      if writes row.ticker
      then (close_entry Kind.shadow (Target.by_ticker row.ticker) (shadow_closing row) l).1
      else l

  unfoldable pub ledger_close_rows : (ℕ → Bool) → List (ClosedRow F) → Ledger F → Ledger F
  ledger_close_rows writes [] l = l
  ledger_close_rows writes (row ∷ rows) l =
      ledger_close_rows writes rows (ledger_close_row writes row l)

  abbrev pub is_blocked : (ℕ → Bool) → ScanSignal F → Dict (ShadowPosition F) → Bool
  is_blocked blocked s positions = is_some (lookup s.ticker positions) || blocked s.ticker

  -- One round of the loop over the candidates; `blocked` are the tickers that were closed or are in
  -- cooldown.
  unfoldable pub open_candidate :
      ShadowSettings F
      → (ℕ → Bool)
      → (ℕ → Bool)
      → ScanSignal F
      → Dict (ShadowPosition F) × Ledger F
      → Dict (ShadowPosition F) × Ledger F
  open_candidate settings writes blocked s st =
      if is_blocked blocked s st.0
      then st
      else (insert s.ticker (entry_from_signal settings s) st.0, ledger_record_open writes s st.1)

  unfoldable pub open_candidates :
      ShadowSettings F
      → (ℕ → Bool)
      → (ℕ → Bool)
      → List (ScanSignal F)
      → Dict (ShadowPosition F) × Ledger F
      → Dict (ShadowPosition F) × Ledger F
  open_candidates settings writes blocked [] st = st
  open_candidates settings writes blocked (s ∷ signals) st =
      open_candidates settings writes blocked signals (open_candidate settings writes blocked s st)
