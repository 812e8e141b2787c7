-- ===== src/Services/Paper/Queue.antt =====
-- The new trades in src/bist_bot/services/paper_trade_service.py, and what it asks of the
-- table.
use bist_bot.Common.{
  ℕ, ◌+◌, ◌*◌, Bool, true, false, none, some, List, [], ◌∷◌, ◌++◌, if◌then◌else◌, ◌==◌, leb, not,
  ◌&&◌, keep,
}
use bist_bot.Common.Int.{pos, pos_part, leb_ℤ}
use bist_bot.Common.Floats.{Floats}
use bist_bot.Services.Scans.{ScanSignal, is_sell}
use bist_bot.Services.Ledger.{Kind, Opening, record_open}
use bist_bot.Services.Paper.Table.{Direction, PaperTrade, PaperSettings, PaperTrades}

module _ {F : Type 0} ⦃fl : Floats F⦄ where
  open fl use {trunc}

  unfoldable pub get_recent_closed_trades : ℕ → ℕ → ℕ → List (PaperTrade F) → List (PaperTrade F)
  get_recent_closed_trades ticker days now rows =
      keep
        (λ r.
          r.ticker == ticker
          && (r.is_closed
              && (elim r.close_time [ none ↦ false | some t ↦ leb now (t + days * 86_400) ])))
        rows

  unfoldable pub is_in_paper_cooldown : PaperSettings F → ℕ → ℕ → List (PaperTrade F) → Bool
  unfolding get_recent_closed_trades
  is_in_paper_cooldown settings ticker now rows =
      not (leb_ℤ settings.paper_cooldown_days (pos 0))
      && (elim (get_recent_closed_trades ticker (pos_part settings.paper_cooldown_days) now rows) [
        | [] ↦ false
        | r ∷ rs ↦ true
      ])

  -- `add_paper_trade`: the row that it inserts.
  abbrev pub new_trade : ℕ → ℕ → ScanSignal F → PaperTrade F
  new_trade id regime s = record {
    id = id;
    ticker = s.ticker;
    signal_type = some s.signal_type;
    signal_price = s.price;
    signal_time = s.timestamp;
    stop_loss = some s.stop_loss;
    target_price = some s.target_price;
    score = trunc s.score;
    regime = regime;
    direction = some (if is_sell s.signal_type then Direction.short else Direction.long);
    is_closed = false;
    actual_profit_pct = none;
    exit_price = none;
    close_reason = none;
    close_time = none;
  }

  abbrev pub paper_opening : ℕ → ScanSignal F → Opening F
  paper_opening id s = record {
    kind = Kind.paper;
    ticker = s.ticker;
    signal_type = s.signal_type;
    score = some s.score;
    entry_price = s.price;
    entry_time = s.timestamp;
    stop_loss = some s.stop_loss;
    target_price = some s.target_price;
    paper_trade_id = some id;
  }

  -- `_queue_single_signal`, where nothing raises; `regime` is what the frame of the ticker shows.
  unfoldable pub queue_single_signal :
      PaperSettings F → (ℕ → Bool) → (ℕ → ℕ) → ℕ → ScanSignal F → PaperTrades F → PaperTrades F
  queue_single_signal settings writes regime now sig s =
      if is_in_paper_cooldown settings sig.ticker now s.trades then s else record s {
        trades = s.trades ++ (new_trade s.next_id (regime sig.ticker) sig ∷ []);
        next_id = s.next_id + 1;
        ledger =
            if writes s.next_id
            then (record_open (paper_opening s.next_id sig) s.ledger).1
            else s.ledger;
      }

  -- The loop of `queue_actionable_signals`; `raises` are the tickers for which the fetcher or the
  -- database raises before a row is written. The answer is whether none did.
  unfoldable pub queue_signals :
      PaperSettings F
      → (ℕ → Bool)
      → (ℕ → Bool)
      → (ℕ → ℕ)
      → ℕ
      → List (ScanSignal F)
      → PaperTrades F
      → Bool × PaperTrades F
  queue_signals settings writes raises regime now [] s = (true, s)
  queue_signals settings writes raises regime now (sig ∷ signals) s =
      let failed = raises sig.ticker in
      let (fine, s1) =
        queue_signals settings writes raises regime now signals
          (if failed then s else queue_single_signal settings writes regime now sig s) in
      (not failed && fine, s1)

  unfoldable pub queue_actionable_signals :
      PaperSettings F
      → (ℕ → Bool)
      → (ℕ → Bool)
      → (ℕ → ℕ)
      → ℕ
      → List (ScanSignal F)
      → PaperTrades F
      → Bool × PaperTrades F
  queue_actionable_signals settings writes raises regime now signals s =
      if settings.paper_mode
      then queue_signals settings writes raises regime now signals s
      else (false, s)
