-- ===== src/Services/Tests.antt =====
-- Examples for the modules of the services.
use mathlib.Core.Option
use bist_bot.Common.{ℕ, ◌≡◌, refl, ◌<◌, true, false, none, some, List, [], ◌∷◌, ◌++◌, arith, Option}
use bist_bot.Common.Int.{pos}
use bist_bot.Common.Floats.{Fixed, fixed_floats, unit_of}
use bist_bot.Execution.Executor.{SignalType}
use bist_bot.Services.Ledger.{
  Kind, CloseReason, Ledger, Opening, Closing, Target, opened_row, record_open, closed_entry,
  close_entry, get_open,
}
use bist_bot.Services.Ledger.RoundTrip.{close_entry-record_open}
use bist_bot.Services.Scans.{ScanSignal, current_prices}
use bist_bot.Services.Shadow.Due.{close_due_positions}
use bist_bot.Services.Shadow.Opened.{
  open_candidates, open_candidate, is_in_cooldown, is_shadow_candidate,
}
use bist_bot.Services.Shadow.Files.{ShadowSettings, ClosedRow, Shadow}
use bist_bot.Services.Shadow.Round.{process_scan}
use bist_bot.Services.Entries.{held}
use bist_bot.Services.Shadow.Counts.{pending}
use bist_bot.Services.Shadow.Mirror.{Mirrors, process_scan-Mirrors}

abbrev opening : Opening Fixed
opening = record {
  kind = Kind.shadow;
  ticker = 7;
  signal_type = SignalType.radar;
  score = some (unit_of 16);
  entry_price = unit_of 100;
  entry_time = 0;
  stop_loss = some (unit_of 95);
  target_price = none;
  paper_trade_id = none;
}

abbrev closing : Closing Fixed
closing = record {
  exit_price = unit_of 94;
  exit_time = 60;
  close_reason = CloseReason.stop;
  gross_pnl_pct = none;
  net_pnl_pct = none;
}

-- A paper trade and an older shadow trade of the same ticker.
abbrev table : Ledger Fixed
table = record {
  rows = opened_row (record opening { kind = Kind.paper }) 3 ∷ opened_row opening 5 ∷ [];
  next_id = 8;
}

close_entry-record_open_example :
    let (id, opened) = record_open opening table in
    let (done, after) = close_entry Kind.shadow (Target.by_ticker 7) closing opened in
    (done ≡ true)
    × (get_open none after ≡ get_open none table)
    × (after.rows ≡ table.rows ++ (closed_entry closing (opened_row opening id) ∷ []))
close_entry-record_open_example = close_entry-record_open opening closing none table (omega arith)

abbrev settings : ShadowSettings Fixed
settings = record {
  shadow_enabled = true;
  shadow_min_score = unit_of 15;
  shadow_only_robust = false;
  shadow_cooldown_days = pos 3;
  shadow_holding_days = pos 5;
  initial_capital = unit_of 10_000;
  max_total_risk_pct = unit_of 2;
  robust_tickers = λ t. false;
}

abbrev radar : ℕ → ℕ → ScanSignal Fixed
radar ticker price = record {
  ticker = ticker;
  signal_type = SignalType.radar;
  score = unit_of 16;
  buy_threshold = unit_of 20;
  price = unit_of price;
  stop_loss = unit_of 95;
  target_price = unit_of 120;
  timestamp = 0;
  position_size = none;
  agreement_ratio = none;
  reasons = [];
  record_id = none;
}

-- A position in the ticker 7, and its row in the ledger.
abbrev one_position : Shadow Fixed
one_position = record {
  positions =
      (
        7,
        record {
          entry_price = unit_of 100;
          entry_time = 0;
          stop = unit_of 95;
          target = unit_of 120;
          score = unit_of 16;
          agreement_ratio = none;
          reasons = [];
          holding_days = 5;
          quantity = unit_of 40;
        },
      )
      ∷ [];
  closed_rows = [];
  last_sent_date = none;
  ledger = record { rows = opened_row opening 1 ∷ []; next_id = 2 };
}

abbrev scanned : Option (List (ClosedRow Fixed) × Shadow Fixed)
scanned =
    process_scan settings (λ t. true) (radar 7 94 ∷ radar 8 101 ∷ radar 8 102 ∷ []) [] 10
      one_position

abbrev tickers_of : List (ClosedRow Fixed) × Shadow Fixed → ℕ × ℕ × ℕ
tickers_of r = (held 7 r.1.positions, held 8 r.1.positions, pending 7 r.0)

-- The ticker 7 is stopped out and not opened again; two signals of the ticker 8 open one position.
scanned_tickers : Option.map tickers_of scanned ≡ some (0, 1, 1)
unfolding process_scan close_due_positions current_prices open_candidates open_candidate
    is_in_cooldown is_shadow_candidate
scanned_tickers = refl

one_position-Mirrors : Mirrors one_position
one_position-Mirrors = record {
  keyed = omega arith;
  same = λ t. ground arith;
  single = λ t. ground arith;
  priced = (refl, tt);
}

process_scan-Mirrors_example :
    (closed : List (ClosedRow Fixed)) × (s' : Shadow Fixed) × (scanned ≡ some (closed, s'))
    × Mirrors s'
    × ((t : ℕ) → 0 < pending t closed → held t s'.positions ≡ 0)
process_scan-Mirrors_example =
    process_scan-Mirrors settings (λ t. true) (radar 7 94 ∷ radar 8 101 ∷ radar 8 102 ∷ []) [] 10
      one_position (λ t. refl) (refl, (refl, (refl, tt))) one_position-Mirrors
