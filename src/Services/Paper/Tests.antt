-- ===== src/Services/Paper/Tests.antt =====
-- An update of the paper trades at a concrete input: the first trade is at its stop, the second is
-- closed, the third has no price, and the fourth is held.
use bist_bot.Common.{ℕ, ◌≡◌, refl, true, false, none, some, [], ◌∷◌, arith}
use bist_bot.Common.Int.{pos}
use bist_bot.Common.Floats.{Fixed, fixed_floats, fixed_decimals, unit_of}
use bist_bot.Execution.Executor.{SignalType}
use bist_bot.Market.Calendar.{Calendar, Moment, is_bist_holiday, bist_close_time}
use bist_bot.Services.Scans.{ScanSignal}
use bist_bot.Services.Paper.Table.{
  Direction, PaperTrade, PaperSettings, PaperTrades, Fetched, get_open_paper_trades,
  record_price_skip, price_of, is_eod,
}
use bist_bot.Services.Paper.Reasons.{reason_to_close, trail_stop_of, extreme_of}
use bist_bot.Services.Paper.Update.{
  close_trade, settle_trade, update_trade, update_trades, update_open_trades,
}
use bist_bot.Services.Paper.Settled.{Rowwise, Settles, update_open_trades-Settles}

abbrev calendar : Calendar
calendar = record {
  tr_holidays = λ d. false;
  half_day_dates = λ d. false;
  market_open_hour = 10;
  market_close_hour = 18;
  session_close_buffer_minutes = 5;
  market_half_day_hour = 13;
  eod_close_delay_minutes = pos 10;
}

abbrev settings : PaperSettings Fixed
settings = record {
  paper_mode = true;
  paper_cooldown_days = pos 5;
  trailing_stop_enabled = true;
  trailing_stop_pct = unit_of 2;
  paper_close_skip_warn_threshold = pos 1;
  costs = record { commission_pct = pos 2; stamp_tax_pct = pos 0; bsmv_pct = pos 0 };
}

abbrev trade : ℕ → ℕ → PaperTrade Fixed
trade id ticker = record {
  id = id;
  ticker = ticker;
  signal_type = some SignalType.buy;
  signal_price = unit_of 100;
  signal_time = 0;
  stop_loss = some (unit_of 95);
  target_price = some (unit_of 120);
  score = pos 25;
  regime = 0;
  direction = some Direction.long;
  is_closed = false;
  actual_profit_pct = none;
  exit_price = none;
  close_reason = none;
  close_time = none;
}

abbrev state : PaperTrades Fixed
state = record {
  trades = trade 1 7 ∷ (record (trade 2 7) { is_closed = true }) ∷ trade 3 8 ∷ trade 5 9 ∷ [];
  next_id = 6;
  ledger = record { rows = []; next_id = 1 };
  trail_extremes = [];
  price_skip_counts = [];
  price_skip_warned = [];
  alerts = [];
}

abbrev fetched : Fetched Fixed
fetched = record { fetch_single = λ t. none; fetch_all = λ t. none }

abbrev priced : ℕ → ℕ → ScanSignal Fixed
priced ticker price = record {
  ticker = ticker;
  signal_type = SignalType.hold;
  score = unit_of 3;
  buy_threshold = unit_of 20;
  price = unit_of price;
  stop_loss = unit_of 0;
  target_price = unit_of 0;
  timestamp = 0;
  position_size = none;
  agreement_ratio = none;
  reasons = [];
  record_id = none;
}

abbrev noon : Moment
noon = record { date = 1; time = 43_200 }

abbrev after : PaperTrades Fixed
after =
    update_open_trades calendar settings (λ t. true) fetched (priced 7 94 ∷ priced 9 101 ∷ []) noon
      60 state

update_open_trades-Settles_example :
    Rowwise
      (Settles settings
        (price_of (priced 7 94 ∷ priced 9 101 ∷ []) fetched)
        (priced 7 94 ∷ priced 9 101 ∷ [])
        (is_eod calendar noon)
        60)
      state.trail_extremes
      state.trades
      after.trail_extremes
      after.trades
update_open_trades-Settles_example =
    update_open_trades-Settles calendar settings (λ t. true) fetched
      (priced 7 94 ∷ priced 9 101 ∷ []) noon 60 state refl (omega arith)

-- The price of a tick below the stop closes the first, the third is counted and told, and the trail
-- of the fourth follows its price.
after_alerts : after.alerts ≡ (8, 1) ∷ []
unfolding update_open_trades update_trades update_trade settle_trade close_trade record_price_skip
    price_of reason_to_close get_open_paper_trades trail_stop_of extreme_of is_eod is_bist_holiday
    bist_close_time
after_alerts = refl
