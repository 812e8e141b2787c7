-- ===== src/Services/Scans.antt =====
-- What a scan hands to the trackers of src/bist_bot/services: its signals, the last closes of the frames
-- that it fetched, and `_current_prices`, which the trackers share. Times are in seconds.
use bist_bot.Common.{
  ℕ, Bool, true, false, Option, none, some, List, [], ◌∷◌, if◌then◌else◌, Dict, insert,
}
use bist_bot.Common.Floats.{Floats, nought}
use bist_bot.Execution.Executor.{SignalType}

-- The fields of a signal that the trackers read.
pub record ScanSignal (F : Type 0) : Type 0 where
  pub ticker : ℕ
  pub signal_type : SignalType
  pub score : F
  pub buy_threshold : F
  pub price : F
  pub stop_loss : F
  pub target_price : F
  pub timestamp : ℕ
  pub position_size : Option F
  pub agreement_ratio : Option F
  pub reasons : List ℕ
  pub record_id : Option ℕ

-- `signal_type.is_sell`
abbrev pub is_sell : SignalType → Bool
is_sell SignalType.weak_sell = true
is_sell SignalType.sell = true
is_sell SignalType.strong_sell = true
is_sell _ = false

module _ {F : Type 0} ⦃fl : Floats F⦄ where
  open fl use {lt}

  unfoldable pub signal_prices : List (ScanSignal F) → Dict F → Dict F
  signal_prices [] prices = prices
  signal_prices (s ∷ signals) prices =
      signal_prices signals (if lt nought s.price then insert s.ticker s.price prices else prices)

  unfoldable pub close_prices : Dict (Option F) → Dict F → Dict F
  close_prices [] prices = prices
  close_prices ((ticker, close) ∷ closes) prices = close_prices closes (elim close [
    | none ↦ prices
    | some c ↦ if lt nought c then insert ticker c prices else prices
  ])

  -- `_current_prices`: a close that the scan fetched replaces the signal's price.
  unfoldable pub current_prices : List (ScanSignal F) → Dict (Option F) → Dict F
  unfolding signal_prices close_prices
  current_prices signals market_data = close_prices market_data (signal_prices signals [])
