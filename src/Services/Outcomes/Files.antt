-- ===== src/Services/Outcomes/Files.antt =====
-- The files of src/bist_bot/services/signal_outcome_tracker.py, with the categories of
-- src/bist_bot/strategy/signal_models.py. The open file and the CSV file are fields of one state; a file
-- that is missing or broken is read as empty. The frames of a scan are read as their last close and
-- their last high and low; the end of the session is an argument.
use bist_bot.Common.{ℕ, Bool, true, false, Option, none, some, List, Dict}
use bist_bot.Common.Int.{ℤ}
use bist_bot.Execution.Executor.{SignalType}
use bist_bot.Risk.Money.{TradingCosts}

pub data SignalCategory : Type 0 where
  al radar sat hold : SignalCategory

pub data SignalOutcome : Type 0 where
  stop_hit target_hit eod_close max_hold : SignalOutcome

pub record OutcomeSettings (F : Type 0) : Type 0 where
  pub outcome_tracking_enabled : Bool
  pub outcome_max_hold_days : ℤ
  pub max_signal_score : F
  pub costs : TradingCosts F

pub record Tracked (F : Type 0) : Type 0 where
  pub signal_id : Option ℕ
  pub score : F
  pub entry_ts : ℕ
  pub entry_price : F
  pub stop : F
  pub target : F
  pub quantity : F
  pub agreement_ratio : Option F
  pub mfe_pct : F
  pub mae_pct : F
  pub max_high : F
  pub min_low : F

pub record OutcomeRow (F : Type 0) : Type 0 where
  pub signal_id : Option ℕ
  pub ticker : ℕ
  pub score : F
  pub entry_ts : ℕ
  pub entry_price : F
  pub stop : F
  pub target : F
  pub exit_price : F
  pub exit_ts : ℕ
  pub outcome : SignalOutcome
  pub holding_min : ℤ
  pub mfe_pct : F
  pub mae_pct : F
  pub gross_pnl : F
  pub net_pnl : F

-- The open positions, the closed rows, and the batches that were sent to the database.
pub record Outcomes (F : Type 0) : Type 0 where
  pub positions : Dict (Tracked F)
  pub closed_rows : List (OutcomeRow F)
  pub updates : List (List (ℕ × SignalOutcome × F))

-- The last close of a ticker's frame, and its last high and low.
pub record Frame (F : Type 0) : Type 0 where
  pub close : Option F
  pub high_low : Option (F × F)

abbrev pub is_al : SignalCategory → Bool
is_al SignalCategory.al = true
is_al _ = false

abbrev pub is_hold : SignalType → Bool
is_hold SignalType.hold = true
is_hold _ = false

abbrev pub is_radar : SignalType → Bool
is_radar SignalType.radar = true
is_radar _ = false

abbrev pub first_of_hits : Option SignalOutcome → Option SignalOutcome → Option SignalOutcome
first_of_hits none next = next
first_of_hits (some hit) next = some hit
