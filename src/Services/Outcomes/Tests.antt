-- ===== src/Services/Outcomes/Tests.antt =====
-- A scan of the outcome tracker at a concrete input: the low of the bar is at the stop of one position,
-- and the other is held.
use bist_bot.Common.{ℕ, refl, true, false, none, some, [], ◌∷◌, Dict, arith}
use bist_bot.Common.Int.{pos}
use bist_bot.Common.Floats.{Fixed, fixed_floats, fixed_decimals, Fixed-IsOrdered, unit_of}
use bist_bot.Services.Outcomes.Files.{OutcomeSettings, Tracked, Frame, Outcomes}
use bist_bot.Services.Outcomes.Round.{track_scan}
use bist_bot.Services.Outcomes.Scanned.{IsSettled, track_scan-IsFair}

abbrev settings : OutcomeSettings Fixed
settings = record {
  outcome_tracking_enabled = true;
  outcome_max_hold_days = pos 5;
  max_signal_score = unit_of 33;
  costs = record { commission_pct = pos 2; stamp_tax_pct = pos 0; bsmv_pct = pos 0 };
}

abbrev tracked : Tracked Fixed
tracked = record {
  signal_id = some 40;
  score = unit_of 25;
  entry_ts = 0;
  entry_price = unit_of 100;
  stop = unit_of 95;
  target = unit_of 120;
  quantity = unit_of 100;
  agreement_ratio = none;
  mfe_pct = unit_of 0;
  mae_pct = unit_of 0;
  max_high = unit_of 100;
  min_low = unit_of 100;
}

abbrev state : Outcomes Fixed
state = record { positions = (7, tracked) ∷ (8, tracked) ∷ []; closed_rows = []; updates = [] }

abbrev bar : ℕ → ℕ → ℕ → Frame Fixed
bar close high low = record {
  close = some (unit_of close);
  high_low = some (unit_of high, unit_of low);
}

abbrev frames : Dict (Frame Fixed)
frames = (7, bar 98 121 94) ∷ (8, bar 101 102 99) ∷ []

track_scan-IsFair_example :
    IsSettled settings [] frames 60 false state (track_scan settings [] frames 60 false state)
track_scan-IsFair_example =
    track_scan-IsFair settings [] frames 60 false state Fixed-IsOrdered refl
      (λ t price h. ground arith) ((refl, refl), ((refl, refl), tt)) (λ t. ground arith)
