-- ===== src/Trade/Tests.antt =====
-- A round trip of trade_contract.py at concrete inputs.
use bist_bot.Common.{◌≡◌, refl, none, some, List, [], ◌∷◌, arith}
use bist_bot.Common.Int.{ℤ}
use bist_bot.Common.Floats.{Fixed, fixed_floats, unit_of}
use bist_bot.Trade.Outcome.{Session, ExitReason, CostSchedule, exit_of, calculate_trade_outcome}
use bist_bot.Trade.Exit.{IsFirst, exit_of-IsFirst}

abbrev bar : ℤ → ℤ → ℤ → ℤ → Session Fixed
bar o h l c = record { open_p = o; high_p = h; low_p = l; close_p = c }

-- The second bar reaches both the stop and the target.
abbrev bars : List (Session Fixed)
bars =
    bar (unit_of 100) (unit_of 104) (unit_of 98) (unit_of 101)
    ∷ bar (unit_of 101) (unit_of 112) (unit_of 94) (unit_of 99)
    ∷ bar (unit_of 99) (unit_of 100) (unit_of 97) (unit_of 98)
    ∷ []

stop_first :
    exit_of (some (unit_of 95)) (some (unit_of 110)) 5 bars
    ≡ record { index = 1; reason = ExitReason.same_bar_stop_first; ref_price = unit_of 95 }
unfolding exit_of
stop_first = refl

data_ends :
    exit_of (some (unit_of 90)) none 5 bars
    ≡ record { index = 2; reason = ExitReason.data_end; ref_price = unit_of 98 }
unfolding exit_of
data_ends = refl

abbrev free : CostSchedule Fixed
free = record {
  commission_bps = unit_of 0;
  bsmv_pct = unit_of 0;
  exchange_fee_bps = unit_of 0;
  half_spread_bps = unit_of 0;
  slippage_bps = unit_of 0;
  stamp_tax_bps = unit_of 0;
  min_commission_tl = unit_of 0;
}

no_sessions : calculate_trade_outcome (unit_of 100) none none [] free (unit_of 1_000) 5 none ≡ none
unfolding calculate_trade_outcome
no_sessions = refl

exit_of-IsFirst_example :
    IsFirst
      (some (unit_of 95))
      (some (unit_of 110))
      5
      bars
      (exit_of (some (unit_of 95)) (some (unit_of 110)) 5 bars)
exit_of-IsFirst_example =
    exit_of-IsFirst (some (unit_of 95)) (some (unit_of 110)) 5 bars (ground arith) (ground arith)
