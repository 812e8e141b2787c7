-- ===== src/Risk/Sizing/Tests.antt =====
-- The sizes of risk/sizing.py at concrete inputs.
use bist_bot.Common.{◌≡◌, refl, ◌⊎◌, false, none, arith}
use bist_bot.Common.Int.{pos, ◌≤ℤ◌}
use bist_bot.Common.Floats.{Fixed, fixed_floats, unit_of}
use bist_bot.Risk.Sizing.{RiskLevels, SizingInputs, apply_probability_sizing, calc_position_size}
use bist_bot.Risk.Sizing.Bounds.{apply_probability_sizing-shrinks}

abbrev levels : RiskLevels Fixed
levels = record {
  stop_atr = unit_of 95;
  final_stop = unit_of 95;
  final_target = unit_of 115;
  position_size = pos 40;
  max_loss_tl = unit_of 0;
  risk_budget_tl = unit_of 0;
  atr_pct = unit_of 0;
  volatility_scale = unit_of 1;
  correlation_scale = unit_of 1;
  signal_probability = unit_of 0;
  full_kelly_fraction = unit_of 0;
  kelly_fraction = unit_of 0;
  liquidity_value = unit_of 0;
  blocked_by_liquidity = false;
  blocked_by_daily_loss = false;
  blocked_by_probability = false;
}

abbrev inputs : SizingInputs Fixed
inputs = record {
  signal_probability = pos 6_000;
  kelly_fraction_scale = pos 5_000;
  max_position_cap_pct = unit_of 20;
  min_signal_probability = pos 5_000;
  liquidity_value = none;
  min_liquidity_value = unit_of 0;
  daily_loss_limit_reached = false;
}

-- A risk of 200 at 5 a share.
forty_shares :
    (calc_position_size
      (unit_of 100)
      levels
      (unit_of 10_000)
      (unit_of 2)
      (unit_of 2)
      (unit_of 1)
      (pos 5_000)
      (unit_of 90)).position_size
    ≡ pos 40
unfolding calc_position_size
forty_shares = refl

-- The cap of a fifth of the capital.
twenty_shares :
    (apply_probability_sizing (unit_of 100) levels (unit_of 10_000) inputs).position_size ≡ pos 20
unfolding apply_probability_sizing
twenty_shares = refl

apply_probability_sizing-shrinks_example :
    let size =
      (apply_probability_sizing (unit_of 100) levels (unit_of 10_000) inputs).position_size in
    (pos 0 ≤ℤ size)
    × (size ≤ℤ pos 40)
    × ((inputs.daily_loss_limit_reached ≡ false) ⊎ (size ≡ pos 0))
apply_probability_sizing-shrinks_example =
    apply_probability_sizing-shrinks (unit_of 100) levels (unit_of 10_000) inputs (ground arith)
