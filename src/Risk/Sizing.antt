-- ===== src/Risk/Sizing.antt =====
-- src/bist_bot/risk/sizing.py, on the fields of RiskLevels (src/bist_bot/risk/models.py) that it reads
-- and writes. Sizes are whole numbers of either sign; alerts are left out.
pub mod Bounds
mod Tests
use bist_bot.Common.{Bool, true, false, Option, none, some, if◌then◌else◌, not, ◌&&◌, ◌||◌}
use bist_bot.Common.Int.{ℤ, pos, ltb_ℤ, leb_ℤ}
use bist_bot.Common.Floats.{Floats, nought, fmax, fmin, fabs}

pub record RiskLevels (F : Type 0) : Type 0 where
  pub stop_atr : F
  pub final_stop : F
  pub final_target : F
  pub position_size : ℤ
  pub max_loss_tl : F
  pub risk_budget_tl : F
  pub atr_pct : F
  pub volatility_scale : F
  pub correlation_scale : F
  pub signal_probability : F
  pub full_kelly_fraction : F
  pub kelly_fraction : F
  pub liquidity_value : F
  pub blocked_by_liquidity : Bool
  pub blocked_by_daily_loss : Bool
  pub blocked_by_probability : Bool

-- Python's `min(a, b)` and `max(a, b)` on whole numbers.
abbrev pub zmin : ℤ → ℤ → ℤ
zmin a b = if ltb_ℤ b a then b else a

abbrev pub zmax : ℤ → ℤ → ℤ
zmax a b = if ltb_ℤ a b then b else a

-- The keyword arguments of `apply_probability_sizing`.
pub record SizingInputs (F : Type 0) : Type 0 where
  pub signal_probability : F
  pub kelly_fraction_scale : F
  pub max_position_cap_pct : F
  pub min_signal_probability : F
  pub liquidity_value : Option F
  pub min_liquidity_value : F
  pub daily_loss_limit_reached : Bool

module _ {F : Type 0} ⦃fl : Floats F⦄ where
  open fl use {lit, lt, le, eq, add, sub, mul, div, round, trunc, of_int}

  abbrev pub one : F
  one = lit 1 0

  abbrev pub hundred : F
  hundred = lit 100 0

  unfoldable pub calculate_atr_pct : RiskLevels F → F → F → F
  calculate_atr_pct levels price atr_stop_mult =
      if le price nought || le levels.stop_atr nought
      then nought
      else div (div (fabs (sub price levels.stop_atr)) (fmax atr_stop_mult (lit 1 9))) price

  unfoldable pub calculate_risk_throttle : F → F → F → F
  calculate_risk_throttle atr_pct atr_baseline_pct atr_min_risk_scale =
      if le atr_pct nought || le atr_pct atr_baseline_pct
      then one
      else fmax atr_min_risk_scale (fmin one (div atr_baseline_pct atr_pct))

  -- `int(capital * 0.9 / price)`, and the same with the configured cap.
  unfoldable pub affordable : F → F → ℤ
  affordable capital price = trunc (div (mul capital (lit 9 1)) price)

  unfoldable pub position_cap : F → F → F → ℤ
  position_cap capital price max_position_cap_pct =
      if lt nought price
      then trunc (div (mul capital (div max_position_cap_pct hundred)) price)
      else pos 0

  unfoldable pub apply_position_budget : F → RiskLevels F → F → F → F → RiskLevels F
  unfolding affordable position_cap
  apply_position_budget price levels capital max_risk_pct max_position_cap_pct =
      let risk_per_share = sub price levels.final_stop in
      let budget_scale = mul levels.volatility_scale levels.correlation_scale in
      let max_loss_tl = mul (mul capital (div max_risk_pct hundred)) budget_scale in
      let position_size =
        zmin
          (zmin (if lt nought risk_per_share then trunc (div max_loss_tl risk_per_share) else pos 0)
            (affordable capital price))
          (position_cap capital price max_position_cap_pct) in
      if le price nought || le risk_per_share nought
      then record levels { position_size = pos 0; max_loss_tl = nought; risk_budget_tl = nought }
      else record levels {
        position_size = zmax (pos 0) position_size;
        max_loss_tl = round (mul (of_int position_size) risk_per_share) 2;
        risk_budget_tl = round max_loss_tl 2;
      }

  unfoldable pub calculate_kelly_fraction : F → F → F
  calculate_kelly_fraction win_probability reward_to_risk_ratio =
      let probability = fmax nought (fmin one win_probability) in
      if le reward_to_risk_ratio nought || le win_probability nought
      then nought
      else (if le one win_probability
          then one
          else fmax nought
              (fmin one (sub probability (div (sub one probability) reward_to_risk_ratio))))

  -- `round(max(0.0, float(liquidity_value or 0.0)), 2)`
  unfoldable pub estimate_liquidity_value : Option F → F
  estimate_liquidity_value none = round (fmax nought nought) 2
  estimate_liquidity_value (some value) =
      round (fmax nought (if eq value nought then nought else value)) 2

  abbrev pub nothing : RiskLevels F → RiskLevels F
  nothing levels = record levels { position_size = pos 0; max_loss_tl = nought }

  -- The size by the Kelly fraction, once nothing blocks the signal.
  unfoldable pub apply_kelly : F → F → SizingInputs F → RiskLevels F → RiskLevels F
  unfolding calculate_kelly_fraction
  apply_kelly price capital i levels =
      let risk_per_share = sub price levels.final_stop in
      let reward_per_share = sub levels.final_target price in
      let full =
        round
          (calculate_kelly_fraction levels.signal_probability (div reward_per_share risk_per_share))
          4 in
      let cap = div i.max_position_cap_pct hundred in
      let kelly = round (fmin cap (mul full (fmax i.kelly_fraction_scale nought))) 4 in
      let sized = record levels { full_kelly_fraction = full; kelly_fraction = kelly } in
      let capped_value = fmin (mul capital cap) (mul capital kelly) in
      let kelly_position_size = if lt nought price then trunc (div capped_value price) else pos 0 in
      let size = zmin levels.position_size (zmax (pos 0) kelly_position_size) in
      if (le risk_per_share nought || le reward_per_share nought)
        || leb_ℤ levels.position_size (pos 0)
      then nothing levels
      else (if le kelly nought
          then record (nothing sized) { blocked_by_probability = true }
          else record sized {
            position_size = size;
            max_loss_tl = round (mul (of_int size) risk_per_share) 2;
          })

  unfoldable pub apply_probability_sizing : F → RiskLevels F → F → SizingInputs F → RiskLevels F
  unfolding estimate_liquidity_value apply_kelly
  apply_probability_sizing price before capital i =
      let probability = round (fmax nought (fmin one i.signal_probability)) 4 in
      let levels = record before {
        signal_probability = probability;
        liquidity_value = estimate_liquidity_value i.liquidity_value;
      } in
      if i.daily_loss_limit_reached
      then record (nothing levels) { blocked_by_daily_loss = true }
      else (if not (eq levels.liquidity_value nought)
            && lt levels.liquidity_value i.min_liquidity_value
          then record (nothing levels) { blocked_by_liquidity = true }
          else (if lt levels.signal_probability i.min_signal_probability
              then record (nothing levels) { blocked_by_probability = true }
              else apply_kelly price capital i levels))

  unfoldable pub calc_position_size : F → RiskLevels F → F → F → F → F → F → F → RiskLevels F
  unfolding calculate_atr_pct calculate_risk_throttle apply_position_budget
  calc_position_size price levels capital max_risk_pct atr_stop_mult atr_baseline_pct
        atr_min_risk_scale max_position_cap_pct =
      let atr_pct = calculate_atr_pct levels price atr_stop_mult in
      let scale = round (calculate_risk_throttle atr_pct atr_baseline_pct atr_min_risk_scale) 2 in
      if le (sub price levels.final_stop) nought
      then nothing levels
      else apply_position_budget price
          (record levels { atr_pct = atr_pct; volatility_scale = scale }) capital max_risk_pct
          max_position_cap_pct
