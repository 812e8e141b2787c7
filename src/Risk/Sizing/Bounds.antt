-- ===== src/Risk/Sizing/Bounds.antt =====
-- The sizes that risk/sizing.py gives.
use bist_bot.Common.{◌≡◌, ◌⊎◌, false, arith}
use bist_bot.Common.Int.{ℤ, pos, ◌≤ℤ◌}
use bist_bot.Common.Floats.{Floats}
use bist_bot.Risk.Sizing.{
  RiskLevels, SizingInputs, zmin, zmax, apply_kelly, apply_probability_sizing,
}

zmin-le : (a b : ℤ) → (zmin a b ≤ℤ a) × (zmin a b ≤ℤ b)
zmin-le a b = ground arith

zmax-le : (a : ℤ) → (pos 0 ≤ℤ zmax (pos 0) a) × ((zmax (pos 0) a ≡ pos 0) ⊎ (zmax (pos 0) a ≡ a))
zmax-le a = ground arith

module _ {F : Type 0} ⦃fl : Floats F⦄ where
  open fl use {le}

  -- Sizing by probability never enlarges a position of at least 0 and leaves it at least 0; where the
  -- daily loss limit is reached nothing is left of it.
  pub apply_probability_sizing-shrinks :
      (price : F) (levels : RiskLevels F) (capital : F) (i : SizingInputs F)
      → pos 0 ≤ℤ levels.position_size
      → let size = (apply_probability_sizing price levels capital i).position_size in
        (pos 0 ≤ℤ size)
        × (size ≤ℤ levels.position_size)
        × ((i.daily_loss_limit_reached ≡ false) ⊎ (size ≡ pos 0))
  unfolding apply_probability_sizing apply_kelly
  apply_probability_sizing-shrinks price levels capital i h = ground arith
