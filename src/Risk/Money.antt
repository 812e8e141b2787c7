-- ===== src/Risk/Money.antt =====
-- src/bist_bot/risk/money.py and the costs of src/bist_bot/risk/costs.py that the brokers charge.
use bist_bot.Common.{Bool}
use bist_bot.Common.Floats.{Floats, Decimals, fabs}

-- The rates of one side of a trade.
pub record TradingCosts (F : Type 0) : Type 0 where
  pub commission_pct : F
  pub stamp_tax_pct : F
  pub bsmv_pct : F

module _ {F : Type 0} ⦃fl : Floats F⦄ where
  open fl use {lit, add, lt}

  -- `QTY_EPS`
  abbrev pub qty_eps : F
  qty_eps = lit 1 9

  unfoldable pub is_zero_qty : F → Bool
  is_zero_qty remaining = lt (fabs remaining) qty_eps

module _ {F : Type 0} ⦃fl : Floats F⦄ ⦃dc : Decimals F⦄ where
  open fl use {add}
  open dc use {of_float, to_float, dsub, dmul, quantize}

  -- To the kuruş, half up.
  unfoldable pub quantize_money : F → F
  quantize_money value = to_float (quantize (of_float value) 2)

  unfoldable pub quantize_price : F → F
  quantize_price value = to_float (quantize (of_float value) 4)

  unfoldable pub calc_notional : F → F → F
  calc_notional quantity price = to_float (quantize (dmul (of_float quantity) (of_float price)) 2)

  unfoldable pub calc_cost : F → F → F
  calc_cost notional rate = to_float (quantize (dmul (of_float notional) (of_float rate)) 2)

  unfoldable pub calc_pnl : F → F → F → F → F
  calc_pnl exit_price entry_price quantity fees =
      let pnl = dmul (dsub (of_float exit_price) (of_float entry_price)) (of_float quantity) in
      to_float (quantize (dsub pnl (of_float fees)) 2)

  unfoldable pub buy_cost : TradingCosts F → F → F
  unfolding calc_cost
  buy_cost c notional = calc_cost notional c.commission_pct

  unfoldable pub sell_cost : TradingCosts F → F → F
  unfolding calc_cost
  sell_cost c notional = calc_cost notional (add (add c.commission_pct c.stamp_tax_pct) c.bsmv_pct)

  unfoldable pub round_trip_cost : TradingCosts F → F → F → F
  unfolding buy_cost sell_cost quantize_money
  round_trip_cost c buy_notional sell_notional =
      quantize_money (add (buy_cost c buy_notional) (sell_cost c sell_notional))
