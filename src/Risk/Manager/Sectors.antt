-- ===== src/Risk/Manager/Sectors.antt =====
-- The counts of the sectors and the daily loss in src/bist_bot/risk/manager.py.
use bist_bot.Common.{
  ℕ, ◌+◌, Bool, true, false, none, some, [], ◌∷◌, if◌then◌else◌, ◌==◌, not, ◌&&◌, or_else, Dict,
  lookup, insert,
}
use bist_bot.Common.Int.{ℤ, pos, leb_ℤ}
use bist_bot.Common.Floats.{Floats, nought, fmax}
use bist_bot.Risk.Manager.State.{
  ManagerConfig, RiskManager, inner_counts, own_with, scans_with, outer_scans,
}

module _ {F : Type 0} ⦃fl : Floats F⦄ where
  open fl use {lit, div, trunc}

  -- `int(max(1, ...))`; the settings keep the divisor above 0, where Python divides.
  unfoldable pub sector_limit : ManagerConfig F → ℤ
  sector_limit c = trunc (fmax (lit 1 0) (div c.max_sector_cap_pct c.max_position_cap_pct))

module _ {F H C : Type 0} ⦃fl : Floats F⦄ where
  open fl use {lit, lt, le, sub, mul, div, minus, round, of_int}

  -- The counts of the innermost scan, or the manager's own where no scan runs.
  abbrev pub current_counts : RiskManager F H C → Dict ℕ
  current_counts m = inner_counts m.scans m.sector_signal_counts

  abbrev pub with_counts : Dict ℕ → RiskManager F H C → RiskManager F H C
  with_counts counts m = record m {
    sector_signal_counts = own_with counts m.scans m.sector_signal_counts;
    scans = scans_with counts m.scans;
  }

  unfoldable pub check_sector_limit :
      ManagerConfig F → ℕ → RiskManager F H C → Bool × RiskManager F H C
  check_sector_limit c ticker m = elim (c.sector_map ticker) [
    | none ↦ (true, m)
    | some sector ↦
        let current = or_else (lookup sector (current_counts m)) 0 in
        if leb_ℤ (sector_limit c) (pos current)
        then (false, m)
        else (true, with_counts (insert sector (current + 1) (current_counts m)) m)
  ]

  unfoldable pub reset_sectors : RiskManager F H C → RiskManager F H C
  reset_sectors m = with_counts [] m

  -- `sector_scan`: its entry and its exit.
  unfoldable pub enter_scan : RiskManager F H C → RiskManager F H C
  enter_scan m = record m { scans = [] ∷ m.scans }

  unfoldable pub leave_scan : RiskManager F H C → RiskManager F H C
  leave_scan m = record m { scans = outer_scans m.scans }

  unfoldable pub reset_portfolio : RiskManager F H C → RiskManager F H C
  reset_portfolio m = record m { portfolio_history = []; global_corr_cache = none }

  -- `_roll_daily_realized_pnl_if_needed`
  unfoldable pub roll_daily : ℕ → RiskManager F H C → RiskManager F H C
  roll_daily today m =
      if today == m.daily_realized_pnl_date
      then m
      else record m { daily_realized_pnl = nought; daily_realized_pnl_date = today }

  unfoldable pub set_daily_realized_pnl : ℕ → F → RiskManager F H C → RiskManager F H C
  unfolding roll_daily
  set_daily_realized_pnl today amount m = record (roll_daily today m) {
    daily_realized_pnl = amount;
  }

  unfoldable pub daily_loss_limit_reached :
      ManagerConfig F → ℕ → RiskManager F H C → Bool × RiskManager F H C
  unfolding roll_daily
  daily_loss_limit_reached c today m =
      let m1 = roll_daily today m in
      let limit = minus (div (mul c.capital c.daily_loss_cap_pct) (lit 100 0)) in
      (not (le c.daily_loss_cap_pct nought) && le m1.daily_realized_pnl limit, m1)
