-- ===== src/Risk/Manager/Tests.antt =====
-- The risk manager at concrete inputs: three tickers of one sector, of which two may pass.
use bist_bot.Common.{
  ℕ, ◌≡◌, ◌⊎◌, refl, inr, true, false, none, some, [], ◌∷◌, if◌then◌else◌, ltb, arith,
}
use bist_bot.Common.Int.{pos, leb_ℤ}
use bist_bot.Common.Floats.{Fixed, fixed_floats, unit_of}
use bist_bot.Risk.Manager.State.{Frames, ManagerConfig, RiskManager}
use bist_bot.Risk.Manager.Sectors.{sector_limit, check_sector_limit, enter_scan}
use bist_bot.Risk.Manager.Portfolio.{register_position, build_correlation_cache}
use bist_bot.Risk.Manager.Admitted.{in_sector, admit, admit-limit}
use bist_bot.Risk.Manager.Limits.{Step, Reach, IsWithin, Reach-IsWithin}

abbrev config : ManagerConfig Fixed
config = record {
  capital = unit_of 8_500;
  sector_map = λ t. if ltb t 10 then some 1 else none;
  max_sector_cap_pct = unit_of 20;
  max_position_cap_pct = unit_of 10;
  portfolio_history_limit = pos 2;
  correlation_threshold = unit_of 1;
  correlation_max_cluster = pos 2;
  correlation_min_scale = unit_of 0;
  correlation_risk_step = unit_of 1;
  daily_loss_cap_pct = unit_of 3;
  max_risk_pct = unit_of 2;
}

-- A frame is its last close, and every matrix has every ticker.
abbrev frames : Frames Fixed ℕ ℕ
frames = record {
  is_empty = λ h. false;
  last_close = unit_of;
  correlate = λ market. some 1;
  has_entries = λ m. true;
  covers = λ m t. true;
  correlation = λ m s t. none;
  pairwise = λ g h. none;
}

abbrev fresh : RiskManager Fixed ℕ ℕ
fresh = record {
  sector_signal_counts = [];
  scans = [];
  portfolio_history = [];
  global_corr_cache = none;
  corr_memo = none;
  daily_realized_pnl = unit_of 0;
  daily_realized_pnl_date = 5;
}

two_at_most : sector_limit config ≡ pos 2
unfolding sector_limit
two_at_most = refl

the_third_waits :
    (admit {H = ℕ} {C = ℕ} config (3 ∷ 4 ∷ 30 ∷ 5 ∷ []) (enter_scan fresh)).0 ≡ 3 ∷ 4 ∷ 30 ∷ []
unfolding admit check_sector_limit sector_limit enter_scan
the_third_waits = refl

admit-limit_example :
    let n = in_sector config 1 (admit config (3 ∷ 4 ∷ 30 ∷ 5 ∷ []) (enter_scan fresh)).0 in
    ((n ≡ 0) ⊎ (leb_ℤ (pos n) (sector_limit config) ≡ true))
    × ((n ≡ in_sector config 1 (3 ∷ 4 ∷ 30 ∷ 5 ∷ []))
        ⊎ (leb_ℤ (sector_limit config) (pos n) ≡ true))
admit-limit_example = admit-limit config 1 (3 ∷ 4 ∷ 30 ∷ 5 ∷ []) fresh

abbrev scanned : RiskManager Fixed ℕ ℕ
scanned = (check_sector_limit config 3 (enter_scan fresh)).1

abbrev built : RiskManager Fixed ℕ ℕ
built =
    build_correlation_cache frames config (3 ∷ 4 ∷ []) ((3, some 30) ∷ (4, some 40) ∷ []) 5 0
      scanned

calls : Reach frames config fresh (register_position frames config 30 (some 12) built)
calls =
    Reach.next
      (Reach.next
        (Reach.next (Reach.next Reach.here (Step.enter fresh)) (Step.check 3 (enter_scan fresh)))
        (Step.build (3 ∷ 4 ∷ []) ((3, some 30) ∷ (4, some 40) ∷ []) 5 0 scanned))
      (Step.register 30 (some 12) built)

fresh-IsWithin : IsWithin frames config fresh
fresh-IsWithin = record { own = tt; scanned = tt; history = inr (omega arith) }

Reach-IsWithin_example : IsWithin frames config (register_position frames config 30 (some 12) built)
Reach-IsWithin_example = Reach-IsWithin frames config fresh-IsWithin calls
