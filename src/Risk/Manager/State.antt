-- ===== src/Risk/Manager/State.antt =====
-- The state of RiskManager in src/bist_bot/risk/manager.py. A frame of prices is a value of a type of
-- its own; what pandas makes of frames is an interface. `calculate` and the helpers it passes on to are
--  here.
use bist_bot.Common.{ℕ, Bool, true, false, Option, List, [], ◌∷◌, ◌==◌, ◌&&◌, Dict}
use bist_bot.Common.Int.{ℤ}

-- Frames `H` and correlation matrices `C`. `correlate` is the matrix of a universe, `correlation` an
-- entry that is not NaN, and `pairwise` the correlation of two frames with enough common bars.
pub record Frames (F H C : Type 0) : Type 0 where
  pub is_empty : H → Bool
  pub last_close : H → F
  pub correlate : Dict (Option H) → Option C
  pub has_entries : C → Bool
  pub covers : C → ℕ → Bool
  pub correlation : C → ℕ → ℕ → Option F
  pub pairwise : H → H → Option F

-- What the constructor reads of the settings and its arguments.
pub record ManagerConfig (F : Type 0) : Type 0 where
  pub capital : F
  pub sector_map : ℕ → Option ℕ
  pub max_sector_cap_pct : F
  pub max_position_cap_pct : F
  pub portfolio_history_limit : ℤ
  pub correlation_threshold : F
  pub correlation_max_cluster : ℤ
  pub correlation_min_scale : F
  pub correlation_risk_step : F
  pub daily_loss_cap_pct : F
  pub max_risk_pct : F

-- The parts of the key that change during the life of a manager.
pub record MemoKey : Type 0 where
  pub session_date : ℕ
  pub universe : List ℕ
  pub data_context : ℕ

-- `scans` are the counts of the scans that are running, the innermost first.
pub record RiskManager (F H C : Type 0) : Type 0 where
  pub sector_signal_counts : Dict ℕ
  pub scans : List (Dict ℕ)
  pub portfolio_history : Dict H
  pub global_corr_cache : Option C
  pub corr_memo : Option (MemoKey × C)
  pub daily_realized_pnl : F
  pub daily_realized_pnl_date : ℕ

abbrev pub same_list : List ℕ → List ℕ → Bool
same_list [] [] = true
same_list (x ∷ xs) (y ∷ ys) = x == y && same_list xs ys
same_list _ _ = false

abbrev pub same_key : MemoKey → MemoKey → Bool
same_key a b =
    a.session_date == b.session_date
    && (same_list a.universe b.universe && a.data_context == b.data_context)

abbrev pub inner_counts : List (Dict ℕ) → Dict ℕ → Dict ℕ
inner_counts [] own = own
inner_counts (inner ∷ outer) own = inner

abbrev pub own_with : Dict ℕ → List (Dict ℕ) → Dict ℕ → Dict ℕ
own_with counts [] own = counts
own_with counts (inner ∷ outer) own = own

abbrev pub scans_with : Dict ℕ → List (Dict ℕ) → List (Dict ℕ)
scans_with counts [] = []
scans_with counts (inner ∷ outer) = counts ∷ outer

abbrev pub outer_scans : List (Dict ℕ) → List (Dict ℕ)
outer_scans [] = []
outer_scans (inner ∷ outer) = outer
