-- ===== src/Services/Shadow/Files.antt =====
-- The files and the settings of src/bist_bot/services/shadow_trade_service.py. The open file, the CSV file
-- and the summary's file are fields of one state; a file that is missing or broken is read as empty, as
-- the code does. Tickers and reasons are numbers.
use bist_bot.Common.{ℕ, Bool, true, false, Option, List, Dict}
use bist_bot.Common.Int.{ℤ}
use bist_bot.Services.Ledger.{CloseReason, Ledger}

pub record ShadowSettings (F : Type 0) : Type 0 where
  pub shadow_enabled : Bool
  pub shadow_min_score : F
  pub shadow_only_robust : Bool
  pub shadow_cooldown_days : ℤ
  pub shadow_holding_days : ℤ
  pub initial_capital : F
  pub max_total_risk_pct : F
  pub robust_tickers : ℕ → Bool

pub record ShadowPosition (F : Type 0) : Type 0 where
  pub entry_price : F
  pub entry_time : ℕ
  pub stop : F
  pub target : F
  pub score : F
  pub agreement_ratio : Option F
  pub reasons : List ℕ
  pub holding_days : ℕ
  pub quantity : F

pub record ClosedRow (F : Type 0) : Type 0 where
  pub ticker : ℕ
  pub entry_time : ℕ
  pub entry_price : F
  pub exit_time : ℕ
  pub exit_price : F
  pub score : F
  pub agreement_ratio : Option F
  pub pnl_pct : F
  pub pnl_tl : F
  pub hit : CloseReason
  pub reasons : List ℕ

-- The three files, and the ledger of the database.
pub record Shadow (F : Type 0) : Type 0 where
  pub positions : Dict (ShadowPosition F)
  pub closed_rows : List (ClosedRow F)
  pub last_sent_date : Option ℕ
  pub ledger : Ledger F

pub record Summary (F : Type 0) : Type 0 where
  pub open_count : ℕ
  pub closed_count : ℕ
  pub avg_pnl : F
  pub win_rate : F

-- What the loop over the positions does with one of them.
pub data Fate (F : Type 0) : Type 0 where
  stays raises : Fate F
  closes : ClosedRow F → Fate F

abbrev pub is_stop : CloseReason → Bool
is_stop CloseReason.stop = true
is_stop _ = false
