-- ===== src/Risk/Manager/Portfolio.antt =====
-- The history of the portfolio in src/bist_bot/risk/manager.py, and what
-- src/bist_bot/risk/correlation.py makes of it.
use bist_bot.Common.{
  ℕ, Bool, true, false, Option, none, some, List, [], ◌∷◌, if◌then◌else◌, ltb, leb, ◌&&◌, is_some,
  or_else, length, Dict, lookup, insert,
}
use bist_bot.Common.Int.{pos, pos_part, leb_ℤ, ltb_ℤ}
use bist_bot.Common.Floats.{Floats, nought, fmax, fabs}
use bist_bot.Risk.Sizing.{RiskLevels, apply_position_budget}
use bist_bot.Risk.Manager.State.{Frames, ManagerConfig, MemoKey, RiskManager, same_key}

insert_ticker : ℕ → List ℕ → List ℕ
insert_ticker t [] = t ∷ []
insert_ticker t (u ∷ us) = if leb t u then t ∷ u ∷ us else u ∷ insert_ticker t us

unfoldable pub universe_of : {H : Type 0} → Dict H → List ℕ
unfolding insert_ticker
universe_of [] = []
universe_of ((t, h) ∷ data_of) = insert_ticker t (universe_of data_of)

module _ {H : Type 0} where
  -- The `while` loop of `_enforce_portfolio_history_limit`: the oldest entries go first.
  unfoldable pub trim : ℕ → Dict H → Dict H
  trim limit [] = []
  trim limit (e ∷ d) = let rest = trim limit d in if ltb limit (length (e ∷ d)) then rest else e ∷ d

module _ {F H : Type 0} where
  unfoldable pub enforce_history_limit : ManagerConfig F → Dict H → Dict H
  unfolding trim
  enforce_history_limit c d =
      if leb_ℤ c.portfolio_history_limit (pos 0)
      then d
      else trim (pos_part c.portfolio_history_limit) d

module _ {F H C : Type 0} ⦃fl : Floats F⦄ where
  open fl use {lit, lt, le, sub, mul, div, minus, round, of_int}

  module _ (frames : Frames F H C) (c : ManagerConfig F) where
    unfoldable pub register_position : ℕ → Option H → RiskManager F H C → RiskManager F H C
    register_position ticker none m = m
    register_position ticker (some frame) m = if frames.is_empty frame then m else record m {
      portfolio_history = enforce_history_limit c (insert ticker frame m.portfolio_history);
    }

    -- `_restore_persisted_positions`, with the tickers of the repository. Of the two frames of a ticker
    -- the market has the one that is read here.
    unfoldable pub restore_positions :
        List ℕ → Dict (Option H) → RiskManager F H C → RiskManager F H C
    restore_positions [] market m = m
    restore_positions (t ∷ tickers) market m = restore_positions tickers market (
        if is_some (lookup t m.portfolio_history)
        then m
        else register_position t (or_else (lookup t market) none) m)

    -- The memo, or a new matrix, which is remembered if it has entries.
    unfoldable pub correlate_memo :
        MemoKey → Dict (Option H) → RiskManager F H C → RiskManager F H C
    correlate_memo key market m =
        let hit : Option C = elim m.corr_memo [
          | none ↦ none
          | some (old, matrix) ↦ if same_key old key then some matrix else none
        ] in
        elim hit [
          | some matrix ↦ record m { global_corr_cache = some matrix }
          | none ↦ elim (frames.correlate market) [
            | none ↦ record m { global_corr_cache = none }
            | some matrix ↦ record m {
              global_corr_cache = some matrix;
              corr_memo = if frames.has_entries matrix then some (key, matrix) else m.corr_memo;
            }
          ]
        ]

    unfoldable pub build_correlation_cache :
        List ℕ → Dict (Option H) → ℕ → ℕ → RiskManager F H C → RiskManager F H C
    unfolding universe_of
    build_correlation_cache active market session_date data_context m =
        let key : MemoKey = record {
          session_date = session_date;
          universe = universe_of market;
          data_context = data_context;
        } in
        restore_positions active market (correlate_memo key market m)

    abbrev pub is_correlated : Option F → Bool
    is_correlated none = false
    is_correlated (some corr) = le c.correlation_threshold (fabs corr)

    unfoldable pub correlated_in_cache : C → ℕ → Dict H → List ℕ
    correlated_in_cache matrix ticker [] = []
    correlated_in_cache matrix ticker ((t, h) ∷ history) =
        if frames.covers matrix t && is_correlated (frames.correlation matrix ticker t)
        then t ∷ correlated_in_cache matrix ticker history
        else correlated_in_cache matrix ticker history

    unfoldable pub correlated_in_pairs : H → Dict H → List ℕ
    correlated_in_pairs candidate [] = []
    correlated_in_pairs candidate ((t, h) ∷ history) =
        if is_correlated (frames.pairwise candidate h)
        then t ∷ correlated_in_pairs candidate history
        else correlated_in_pairs candidate history

    unfoldable pub get_correlated_positions : ℕ → H → RiskManager F H C → List ℕ
    unfolding correlated_in_cache correlated_in_pairs
    get_correlated_positions ticker candidate m = elim m.global_corr_cache [
      | none ↦ correlated_in_pairs candidate m.portfolio_history
      | some matrix ↦
          if frames.covers matrix ticker
          then correlated_in_cache matrix ticker m.portfolio_history
          else correlated_in_pairs candidate m.portfolio_history
    ]

    -- The levels, the correlated tickers, and whether they block the signal. The budget is computed
    -- with the default cap of `apply_position_budget`, 90 percent.
    unfoldable pub apply_portfolio_risk :
        ℕ → H → RiskLevels F → RiskManager F H C → RiskLevels F × List ℕ × Bool
    apply_portfolio_risk ticker frame levels m =
        let correlated = get_correlated_positions ticker frame m in
        let count = length correlated in
        let scale =
          fmax c.correlation_min_scale
            (sub (lit 1 0) (mul (of_int (pos count)) c.correlation_risk_step)) in
        if ltb_ℤ c.correlation_max_cluster (pos count)
        then (
          record levels {
            correlation_scale = nought;
            position_size = pos 0;
            max_loss_tl = nought;
            risk_budget_tl = nought;
          },
          correlated,
          true,
        )
        else (
          apply_position_budget (frames.last_close frame)
              (record levels { correlation_scale = round scale 2 }) c.capital c.max_risk_pct
              (lit 90 0),
          correlated,
          false,
        )
