-- ===== src/Risk/Manager/Limits.antt =====
-- The limits of src/bist_bot/risk/manager.py over any calls of its methods.
use bist_bot.Common.{
  ℕ, ◌+◌, ◌≤◌, ◌≡◌, ◌⊎◌, sym, inl, inr, true, Option, none, some, List, [], ◌∷◌, All, is_some,
  or_else, length, Dict, Each, Each-insert, lookup, insert, Bool-cases, Option-cases, arith,
}
use mathlib.Core.Path.{subst}
use bist_bot.Common.Int.{pos, pos_part, leb_ℤ}
use bist_bot.Common.Floats.{Floats}
use bist_bot.Risk.Manager.State.{
  Frames, ManagerConfig, MemoKey, RiskManager, own_with, scans_with, inner_counts, outer_scans,
}
use bist_bot.Risk.Manager.Portfolio.{
  universe_of, trim, enforce_history_limit, register_position, restore_positions, correlate_memo,
  build_correlation_cache,
}
use bist_bot.Risk.Manager.Sectors.{
  sector_limit, current_counts, with_counts, check_sector_limit, reset_sectors, enter_scan,
  leave_scan, reset_portfolio, roll_daily, set_daily_realized_pnl, daily_loss_limit_reached,
}

module _ {F H C : Type 0} ⦃fl : Floats F⦄ (frames : Frames F H C) (c : ManagerConfig F) where
  -- One call of a method that changes the manager.
  pub data Step : RiskManager F H C → RiskManager F H C → Type 0 where
    check : (ticker : ℕ) (m : RiskManager F H C) → Step m (check_sector_limit c ticker m).1
    reset : (m : RiskManager F H C) → Step m (reset_sectors m)
    enter : (m : RiskManager F H C) → Step m (enter_scan m)
    leave : (m : RiskManager F H C) → Step m (leave_scan m)
    register :
        (ticker : ℕ) (frame : Option H) (m : RiskManager F H C)
        → Step m (register_position frames c ticker frame m)
    clear : (m : RiskManager F H C) → Step m (reset_portfolio m)
    book :
        (today : ℕ) (amount : F) (m : RiskManager F H C)
        → Step m (set_daily_realized_pnl today amount m)
    ask : (today : ℕ) (m : RiskManager F H C) → Step m (daily_loss_limit_reached c today m).1
    build :
        (active : List ℕ) (market : Dict (Option H)) (session_date data_context : ℕ)
        (m : RiskManager F H C)
        → Step m (build_correlation_cache frames c active market session_date data_context m)

  pub data Reach (m : RiskManager F H C) : RiskManager F H C → Type 0 where
    here : Reach m m
    next : {n k : RiskManager F H C} → Reach m n → Step n k → Reach m k

  abbrev pub CountsFit : Dict ℕ → Type 0
  CountsFit counts = Each (λ sector n. leb_ℤ (pos n) (sector_limit c) ≡ true) counts

  -- The history has no limit, or is within it.
  abbrev pub HistoryFits : Dict H → Type 0
  HistoryFits d =
      (leb_ℤ c.portfolio_history_limit (pos 0) ≡ true)
      ⊎ (length d ≤ pos_part c.portfolio_history_limit)

  -- No sector has more signals than its limit, in the manager's own counts and in those of every
  -- running scan, and the history of the portfolio has no more tickers than its limit.
  pub record IsWithin (m : RiskManager F H C) : Type 0 where
    pub own : CountsFit m.sector_signal_counts
    pub scanned : All CountsFit m.scans
    pub history : HistoryFits m.portfolio_history

  length-trim : (n : ℕ) (d : Dict H) → length (trim n d) ≤ n
  unfolding trim
  length-trim n [] = omega arith
  length-trim n (e ∷ d) = ground (arith, length-trim n d)

  enforced : (d : Dict H) → HistoryFits (enforce_history_limit c d)
  unfolding enforce_history_limit
  enforced d = elim (Bool-cases (leb_ℤ c.portfolio_history_limit (pos 0))) [
    | inl free ↦ inl free
    | inr bound ↦ inr (rw bound (length-trim (pos_part c.portfolio_history_limit) d))
  ]

  register-IsWithin :
      (ticker : ℕ) (frame : Option H) (m : RiskManager F H C)
      → IsWithin m
      → IsWithin (register_position frames c ticker frame m)
  unfolding register_position
  register-IsWithin ticker none m w = w
  register-IsWithin ticker (some frame) m w = elim (Bool-cases (frames.is_empty frame)) [
    | inl empty ↦ rw empty w
    | inr full ↦ rw full (record {
      own = w.own;
      scanned = w.scanned;
      history = enforced (insert ticker frame m.portfolio_history);
    })
  ]

  restore-IsWithin :
      (tickers : List ℕ) (market : Dict (Option H)) (m : RiskManager F H C)
      → IsWithin m
      → IsWithin (restore_positions frames c tickers market m)
  unfolding restore_positions
  restore-IsWithin [] market m w = w
  restore-IsWithin (t ∷ tickers) market m w =
      elim (Bool-cases (is_some (lookup t m.portfolio_history))) [
        | inl held ↦ rw held (restore-IsWithin tickers market m w)
        | inr missing ↦ rw missing (
            restore-IsWithin tickers market
              (register_position frames c t (or_else (lookup t market) none) m)
              (register-IsWithin t (or_else (lookup t market) none) m w))
      ]

  carry :
      (m n : RiskManager F H C)
      → n.sector_signal_counts ≡ m.sector_signal_counts
      → n.scans ≡ m.scans
      → n.portfolio_history ≡ m.portfolio_history
      → IsWithin m
      → IsWithin n
  carry m n same_own same_scans same_history w = record {
    own = subst CountsFit (sym same_own) w.own;
    scanned = subst (All CountsFit) (sym same_scans) w.scanned;
    history = subst HistoryFits (sym same_history) w.history;
  }

  own_with-CountsFit :
      (counts : Dict ℕ) (scans : List (Dict ℕ)) (own : Dict ℕ)
      → CountsFit counts
      → CountsFit own
      → CountsFit (own_with counts scans own)
  own_with-CountsFit counts [] own fit h = fit
  own_with-CountsFit counts (inner ∷ outer) own fit h = h

  scans_with-CountsFit :
      (counts : Dict ℕ) (scans : List (Dict ℕ))
      → CountsFit counts
      → All CountsFit scans
      → All CountsFit (scans_with counts scans)
  scans_with-CountsFit counts [] fit h = tt
  scans_with-CountsFit counts (inner ∷ outer) fit h = (fit, h.1)

  inner_counts-CountsFit :
      (scans : List (Dict ℕ)) (own : Dict ℕ)
      → All CountsFit scans
      → CountsFit own
      → CountsFit (inner_counts scans own)
  inner_counts-CountsFit [] own h k = k
  inner_counts-CountsFit (inner ∷ outer) own h k = h.0

  outer_scans-CountsFit :
      (scans : List (Dict ℕ)) → All CountsFit scans → All CountsFit (outer_scans scans)
  outer_scans-CountsFit [] h = tt
  outer_scans-CountsFit (inner ∷ outer) h = h.1

  with_counts-IsWithin :
      (counts : Dict ℕ) (m : RiskManager F H C)
      → CountsFit counts
      → IsWithin m
      → IsWithin (with_counts counts m)
  with_counts-IsWithin counts m fit w = record {
    own = own_with-CountsFit counts m.scans m.sector_signal_counts fit w.own;
    scanned = scans_with-CountsFit counts m.scans fit w.scanned;
    history = w.history;
  }

  check-IsWithin :
      (ticker : ℕ) (m : RiskManager F H C) → IsWithin m → IsWithin (check_sector_limit c ticker m).1
  unfolding check_sector_limit
  check-IsWithin ticker m w = elim (Option-cases (c.sector_map ticker)) [
    | inl e ↦ rw (e, check_sector_limit) w
    | inr (sector, e) ↦
        let counts = current_counts m in
        let current = or_else (lookup sector counts) 0 in
        elim (Bool-cases (leb_ℤ (sector_limit c) (pos current))) [
          | inl full ↦ rw (e, full, check_sector_limit) w
          | inr room ↦
              rw (e, room, check_sector_limit)
                (with_counts-IsWithin (insert sector (current + 1) counts) m
                  (Each-insert (λ k n. leb_ℤ (pos n) (sector_limit c) ≡ true) sector (current + 1)
                    counts (ground (arith, room))
                    (inner_counts-CountsFit m.scans m.sector_signal_counts w.scanned w.own))
                  w)
        ]
  ]

  correlate-IsWithin :
      (key : MemoKey) (market : Dict (Option H)) (m : RiskManager F H C)
      → IsWithin m
      → IsWithin (correlate_memo frames c key market m)
  unfolding correlate_memo
  correlate-IsWithin key market m w =
      carry m (correlate_memo frames c key market m) (ground arith) (ground arith) (ground arith) w

  Step-IsWithin : {m n : RiskManager F H C} → Step m n → IsWithin m → IsWithin n
  unfolding reset_sectors enter_scan leave_scan reset_portfolio roll_daily set_daily_realized_pnl
      daily_loss_limit_reached build_correlation_cache
  Step-IsWithin (check ticker m) w = check-IsWithin ticker m w
  Step-IsWithin (reset m) w = with_counts-IsWithin [] m tt w
  Step-IsWithin (enter m) w = record { own = w.own; scanned = (tt, w.scanned); history = w.history }
  Step-IsWithin (leave m) w = record {
    own = w.own;
    scanned = outer_scans-CountsFit m.scans w.scanned;
    history = w.history;
  }
  Step-IsWithin (register ticker frame m) w = register-IsWithin ticker frame m w
  Step-IsWithin (clear m) w = record {
    own = w.own;
    scanned = w.scanned;
    history = inr (omega arith);
  }
  Step-IsWithin (book today amount m) w =
      carry m (set_daily_realized_pnl today amount m) (ground arith) (ground arith) (ground arith) w
  Step-IsWithin (ask today m) w =
      carry m (roll_daily today m) (ground arith) (ground arith) (ground arith) w
  Step-IsWithin (build active market date context m) w =
      restore-IsWithin active market
        (correlate_memo frames c
          (record { session_date = date; universe = universe_of market; data_context = context })
          market m)
        (correlate-IsWithin _ market m w)

  -- Over any calls of the manager's methods, in and out of running scans, no sector has more signals
  -- than its limit, neither in the manager's own counts nor in those of a running scan, and the history
  -- of the portfolio has no more tickers than its limit, where that is above 0.
  pub Reach-IsWithin : {m n : RiskManager F H C} → IsWithin m → Reach m n → IsWithin n
  Reach-IsWithin w here = w
  Reach-IsWithin w (next r s) = Step-IsWithin s (Reach-IsWithin w r)
