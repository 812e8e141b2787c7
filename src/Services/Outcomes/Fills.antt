-- ===== src/Services/Outcomes/Fills.antt =====
-- The exits of src/bist_bot/services/signal_outcome_tracker.py.
use bist_bot.Common.{
  ℕ, ◌+◌, ◌*◌, leb, ◌≡◌, ◌⊎◌, refl, inl, inr, Bool, true, false, Option, none, some, [], ◌∷◌, ◌&&◌,
  ◌||◌, Dict, Each, lookup, Bool-cases, Option-cases, arith,
}
use mathlib.Core.Path.{subst}
use bist_bot.Common.Int.{pos, pos_part, ltb_ℤ}
use bist_bot.Common.Floats.{Floats, Decimals, IsOrdered, nought, fmax, fmin}
use bist_bot.Services.Outcomes.Files.{SignalOutcome, OutcomeSettings, Tracked, OutcomeRow, Frame}
use bist_bot.Services.Outcomes.Hits.{
  frame_of, hit_at_close, hit_in_bar, signal_outcome_of, exit_price_of,
}
use bist_bot.Services.Outcomes.Round.{outcome_row, due_row_of}

module _ {F : Type 0} ⦃fl : Floats F⦄ where
  open fl use {lt, le}

  -- The position stands in the dictionary under the ticker.
  abbrev pub Holds : ℕ → Tracked F → Dict (Tracked F) → Type 0
  Holds t p [] = ⊥
  Holds t p (e ∷ d) = ((e.0 ≡ t) × (e.1 ≡ p)) ⊎ Holds t p d

  abbrev pub low_at : F → Option (F × F) → Bool
  low_at level none = false
  low_at level (some (high, low)) = le low level

  abbrev pub high_at : F → Option (F × F) → Bool
  high_at level none = false
  high_at level (some (high, low)) = le level high

  -- The close is at neither level that is set, nor is the bar where both are set.
  abbrev pub IsUntouched : Tracked F → Option (F × F) → F → Type 0
  IsUntouched p bar price =
      ((lt nought p.stop && le price p.stop) ≡ false)
      × ((lt nought p.target && le p.target price) ≡ false)
      × ((lt nought p.stop && (lt nought p.target && (low_at p.stop bar || high_at p.target bar)))
          ≡ false)

  -- As many days as there is a limit for are over since the entry.
  abbrev pub is_expired : OutcomeSettings F → Tracked F → ℕ → Bool
  is_expired settings p now =
      ltb_ℤ (pos 0) settings.outcome_max_hold_days
      && leb (p.entry_ts + pos_part settings.outcome_max_hold_days * 86_400) now

  -- What an outcome says of the position, the bar and the close, and where it was filled.
  abbrev pub IsFair :
      OutcomeSettings F → Tracked F → Option (F × F) → F → ℕ → Bool → SignalOutcome → F → Type 0
  IsFair settings p bar price now eod SignalOutcome.stop_hit exit =
      (lt nought p.stop ≡ true)
      × ((le price p.stop || (lt nought p.target && low_at p.stop bar)) ≡ true)
      × (le exit p.stop ≡ true)
      × (le exit price ≡ true)
  IsFair settings p bar price now eod SignalOutcome.target_hit exit =
      (lt nought p.target ≡ true)
      × ((le p.target price || (lt nought p.stop && high_at p.target bar)) ≡ true)
      × ((lt nought p.stop && low_at p.stop bar) ≡ false)
      × (le p.target exit ≡ true)
      × (le price exit ≡ true)
  IsFair settings p bar price now eod SignalOutcome.eod_close exit =
      (exit ≡ price) × (eod ≡ true) × IsUntouched p bar price
  IsFair settings p bar price now eod SignalOutcome.max_hold exit =
      (exit ≡ price) × (eod ≡ false) × (is_expired settings p now ≡ true) × IsUntouched p bar price

  -- Why a position is kept: no price, or none above nothing, or nothing that was hit and days left.
  abbrev pub IsKept :
      OutcomeSettings F → Dict (Frame F) → Dict F → ℕ → Bool → ℕ → Tracked F → Type 0
  IsKept settings frames prices now eod t p =
      (lookup t prices ≡ none)
      ⊎ ((price : F) × (lookup t prices ≡ some price)
          × ((le price nought ≡ true)
              ⊎ ((eod ≡ false)
                  × (is_expired settings p now ≡ false)
                  × IsUntouched p (frame_of t frames) price)))

  module _ (ordered : IsOrdered F) where
    open ordered use {le_of_lt, le-or-lt}

    fmin_bounds :
        (a b : F)
        → le a a ≡ true
        → le b b ≡ true
        → (le (fmin a b) b ≡ true) × (le (fmin a b) a ≡ true)
    fmin_bounds a b ha hb = ground (arith, le_of_lt b a, le-or-lt a b)

    fmax_bounds :
        (a b : F)
        → le a a ≡ true
        → le b b ≡ true
        → (le b (fmax a b) ≡ true) × (le a (fmax a b) ≡ true)
    fmax_bounds a b ha hb = ground (arith, le_of_lt a b, le-or-lt b a)

    module _ (settings : OutcomeSettings F) (p : Tracked F) (price : F) (now : ℕ) (eod : Bool)
        (number : le price price ≡ true) (stop_number : le p.stop p.stop ≡ true)
        (target_number : le p.target p.target ≡ true) where
      signal_outcome_of-IsFair :
          (bar : Option (F × F)) (hit : SignalOutcome)
          → signal_outcome_of settings p bar price now eod ≡ some hit
          → IsFair settings p bar price now eod hit (exit_price_of hit p price)
      unfolding signal_outcome_of hit_in_bar hit_at_close exit_price_of
      signal_outcome_of-IsFair none SignalOutcome.stop_hit h =
          ground (arith, fmin_bounds price p.stop number stop_number)
      signal_outcome_of-IsFair none SignalOutcome.target_hit h =
          ground (arith, fmax_bounds price p.target number target_number)
      signal_outcome_of-IsFair none SignalOutcome.eod_close h = ground arith
      signal_outcome_of-IsFair none SignalOutcome.max_hold h = ground arith
      signal_outcome_of-IsFair (some (high, low)) SignalOutcome.stop_hit h =
          ground (arith, fmin_bounds price p.stop number stop_number)
      signal_outcome_of-IsFair (some (high, low)) SignalOutcome.target_hit h =
          ground (arith, fmax_bounds price p.target number target_number)
      signal_outcome_of-IsFair (some (high, low)) SignalOutcome.eod_close h = ground arith
      signal_outcome_of-IsFair (some (high, low)) SignalOutcome.max_hold h = ground arith

module _ {F : Type 0} ⦃fl : Floats F⦄ where
  signal_outcome_of-quiet :
      (settings : OutcomeSettings F) (p : Tracked F) (bar : Option (F × F)) (price : F) (now : ℕ)
      (eod : Bool)
      → signal_outcome_of settings p bar price now eod ≡ none
      → (eod ≡ false) × (is_expired settings p now ≡ false) × IsUntouched p bar price
  unfolding signal_outcome_of hit_in_bar hit_at_close
  signal_outcome_of-quiet settings p none price now eod h = ground arith
  signal_outcome_of-quiet settings p (some (high, low)) price now eod h = ground arith

module _ {F : Type 0} ⦃fl : Floats F⦄ ⦃dc : Decimals F⦄ where
  open fl use {lt, le}

  abbrev pub AreNumbers : Dict (Tracked F) → Type 0
  AreNumbers d = Each (λ t p. (le p.stop p.stop ≡ true) × (le p.target p.target ≡ true)) d

  module _ (settings : OutcomeSettings F) (frames : Dict (Frame F)) (prices : Dict F) (now : ℕ)
      (eod : Bool) where
    pub due_row_of-ticker :
        (t : ℕ) (p : Tracked F) (r : OutcomeRow F)
        → due_row_of settings frames prices now eod t p ≡ some r
        → r.ticker ≡ t
    unfolding due_row_of outcome_row
    due_row_of-ticker t p r h = ground (arith, h)

    pub due_row_of-IsKept :
        (t : ℕ) (p : Tracked F)
        → due_row_of settings frames prices now eod t p ≡ none
        → IsKept settings frames prices now eod t p
    unfolding due_row_of
    due_row_of-IsKept t p h = elim (Option-cases (lookup t prices)) [
      | inl e ↦ inl e
      | inr (price, e) ↦ elim (Bool-cases (le price nought)) [
        | inl low ↦ inr (price, e, inl low)
        | inr high ↦
            let quiet : signal_outcome_of settings p (frame_of t frames) price now eod ≡ none =
              ground (arith, e, high) in
            inr (
              price,
              e,
              inr (signal_outcome_of-quiet settings p (frame_of t frames) price now eod quiet),
            )
      ]
    ]

    pub due_row_of-IsFair :
        IsOrdered F
        → ((t : ℕ) (price : F) → lookup t prices ≡ some price → le price price ≡ true)
        → (t : ℕ) (p : Tracked F) (r : OutcomeRow F) → le p.stop p.stop ≡ true
        → le p.target p.target ≡ true
        → due_row_of settings frames prices now eod t p ≡ some r
        → (r.ticker ≡ t)
          × ((price : F) × (lookup t prices ≡ some price)
              × IsFair settings p (frame_of t frames) price now eod r.outcome r.exit_price)
    unfolding due_row_of outcome_row
    due_row_of-IsFair ordered numbers t p r hs ht h = elim (Option-cases (lookup t prices)) [
      | inl e ↦ absurd (ground (arith, e))
      | inr (price, e) ↦
          elim (Option-cases (signal_outcome_of settings p (frame_of t frames) price now eod)) [
            | inl quiet ↦ absurd (ground (arith, e, quiet))
            | inr (hit, found) ↦
                let fair =
                  signal_outcome_of-IsFair ordered settings p price now eod (numbers t price e) hs
                    ht (frame_of t frames) hit found in
                let same : outcome_row settings t p price now hit ≡ r = ground (arith, e, found) in
                subst
                  (λ row.
                    (row.ticker ≡ t)
                    × ((x : F) × (lookup t prices ≡ some x)
                        × IsFair settings p (frame_of t frames) x now eod row.outcome
                            row.exit_price))
                  same (refl, (price, e, fair))
          ]
    ]
