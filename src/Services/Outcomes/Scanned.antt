-- ===== src/Services/Outcomes/Scanned.antt =====
-- What a scan of src/bist_bot/services/signal_outcome_tracker.py closes and what it keeps.
use mathlib.Core.Path.{subst, subst₂}
use bist_bot.Common.{
  ℕ, ◌≤◌, ◌≡◌, ◌⊎◌, refl, sym, ap, inl, inr, Bool, true, Option, none, some, List, [], ◌∷◌, All,
  if◌then◌else◌, ◌||◌, is_some, Dict, Each, Each-insert, lookup, insert, erase, Bool-cases,
  Option-cases, arith,
}
use bist_bot.Common.Floats.{Floats, Decimals, IsOrdered}
use bist_bot.Services.Entries.{held, Each-map, Each-both, Each-erase_ne, held-erase_le}
use bist_bot.Services.Scans.{ScanSignal, current_prices}
use bist_bot.Services.Outcomes.Files.{OutcomeSettings, Tracked, OutcomeRow, Outcomes, Frame}
use bist_bot.Services.Outcomes.Hits.{frame_of, tracked_from_signal, widened, update_mfe_mae}
use bist_bot.Services.Outcomes.Round.{
  due_row_of, close_tracked, open_tracked, closes_of, scan_locked, track_scan,
}
use bist_bot.Services.Outcomes.Fills.{
  Holds, IsFair, IsKept, AreNumbers, due_row_of-ticker, due_row_of-IsKept, due_row_of-IsFair,
}
use bist_bot.Services.Outcomes.Remembered.{has_ticker, close_tracked-keeps, open_tracked-keeps}

module _ {F : Type 0} ⦃fl : Floats F⦄ ⦃dc : Decimals F⦄ where
  -- The closed rows satisfy what every row of an item does, and what is left what every item without a
  -- row does.
  close_tracked_lem :
      (row : ℕ → Tracked F → Option (OutcomeRow F)) (Q : ℕ → Tracked F → Type 0)
      (R : OutcomeRow F → Type 0) (items positions : Dict (Tracked F))
      → Each (λ t p. (row t p ≡ none → Q t p) × ((r : OutcomeRow F) → row t p ≡ some r → R r)) items
      → ((t : ℕ) → held t positions ≤ 1)
      → Each (λ t p. Q t p ⊎ Holds t p items) positions
      → All R (close_tracked row items positions).0 × Each Q (close_tracked row items positions).1
  unfolding close_tracked
  close_tracked_lem row Q R [] positions ok single each =
      (tt, Each-map (λ t p h. elim h [ inl q ↦ q | inr e ↦ absurd e ]) positions each)
  close_tracked_lem row Q R ((ticker, item) ∷ items) positions ((kept, closed), ok) single each =
      elim (Option-cases (row ticker item)) [
        | inl e ↦
            let same : close_tracked row ((ticker, item) ∷ items) positions
                ≡ close_tracked row items positions =
              rw (e, close_tracked) refl in
            subst (λ out. All R out.0 × Each Q out.1) (sym same)
              (close_tracked_lem row Q R items positions ok single (
                Each-map
                  (λ t p h. elim h [
                    | inl q ↦ inl q
                    | inr (inl (same_t, same_p)) ↦ inl (subst₂ Q same_t same_p (kept e))
                    | inr (inr later) ↦ inr later
                  ])
                  positions each))
        | inr (r, e) ↦
            let (rows, left) =
              close_tracked_lem row Q R items (erase ticker positions) ok
                (λ t. omega (arith, held-erase_le ticker t positions, single t))
                (Each-map
                  (λ t p h. elim h.0 [
                    | inl q ↦ inl q
                    | inr (inl (same_t, same_p)) ↦ absurd (h.1 (sym same_t))
                    | inr (inr later) ↦ inr later
                  ])
                  (erase ticker positions)
                  (Each-erase_ne (λ t p. Q t p ⊎ Holds t p ((ticker, item) ∷ items)) ticker
                    positions (single ticker) each)) in
            let out = close_tracked row items (erase ticker positions) in
            let same : close_tracked row ((ticker, item) ∷ items) positions ≡ (r ∷ out.0, out.1) =
              rw (e, close_tracked) refl in
            subst (λ result. All R result.0 × Each Q result.1) (sym same) ((closed r e, rows), left)
      ]

  open_tracked_lem :
      (P : ℕ → Tracked F → Type 0) (closed : ℕ → Bool) (signals : List (ScanSignal F))
      (positions : Dict (Tracked F))
      → ((s : ScanSignal F) → P s.ticker (tracked_from_signal s))
      → Each P positions
      → Each P (open_tracked closed signals positions)
  unfolding open_tracked
  open_tracked_lem P closed [] positions fresh each = each
  open_tracked_lem P closed (s ∷ signals) positions fresh each =
      elim (Bool-cases (is_some (lookup s.ticker positions) || closed s.ticker)) [
        | inl stop ↦ rw stop (open_tracked_lem P closed signals positions fresh each)
        | inr go ↦ rw go (
            open_tracked_lem P closed signals (insert s.ticker (tracked_from_signal s) positions)
              fresh (Each-insert P s.ticker (tracked_from_signal s) positions (fresh s) each))
      ]

  widened-levels :
      (bar : Option (F × F)) (p : Tracked F)
      → ((widened bar p).stop ≡ p.stop) × ((widened bar p).target ≡ p.target)
  unfolding widened
  widened-levels none p = (refl, refl)
  widened-levels (some (high, low)) p = (refl, refl)

  widened-AreNumbers :
      (frames : Dict (Frame F)) (d : Dict (Tracked F))
      → AreNumbers d
      → AreNumbers (update_mfe_mae frames d)
  unfolding update_mfe_mae
  widened-AreNumbers frames [] h = tt
  widened-AreNumbers frames ((t, p) ∷ d) (h, hs) =
      let (stop, target) = widened-levels (frame_of t frames) p in
      (rw (stop, target) h, widened-AreNumbers frames d hs)

  widened-held :
      (frames : Dict (Frame F)) (t : ℕ) (d : Dict (Tracked F))
      → held t (update_mfe_mae frames d) ≡ held t d
  unfolding update_mfe_mae
  widened-held frames t [] = refl
  widened-held frames t ((k, p) ∷ d) = ground (arith, widened-held frames t d)

  Holds-all : (d : Dict (Tracked F)) → Each (λ t p. Holds t p d) d
  Holds-all [] = tt
  Holds-all (e ∷ d) = (inl (refl, refl), Each-map (λ t p h. inr h) d (Holds-all d))

  -- The row of a position that was tracked, and its outcome and fill at a price of the scan.
  abbrev pub IsFairRow :
      OutcomeSettings F
      → Dict (Frame F)
      → Dict (Tracked F)
      → Dict F
      → ℕ
      → Bool
      → OutcomeRow F
      → Type 0
  IsFairRow settings frames d prices now eod r =
      (p : Tracked F) × (price : F) × Holds r.ticker p d
      × (lookup r.ticker prices ≡ some price)
      × IsFair settings p (frame_of r.ticker frames) price now eod r.outcome r.exit_price

  -- What a scan leaves open: a position of before that nothing closes, or that of a new signal.
  abbrev pub IsLeft :
      OutcomeSettings F
      → Dict (Frame F)
      → Dict (Tracked F)
      → Dict F
      → ℕ
      → Bool
      → ℕ
      → Tracked F
      → Type 0
  IsLeft settings frames d prices now eod t p =
      (Holds t p d × IsKept settings frames prices now eod t p)
      ⊎ ((s : ScanSignal F) × (t ≡ s.ticker) × (p ≡ tracked_from_signal s))

  -- A position is still there, or a row of its ticker was closed.
  abbrev pub IsRemembered : Dict (Tracked F) → List (OutcomeRow F) → Dict (Tracked F) → Type 0
  IsRemembered before closed after =
      Each (λ t p. Holds t p after ⊎ (has_ticker t closed ≡ true)) before

  -- What a scan closes, leaves and remembers.
  abbrev pub IsSettled :
      OutcomeSettings F
      → List (ScanSignal F)
      → Dict (Frame F)
      → ℕ
      → Bool
      → Outcomes F
      → List (OutcomeRow F) × Outcomes F
      → Type 0
  IsSettled settings signals frames now eod s (closed, after) =
      let tracked = update_mfe_mae frames s.positions in
      let prices = current_prices signals (closes_of frames) in
      All (IsFairRow settings frames tracked prices now eod) closed
      × Each (IsLeft settings frames tracked prices now eod) after.positions
      × IsRemembered tracked closed after.positions

  scan_locked-IsFair :
      (settings : OutcomeSettings F) (signals : List (ScanSignal F)) (frames : Dict (Frame F))
      (now : ℕ) (eod : Bool) (s : Outcomes F)
      → IsOrdered F
      → ((t : ℕ) (price : F)
          → lookup t (current_prices signals (closes_of frames)) ≡ some price
          → fl.le price price ≡ true)
      → AreNumbers s.positions
      → ((t : ℕ) → held t s.positions ≤ 1)
      → IsSettled settings signals frames now eod s (scan_locked settings signals frames now eod s)
  unfolding scan_locked
  scan_locked-IsFair settings signals frames now eod s ordered numbers levels single =
      let tracked = update_mfe_mae frames s.positions in
      let prices = current_prices signals (closes_of frames) in
      let row = due_row_of settings frames prices now eod in
      let judge : (t : ℕ) (p : Tracked F)
          → Holds t p tracked × ((fl.le p.stop p.stop ≡ true) × (fl.le p.target p.target ≡ true))
          → (row t p ≡ none → IsLeft settings frames tracked prices now eod t p)
            × ((r : OutcomeRow F)
                → row t p ≡ some r
                → IsFairRow settings frames tracked prices now eod r) =
        λ t p h. (
          (λ e. inl (h.0, due_row_of-IsKept settings frames prices now eod t p e)),
          (λ r e.
              let (same, (price, found, fair)) =
                due_row_of-IsFair settings frames prices now eod ordered numbers t p r h.1.0 h.1.1
                  e in
              subst
                (λ k.
                  (q : Tracked F) × (price : F) × Holds k q tracked
                  × (lookup k prices ≡ some price)
                  × IsFair settings q (frame_of k frames) price now eod r.outcome r.exit_price)
                (sym same) (p, price, h.0, found, fair)),
        ) in
      let (rows, left) =
        close_tracked_lem row (IsLeft settings frames tracked prices now eod)
          (IsFairRow settings frames tracked prices now eod) tracked tracked
          (Each-map judge tracked (
            Each-both (λ t p. Holds t p tracked)
              (λ t p. (fl.le p.stop p.stop ≡ true) × (fl.le p.target p.target ≡ true)) tracked
              (Holds-all tracked) (widened-AreNumbers frames s.positions levels)))
          (λ t. omega (arith, single t, widened-held frames t s.positions))
          (Each-map (λ t p e. inr e) tracked (Holds-all tracked)) in
      let closed = close_tracked row tracked tracked in
      let kept : (t : ℕ) (p : Tracked F)
          → Holds t p tracked
          → Holds t p closed.1 ⊎ (has_ticker t closed.0 ≡ true) =
        close_tracked-keeps row (due_row_of-ticker settings frames prices now eod) tracked
          tracked in
      (
        rows,
        open_tracked_lem (IsLeft settings frames tracked prices now eod) _ _ _
            (λ sig. inr (sig, refl, refl)) left,
        Each-map
            (λ t p h. elim (kept t p h) [
              | inl stays ↦ inl (open_tracked-keeps _ _ closed.1 t p stays)
              | inr gone ↦ inr gone
            ])
            tracked (Holds-all tracked),
      )

  -- A scan that tracks outcomes closes fairly and forgets nothing. Every row that it closes is of a
  -- tracked position, and of its four outcomes: a stop was set, the close is at it, or a target was set
  -- too and the low of the bar is at the stop, and the fill is neither above the stop nor above the close;
  -- a target was set, the close is at it, or a stop was set too and the high is at the target, the low is
  -- not at a stop, and the fill is below neither the target nor the close; the session is over, or it is
  -- not and the days of the limit are over, and then the close is at neither level, nor is the bar where
  -- both are set, and the close is the fill. Every position afterwards is of a new signal, or of before,
  -- and then it has no price above nothing, or the session is not over, the days are not over, the close
  -- is at neither level, nor is the bar where both are set. Every position of before is still there, or a
  -- row of its ticker is closed. The floats are ordered, no price and no level is NaN, and a ticker has
  -- one position at most.
  pub track_scan-IsFair :
      (settings : OutcomeSettings F) (signals : List (ScanSignal F)) (frames : Dict (Frame F))
      (now : ℕ) (eod : Bool) (s : Outcomes F)
      → IsOrdered F
      → settings.outcome_tracking_enabled ≡ true
      → ((t : ℕ) (price : F)
          → lookup t (current_prices signals (closes_of frames)) ≡ some price
          → fl.le price price ≡ true)
      → AreNumbers s.positions
      → ((t : ℕ) → held t s.positions ≤ 1)
      → IsSettled settings signals frames now eod s (track_scan settings signals frames now eod s)
  unfolding track_scan
  track_scan-IsFair settings signals frames now eod s ordered on numbers levels single =
      subst (IsSettled settings signals frames now eod s)
        (sym (ap (λ b. if b then scan_locked settings signals frames now eod s else ([], s)) on))
        (scan_locked-IsFair settings signals frames now eod s ordered numbers levels single)
