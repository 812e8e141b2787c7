-- ===== src/Services/Outcomes/Remembered.antt =====
-- That a scan of src/bist_bot/services/signal_outcome_tracker.py drops no position without a row.
use bist_bot.Common.{
  ℕ, ◌≡◌, ◌⊎◌, inl, inr, Bool, true, false, Option, some, List, [], ◌∷◌, ◌==◌, ◌||◌, any, is_some,
  Dict, lookup, insert, erase, Bool-cases, Option-cases, arith,
}
use bist_bot.Common.Floats.{Floats, Decimals}
use bist_bot.Services.Scans.{ScanSignal}
use bist_bot.Services.Outcomes.Files.{Tracked, OutcomeRow}
use bist_bot.Services.Outcomes.Hits.{tracked_from_signal}
use bist_bot.Services.Outcomes.Round.{close_tracked, open_tracked}
use bist_bot.Services.Outcomes.Fills.{Holds}

module _ {F : Type 0} ⦃fl : Floats F⦄ ⦃dc : Decimals F⦄ where
  Holds-erase :
      (k t : ℕ) (p : Tracked F) (d : Dict (Tracked F))
      → (t == k) ≡ false
      → Holds t p d
      → Holds t p (erase k d)
  Holds-erase k t p [] other h = h
  Holds-erase k t p (e ∷ d) other (inr h) = elim (Bool-cases (k == e.0)) [
    | inl same ↦ rw same h
    | inr apart ↦ rw apart (inr (Holds-erase k t p d other h))
  ]
  Holds-erase k t p (e ∷ d) other (inl (key, value)) =
      let apart : (k == e.0) ≡ false = ground (arith, key, other) in rw apart (inl (key, value))

  Holds-lookup :
      (t : ℕ) (p : Tracked F) (d : Dict (Tracked F)) → Holds t p d → is_some (lookup t d) ≡ true
  Holds-lookup t p [] h = absurd h
  Holds-lookup t p (e ∷ d) (inl (key, value)) = ground (arith, key)
  Holds-lookup t p (e ∷ d) (inr h) = ground (arith, Holds-lookup t p d h)

  Holds-insert :
      (k t : ℕ) (p v : Tracked F) (d : Dict (Tracked F))
      → (t == k) ≡ false
      → Holds t p d
      → Holds t p (insert k v d)
  Holds-insert k t p v [] other h = absurd h
  Holds-insert k t p v (e ∷ d) other (inl (key, value)) =
      let apart : (k == e.0) ≡ false = ground (arith, key, other) in rw apart (inl (key, value))
  Holds-insert k t p v (e ∷ d) other (inr h) = elim (Bool-cases (k == e.0)) [
    | inl same ↦ rw same (inr h)
    | inr apart ↦ rw apart (inr (Holds-insert k t p v d other h))
  ]

  abbrev pub has_ticker : ℕ → List (OutcomeRow F) → Bool
  has_ticker t rows = any (λ r. r.ticker == t) rows

  -- A position stays, or a row has its ticker.
  pub close_tracked-keeps :
      (row : ℕ → Tracked F → Option (OutcomeRow F))
      → ((t : ℕ) (p : Tracked F) (r : OutcomeRow F) → row t p ≡ some r → r.ticker ≡ t)
      → (items positions : Dict (Tracked F)) (t : ℕ) (p : Tracked F) → Holds t p positions
      → let out = close_tracked row items positions in Holds t p out.1 ⊎ (has_ticker t out.0 ≡ true)
  unfolding close_tracked
  close_tracked-keeps row named [] positions t p h = inl h
  close_tracked-keeps row named ((k, item) ∷ items) positions t p h =
      elim (Option-cases (row k item)) [
        | inl e ↦ rw (e, close_tracked) (close_tracked-keeps row named items positions t p h)
        | inr (r, e) ↦
            let its : r.ticker ≡ k = named k item r e in
            let rest = close_tracked row items (erase k positions) in
            elim (Bool-cases (t == k)) [
              | inl same ↦ rw (e, close_tracked) (inr (ground (arith, same, its)))
              | inr other ↦
                  elim (close_tracked-keeps row named items (erase k positions) t p
                    (Holds-erase k t p positions other h)) [
                      | inl kept ↦ rw (e, close_tracked) (inl kept)
                      | inr closed ↦ rw (e, close_tracked) (inr (ground (arith, closed)))
                    ]
            ]
      ]

  pub open_tracked-keeps :
      (closed : ℕ → Bool) (signals : List (ScanSignal F)) (positions : Dict (Tracked F)) (t : ℕ)
      (p : Tracked F)
      → Holds t p positions
      → Holds t p (open_tracked closed signals positions)
  unfolding open_tracked
  open_tracked-keeps closed [] positions t p h = h
  open_tracked-keeps closed (s ∷ signals) positions t p h =
      elim (Bool-cases (is_some (lookup s.ticker positions) || closed s.ticker)) [
        | inl stop ↦ rw stop (open_tracked-keeps closed signals positions t p h)
        | inr go ↦
            let held = Holds-lookup t p positions h in
            let other : (t == s.ticker) ≡ false = ground (arith, go, held) in
            rw go (
              open_tracked-keeps closed signals (insert s.ticker (tracked_from_signal s) positions)
                t p (Holds-insert s.ticker t p (tracked_from_signal s) positions other h))
      ]
