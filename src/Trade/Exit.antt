-- ===== src/Trade/Exit.antt =====
-- Where a round trip of trade_contract.py ends.
use bist_bot.Common.{
  ℕ, zero, suc, ◌+◌, ◌-◌, ◌≤◌, ◌≡◌, refl, ◌⊎◌, inl, inr, Bool, true, Option, none, some, List, [],
  ◌∷◌, arith, Bool-cases, Option-cases, leb, not, ◌&&◌, is_some, length,
}
use bist_bot.Common.Floats.{Floats}
use bist_bot.Trade.Outcome.{
  Session, ExitReason, Exit, trigger, scan, close_at, fallback, smaller, exit_of,
}

module _ {F : Type 0} ⦃fl : Floats F⦄ where
  -- None of the first sessions triggers.
  abbrev pub quiet : Option F → Option F → ℕ → List (Session F) → Bool
  quiet stop target zero ss = true
  quiet stop target (suc n) [] = true
  quiet stop target (suc n) (s ∷ ss) =
      not (is_some (trigger stop target s)) && quiet stop target n ss

  -- What triggers in the session with this index.
  abbrev pub trigger_at : Option F → Option F → ℕ → List (Session F) → Option (ExitReason × F)
  trigger_at stop target n [] = none
  trigger_at stop target zero (s ∷ ss) = trigger stop target s
  trigger_at stop target (suc n) (s ∷ ss) = trigger_at stop target n ss

  scan-first :
      (stop target : Option F) (n i : ℕ) (ss : List (Session F))
      → ((scan stop target n i ss ≡ none) × (quiet stop target n ss ≡ true))
        ⊎ ((k : ℕ) × (h : ExitReason × F) × (scan stop target n i ss
              ≡ some (record { index = i + k; reason = h.0; ref_price = h.1 }))
            × (suc k ≤ n)
            × (suc k ≤ length ss)
            × (quiet stop target k ss ≡ true)
            × (trigger_at stop target k ss ≡ some h))
  unfolding scan
  scan-first stop target zero i ss = inl (refl, refl)
  scan-first stop target (suc n) i [] = inl (refl, refl)
  scan-first stop target (suc n) i (s ∷ ss) = elim (Option-cases (trigger stop target s)) [
    | inr (h, e) ↦
        let here : i + 0 ≡ i = ground arith in
        inr (0, h, rw (scan, e, here) refl, ground arith, ground arith, refl, e)
    | inl e ↦ elim (scan-first stop target n (i + 1) ss) [
      | inl (missed, calm) ↦ inl (rw (scan, e) missed, rw e calm)
      | inr (k, h, found, in_time, in_data, calm, hit) ↦
          let next : i + 1 + k ≡ i + suc k = ground arith in
          inr (suc k, h, rw (scan, e, ← next) found, ground arith, ground arith, rw e calm, hit)
    ]
  ]

  quiet-all :
      (stop target : Option F) (n : ℕ) (ss : List (Session F))
      → quiet stop target (smaller (length ss) n) ss ≡ true
      → quiet stop target n ss ≡ true
  quiet-all stop target zero ss h = refl
  quiet-all stop target (suc n) [] h = refl
  quiet-all stop target (suc n) (s ∷ ss) h = ground (arith, quiet-all stop target n ss, h)

  quiet-le :
      (stop target : Option F) (k n : ℕ) (ss : List (Session F))
      → k ≤ n
      → quiet stop target n ss ≡ true
      → quiet stop target k ss ≡ true
  quiet-le stop target zero n ss le h = refl
  quiet-le stop target (suc k) zero ss le h = absurd (ground arith)
  quiet-le stop target (suc k) (suc n) [] le h = refl
  quiet-le stop target (suc k) (suc n) (s ∷ ss) le h =
      ground (arith, quiet-le stop target k n ss (ground arith), h)

  -- An exit within the data and the holding time, before which no session triggers, and which is what
  -- its session triggers, or the last session that may be held, at its close, where none triggers.
  pub IsFirst : Option F → Option F → ℕ → List (Session F) → Exit F → Type 0
  IsFirst stop target max ss e =
      (suc e.index ≤ max)
      × (suc e.index ≤ length ss)
      × (quiet stop target e.index ss ≡ true)
      × ((trigger_at stop target e.index ss ≡ some (e.reason, e.ref_price))
          ⊎ ((quiet stop target max ss ≡ true)
              × (suc e.index ≡ smaller (length ss) max)
              × (e.ref_price ≡ close_at e.index ss)))

  fallback-IsFirst :
      (stop target : Option F) (max : ℕ) (ss : List (Session F))
      → suc 0 ≤ max
      → suc 0 ≤ length ss
      → quiet stop target (smaller (length ss) max) ss ≡ true
      → IsFirst stop target max ss (fallback max ss)
  unfolding IsFirst fallback
  fallback-IsFirst stop target max ss p q calm =
      let all = quiet-all stop target max ss calm in
      elim (Bool-cases (leb max (length ss))) [
        | inl e ↦
            rw (fallback, e)
              (
                ground arith,
                ground arith,
                quiet-le stop target (max - 1) max ss (ground arith) all,
                inr (all, ground arith, refl),
              )
        | inr e ↦
            rw (fallback, e)
              (
                ground arith,
                ground arith,
                quiet-le stop target (length ss - 1) max ss (ground arith) all,
                inr (all, ground arith, refl),
              )
      ]

  -- With at least one session, and at least one to hold, the exit is within the data and the holding
  -- time, no session before it triggers, and either it is what its session triggers, or no session
  -- that may be held triggers and it is the last of those, at its close.
  pub exit_of-IsFirst :
      (stop target : Option F) (max : ℕ) (ss : List (Session F))
      → suc 0 ≤ max
      → suc 0 ≤ length ss
      → IsFirst stop target max ss (exit_of stop target max ss)
  unfolding exit_of
  exit_of-IsFirst stop target max ss p q =
      elim (scan-first stop target (smaller (length ss) max) 0 ss) [
        | inl (missed, calm) ↦ rw (exit_of, missed) (fallback-IsFirst stop target max ss p q calm)
        | inr (k, h, found, in_time, in_data, calm, hit) ↦
            let next : 0 + k ≡ k = ground arith in
            rw (exit_of, found, next) (unfold IsFirst in (ground arith, in_data, calm, inl hit))
      ]
