-- ===== src/Services/Entries.antt =====
-- How often a key stands in a dictionary of the services, and what holds of all its entries.
use bist_bot.Common.{
  ℕ, ◌+◌, ◌<◌, ◌≤◌, ◌≡◌, ◌≢◌, refl, inl, inr, Bool, true, false, none, [], ◌∷◌, ◌==◌, keep, length,
  Dict, Each, lookup, insert, erase, Bool-cases, arith,
}

abbrev pub one_if : Bool → ℕ
one_if true = 1
one_if false = 0

module _ {V : Type 0} where
  -- How many entries have the key: one or none, in a Python dict.
  abbrev pub held : ℕ → Dict V → ℕ
  held t d = length (keep (λ e. e.0 == t) d)

  pub held-erase :
      (k t : ℕ) (d : Dict V) → 0 < held k d → held t d ≡ held t (erase k d) + one_if (k == t)
  held-erase k t [] h = absurd (omega arith)
  held-erase k t (e ∷ d) h = ground (arith, held-erase k t d)

  pub held-insert :
      (k t : ℕ) (v : V) (d : Dict V)
      → lookup k d ≡ none
      → held t (insert k v d) ≡ held t d + one_if (k == t)
  held-insert k t v [] h = ground arith
  held-insert k t v (e ∷ d) h = ground (arith, held-insert k t v d)

  pub held-missing : (k : ℕ) (d : Dict V) → lookup k d ≡ none → held k d ≡ 0
  held-missing k [] h = refl
  held-missing k (e ∷ d) h = ground (arith, held-missing k d)

  pub Each-map {κ μ} :
      {P : ℕ → V → Type κ} {Q : ℕ → V → Type μ}
      → ((t : ℕ) (v : V) → P t v → Q t v)
      → (d : Dict V) → Each P d
      → Each Q d
  Each-map f [] h = tt
  Each-map f (e ∷ d) (h, hs) = (f e.0 e.1 h, Each-map f d hs)

  pub Each-both {κ μ} :
      (P : ℕ → V → Type κ) (Q : ℕ → V → Type μ) (d : Dict V)
      → Each P d
      → Each Q d
      → Each (λ t v. P t v × Q t v) d
  Each-both P Q [] h k = tt
  Each-both P Q (e ∷ d) (h, hs) (k, ks) = ((h, k), Each-both P Q d hs ks)

  Each-ne {κ} :
      (P : ℕ → V → Type κ) (k : ℕ) (d : Dict V)
      → held k d ≡ 0
      → Each P d
      → Each (λ t v. P t v × (t ≢ k)) d
  Each-ne P k [] none_held h = tt
  Each-ne P k (e ∷ d) none_held (h, hs) =
      ((h, λ same. ground arith), Each-ne P k d (ground arith) hs)

  -- A key that stands at most once is gone after it was erased.
  pub Each-erase_ne {κ} :
      (P : ℕ → V → Type κ) (k : ℕ) (d : Dict V)
      → held k d ≤ 1
      → Each P d
      → Each (λ t v. P t v × (t ≢ k)) (erase k d)
  Each-erase_ne P k [] once h = tt
  Each-erase_ne P k (e ∷ d) once (h, hs) = elim (Bool-cases (k == e.0)) [
    | inl same ↦ rw same (Each-ne P k d (ground arith) hs)
    | inr other ↦ rw other ((h, λ same. ground arith), Each-erase_ne P k d (ground arith) hs)
  ]

  pub held-erase_le : (k t : ℕ) (d : Dict V) → held t (erase k d) ≤ held t d
  held-erase_le k t [] = omega arith
  held-erase_le k t (e ∷ d) = ground (arith, held-erase_le k t d)
