-- ===== src/Common/Dicts.antt =====
-- A Python dict as an association list in insertion order. Its keys are identifiers that the
-- program only compares (tickers, order ids, row ids), read as numbers.
use Prim.Native.Nat.{ℕ}
use mathlib.Core.Path.{◌≡◌, refl, subst₂}
use mathlib.Core.Logic.{◌≢◌, inl, inr}
use mathlib.Core.Option.{Option, none, some}
use mathlib.Core.List.{List, [], ◌∷◌}
use native.Mathlib.Omega.{arith}
use bist_bot.Common.Tests.{◌==◌, if◌then◌else◌, Bool-cases}

abbrev pub Dict {ℓ} : Type ℓ → Type ℓ
Dict V = List (ℕ × V)

module _ {ℓ} {V : Type ℓ} where
  -- `d.values()`
  abbrev pub values : Dict V → List V
  values [] = []
  values (e ∷ rest) = e.1 ∷ values rest

  -- `d.pop(k, None)`
  abbrev pub erase : ℕ → Dict V → Dict V
  erase key [] = []
  erase key (e ∷ rest) = if key == e.0 then rest else e ∷ erase key rest

  -- `d.get(k)`
  abbrev pub lookup : ℕ → Dict V → Option V
  lookup key [] = none
  lookup key (e ∷ rest) = if key == e.0 then some e.1 else lookup key rest

  -- `d[k] = v`
  abbrev pub insert : ℕ → V → Dict V → Dict V
  insert key new [] = (key, new) ∷ []
  insert key new (e ∷ rest) = if key == e.0 then (key, new) ∷ rest else e ∷ insert key new rest

  pub lookup-insert :
      (i key : ℕ) (new : V) (dict : Dict V)
      → lookup i (insert key new dict) ≡ (if i == key then some new else lookup i dict)
  lookup-insert i key new [] = refl
  lookup-insert i key new (e ∷ rest) = ground (arith, lookup-insert i key new rest)

  pub lookup-insert_ne :
      (i key : ℕ) (new : V) (dict : Dict V)
      → i ≢ key
      → lookup i (insert key new dict) ≡ lookup i dict
  lookup-insert_ne i key new dict other = ground (arith, lookup-insert i key new dict)

  pub lookup-insert_self :
      (key : ℕ) (new : V) (dict : Dict V) → lookup key (insert key new dict) ≡ some new
  lookup-insert_self key new dict = ground (arith, lookup-insert key key new dict)

  pub lookup-erase_ne :
      (i key : ℕ) (dict : Dict V) → i ≢ key → lookup i (erase key dict) ≡ lookup i dict
  lookup-erase_ne i key [] other = refl
  lookup-erase_ne i key (e ∷ rest) other = ground (arith, lookup-erase_ne i key rest other)

module _ {ℓ} {V : Type ℓ} where
  -- A property of every entry, given its key and its value.
  abbrev pub Each {κ} : (ℕ → V → Type κ) → Dict V → Type κ
  Each P [] = Unit
  Each P (e ∷ d) = P e.0 e.1 × Each P d

  pub Each-insert {κ} :
      (P : ℕ → V → Type κ) (k : ℕ) (v : V) (d : Dict V) → P k v → Each P d → Each P (insert k v d)
  Each-insert P k v [] p a = (p, tt)
  Each-insert P k v (e ∷ d) p a = elim (Bool-cases (k == e.0)) [
    | inl same ↦ rw same (p, a.1)
    | inr other ↦ rw other (a.0, Each-insert P k v d p a.1)
  ]

  pub Each-erase {κ} : (P : ℕ → V → Type κ) (k : ℕ) (d : Dict V) → Each P d → Each P (erase k d)
  Each-erase P k [] a = tt
  Each-erase P k (e ∷ d) a = elim (Bool-cases (k == e.0)) [
    | inl same ↦ rw same a.1
    | inr other ↦ rw other (a.0, Each-erase P k d a.1)
  ]

  pub Each-lookup {κ} :
      (P : ℕ → V → Type κ) (k : ℕ) {v : V} (d : Dict V) → Each P d → lookup k d ≡ some v → P k v
  Each-lookup P k [] a h = absurd (ground arith)
  Each-lookup P k {v} (e ∷ d) a h = elim (Bool-cases (k == e.0)) [
    | inl same ↦
        let key : e.0 ≡ k = ground arith in
        let value : e.1 ≡ v = ground arith in subst₂ P key value a.0
    | inr other ↦ Each-lookup P k d a.1 (ground arith)
  ]
