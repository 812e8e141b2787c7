-- ===== src/Risk/Manager/Admitted.antt =====
-- The signals that a scan admits through check_sector_limit of src/bist_bot/risk/manager.py.
use mathlib.Core.Path.{subst}
use bist_bot.Common.{
  ℕ, ◌+◌, ◌≡◌, ◌⊎◌, refl, sym, inl, inr, ◌∙◌, Bool, true, false, Option, none, some, List, [], ◌∷◌,
  if◌then◌else◌, ◌==◌, or_else, length, keep, Dict, lookup, insert, lookup-insert, Bool-cases,
  Option-cases, arith,
}
use bist_bot.Common.Int.{pos, leb_ℤ}
use bist_bot.Common.Floats.{Floats}
use bist_bot.Risk.Manager.State.{ManagerConfig, RiskManager, inner_counts, scans_with, own_with}
use bist_bot.Risk.Manager.Sectors.{
  sector_limit, current_counts, with_counts, check_sector_limit, enter_scan,
}

abbrev pub has_sector : ℕ → Option ℕ → Bool
has_sector k none = false
has_sector k (some sector) = sector == k

abbrev pub in_sector : {F : Type 0} → ManagerConfig F → ℕ → List ℕ → ℕ
in_sector c k tickers = length (keep (λ t. has_sector k (c.sector_map t)) tickers)

inner-with :
    (counts : Dict ℕ) (scans : List (Dict ℕ)) (own : Dict ℕ)
    → inner_counts (scans_with counts scans) (own_with counts scans own) ≡ counts
inner-with counts [] own = refl
inner-with counts (inner ∷ outer) own = refl

abbrev one_of : Bool → ℕ → List ℕ
one_of passed t = if passed then t ∷ [] else []

module _ {F H C : Type 0} ⦃fl : Floats F⦄ (c : ManagerConfig F) where
  -- The tickers of a scan that pass the check, in order, and the manager afterwards.
  unfoldable pub admit : List ℕ → RiskManager F H C → List ℕ × RiskManager F H C
  admit [] m = ([], m)
  admit (t ∷ tickers) m =
      let (passed, m1) = check_sector_limit c t m in
      let (rest, m2) = admit tickers m1 in (if passed then t ∷ rest else rest, m2)

  abbrev counted : ℕ → RiskManager F H C → ℕ
  counted k m = or_else (lookup k (current_counts m)) 0

  -- A count that grows by the admitted tickers of its sector, and then is within the limit; all of the
  -- sector are admitted, or the limit is reached.
  abbrev Grew : ℕ → RiskManager F H C → List ℕ → List ℕ → RiskManager F H C → Type 0
  Grew k m given passed after =
      (counted k after ≡ counted k m + in_sector c k passed)
      × ((counted k after ≡ counted k m) ⊎ (leb_ℤ (pos (counted k after)) (sector_limit c) ≡ true))
      × ((in_sector c k passed ≡ in_sector c k given)
          ⊎ (leb_ℤ (sector_limit c) (pos (counted k after)) ≡ true))

  -- A check that passes adds one to the count of its sector, and one that does not changes nothing.
  check-Grew :
      (k t : ℕ) (m : RiskManager F H C)
      → let (passed, after) = check_sector_limit c t m in Grew k m (t ∷ []) (one_of passed t) after
  unfolding check_sector_limit
  check-Grew k t m = elim (Option-cases (c.sector_map t)) [
    | inl e ↦
        let same : check_sector_limit c t m ≡ (true, m) = rw (e, check_sector_limit) refl in
        subst (λ out. Grew k m (t ∷ []) (one_of out.0 t) out.1) (sym same)
          (ground (arith, e), inl refl, inl refl)
    | inr (sector, e) ↦
        let counts = current_counts m in
        let current = or_else (lookup sector counts) 0 in
        elim (Bool-cases (leb_ℤ (sector_limit c) (pos current))) [
          | inl full ↦
              let same : check_sector_limit c t m ≡ (false, m) =
                rw (e, full, check_sector_limit) refl in
              subst (λ out. Grew k m (t ∷ []) (one_of out.0 t) out.1) (sym same)
                (elim (Bool-cases (sector == k)) [
                  | inl hit ↦ (ground arith, inl refl, inr (ground (arith, e, hit, full)))
                  | inr other ↦ (ground arith, inl refl, inl (ground (arith, e, other)))
                ])
          | inr room ↦
              let after = insert sector (current + 1) counts in
              let same : check_sector_limit c t m ≡ (true, with_counts after m) =
                rw (e, room, check_sector_limit) refl in
              let now = inner-with after m.scans m.sector_signal_counts in
              let at = lookup-insert k sector (current + 1) counts in
              subst (λ out. Grew k m (t ∷ []) (one_of out.0 t) out.1) (sym same)
                (elim (Bool-cases (k == sector)) [
                  | inl hit ↦
                      let here : k ≡ sector = ground (arith, hit) in
                      (
                        ground (arith, e, hit, now, at, here),
                        inr (ground (arith, e, hit, now, at, here, room)),
                        inl refl,
                      )
                  | inr other ↦ (
                    ground (arith, e, other, now, at),
                    inl (ground (arith, other, now, at)),
                    inl refl,
                  )
                ])
        ]
  ]

  -- The tickers that are admitted are counted, and a count that grew is within the limit.
  admit-Grew :
      (k : ℕ) (tickers : List ℕ) (m : RiskManager F H C)
      → let (passed, after) = admit tickers m in Grew k m tickers passed after
  unfolding admit
  admit-Grew k [] m = (omega arith, inl refl, inl refl)
  admit-Grew k (t ∷ tickers) m =
      let (passed, m1) = check_sector_limit c t m in
      let one = check-Grew k t m in
      let rest = admit-Grew k tickers m1 in
      (
        ground (arith, one.0, rest.0),
        elim rest.1 [
          | inr fit ↦ inr fit
          | inl same ↦ elim one.1 [
            | inl before ↦ inl (same ∙ before)
            | inr fit ↦ inr (subst (λ n. leb_ℤ (pos n) (sector_limit c) ≡ true) (sym same) fit)
          ]
        ],
        elim rest.2 [
          | inr full ↦ inr full
          | inl all ↦ elim one.2 [
            | inl first ↦ inl (ground (arith, first, all))
            | inr full ↦ inr (ground (arith, full, rest.0))
          ]
        ],
      )

  -- A scan that starts with no counts admits at most as many tickers of a sector as its limit, in
  -- whatever order they come, and it admits all of the sector or as many as the limit.
  pub admit-limit :
      (k : ℕ) (tickers : List ℕ) (m : RiskManager F H C)
      → let n = in_sector c k (admit tickers (enter_scan m)).0 in
        ((n ≡ 0) ⊎ (leb_ℤ (pos n) (sector_limit c) ≡ true))
        × ((n ≡ in_sector c k tickers) ⊎ (leb_ℤ (sector_limit c) (pos n) ≡ true))
  unfolding enter_scan
  admit-limit k tickers m =
      let n = in_sector c k (admit tickers (enter_scan m)).0 in
      let (count, fits, all) = admit-Grew k tickers (enter_scan m) in
      let e : counted k (admit tickers (enter_scan m)).1 ≡ n = omega (arith, count) in
      (
        elim fits [
          | inl same ↦ inl (omega (arith, count, same))
          | inr fit ↦ inr (subst (λ i. leb_ℤ (pos i) (sector_limit c) ≡ true) e fit)
        ],
        elim all [
          | inl same ↦ inl same
          | inr full ↦ inr (subst (λ i. leb_ℤ (sector_limit c) (pos i) ≡ true) e full)
        ],
      )
