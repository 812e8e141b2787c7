-- ===== src/Agent/Positions/Counts.antt =====
-- How many rows of the live positions meet a test.
use bist_bot.Common.{
  ℕ, ◌+◌, ◌/◌, ◌≤◌, ◌≡◌, refl, Bool, false, List, [], ◌∷◌, ◌++◌, ◌==◌, keep, length, arith,
  Bool-cases, inl, inr,
}
use bist_bot.Common.Floats.{Floats}
use bist_bot.Agent.Positions.{
  LivePosition, Positions, is_position_open, fails, connected, insert_by_entry, sort_by_entry,
  get_open_positions, get_daily_trade_count, open_position,
}

abbrev pub count : {F : Type 0} → (LivePosition F → Bool) → Positions F → ℕ
count test p = length (keep test p.rows)

abbrev pub open_count : {F : Type 0} → Positions F → ℕ
open_count p = count (λ r. is_position_open r.state) p

-- The positions that were entered on the day of `now`.
abbrev pub day_count : {F : Type 0} → ℕ → Positions F → ℕ
day_count now p = count (λ r. r.entry_time / 86_400 == now / 86_400) p

module _ {F : Type 0} where
  length-insert_by_entry :
      (r : LivePosition F) (rs : List (LivePosition F))
      → length (insert_by_entry r rs) ≡ length rs + 1
  unfolding insert_by_entry
  length-insert_by_entry r [] = omega arith
  length-insert_by_entry r (s ∷ ss) = ground (arith, length-insert_by_entry r ss)

  length-sort_by_entry : (rs : List (LivePosition F)) → length (sort_by_entry rs) ≡ length rs
  unfolding sort_by_entry
  length-sort_by_entry [] = refl
  length-sort_by_entry (r ∷ rs) =
      omega (arith, length-insert_by_entry r (sort_by_entry rs), length-sort_by_entry rs)

  pub length-get_open_positions :
      (p : Positions F) → p.faults ≡ [] → length (get_open_positions p).0 ≡ open_count p
  unfolding get_open_positions
  length-get_open_positions p calm =
      let quiet : fails p ≡ false = rw calm refl in
      rw quiet (length-sort_by_entry (keep (λ r. is_position_open r.state) p.rows))

  pub get_open_positions-again :
      (p : Positions F)
      → p.faults ≡ []
      → ((get_open_positions (get_open_positions p).1).0 ≡ (get_open_positions p).0)
        × ((get_open_positions p).1.faults ≡ [])
  unfolding get_open_positions
  get_open_positions-again p calm =
      let quiet : fails p ≡ false = rw calm refl in
      let still : fails (connected p) ≡ false = rw calm refl in
      (rw (quiet, still) refl, rw calm refl)

  pub get_daily_trade_count_lem :
      (now : ℕ) (p : Positions F)
      → p.faults ≡ []
      → (get_daily_trade_count now p).0 ≡ day_count now p
  unfolding get_daily_trade_count
  get_daily_trade_count_lem now p calm = let quiet : fails p ≡ false = rw calm refl in rw quiet refl

  length-keep-append :
      (test : LivePosition F → Bool) (rs : List (LivePosition F)) (r : LivePosition F)
      → length (keep test (rs ++ (r ∷ []))) ≤ length (keep test rs) + 1
  length-keep-append test [] r = ground arith
  length-keep-append test (s ∷ ss) r = ground (arith, length-keep-append test ss r)

module _ {F : Type 0} ⦃fl : Floats F⦄ where
  pub count-open_position :
      (test : LivePosition F → Bool) (now ticker order : ℕ) (price quantity stop target : F)
      (p : Positions F)
      → count test (open_position now ticker order price quantity stop target p).1
        ≤ count test p + 1
  unfolding open_position
  count-open_position test now ticker order price quantity stop target p =
      elim (Bool-cases (fails p)) [
        | inl e ↦ rw (open_position, e) (omega arith)
        | inr e ↦ rw (open_position, e) (length-keep-append test p.rows _)
      ]
