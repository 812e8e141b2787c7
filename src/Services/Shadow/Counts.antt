-- ===== src/Services/Shadow/Counts.antt =====
-- How often a ticker stands in the positions, in the rows of a scan and in the open shadow rows of
-- the ledger, over the operations of services/shadow_trade_service.py.
use bist_bot.Common.{
  ℕ, ◌+◌, ◌<◌, ◌≡◌, refl, inl, inr, true, List, [], ◌∷◌, ◌==◌, any, keep, length, Option-cases,
  arith,
}
use bist_bot.Services.Entries.{one_if}
use bist_bot.Services.Ledger.{
  Kind, Ledger, Opening, Closing, Target, is_match, closed_entry, opened_row, record_open,
  close_entry, newest,
}
use bist_bot.Services.Ledger.Rows.{
  IsKeyed, write_entry-Ascends, newest_found, count-append, count-write_entry,
}
use bist_bot.Services.Shadow.Files.{ClosedRow}

module _ {F : Type 0} where
  abbrev pub open_shadow : ℕ → Ledger F → ℕ
  open_shadow t l = length (keep (is_match Kind.shadow (Target.by_ticker t)) l.rows)

  abbrev pub pending : ℕ → List (ClosedRow F) → ℕ
  pending t rows = length (keep (λ row. row.ticker == t) rows)

  pub any-pending :
      (t : ℕ) (rows : List (ClosedRow F))
      → 0 < pending t rows
      → any (λ row. row.ticker == t) rows ≡ true
  any-pending t [] h = absurd (omega arith)
  any-pending t (row ∷ rows) h = ground (arith, any-pending t rows)

  pub close_entry-IsKeyed :
      (k : Kind) (sought : Target) (c : Closing F) (l : Ledger F)
      → IsKeyed l
      → IsKeyed (close_entry k sought c l).1
  unfolding close_entry
  close_entry-IsKeyed k sought c l h = elim (Option-cases (newest (is_match k sought) l.rows)) [
    | inl e ↦ rw (close_entry, e) h
    | inr (id, e) ↦
        rw (close_entry, e)
          (write_entry-Ascends (closed_entry c) (λ r. refl) id 0 l.next_id l.rows h)
  ]

  -- A close takes one open row of its ticker, and none of another.
  pub close_entry-open :
      (k t : ℕ) (c : Closing F) (l : Ledger F)
      → IsKeyed l
      → 0 < open_shadow k l
      → open_shadow t l
        ≡ open_shadow t (close_entry Kind.shadow (Target.by_ticker k) c l).1 + one_if (k == t)
  unfolding close_entry
  close_entry-open k t c l h some_open =
      let sought = is_match {F = F} Kind.shadow (Target.by_ticker k) in
      elim (Option-cases (newest sought l.rows)) [
        | inl e ↦ absurd (omega (arith, newest_found sought l.rows e))
        | inr (id, e) ↦
            rw (close_entry, e)
              (count-write_entry sought (is_match Kind.shadow (Target.by_ticker t)) (closed_entry c)
                (k == t) (λ r. ground arith) (λ r m. ground arith) 0 l.next_id id l.rows h e)
      ]

  pub record_open-open :
      (t : ℕ) (o : Opening F) (l : Ledger F)
      → open_shadow t (record_open o l).1
        ≡ open_shadow t l
          + one_if (is_match Kind.shadow (Target.by_ticker t) (opened_row o l.next_id))
  unfolding record_open
  record_open-open t o l =
      count-append (is_match Kind.shadow (Target.by_ticker t)) l.rows (opened_row o l.next_id)
