-- ===== src/Services/Ledger/Rows.antt =====
-- The table of db/repositories/ledger_repository.py under its primary key: what `close_entry` finds
-- and how many rows a filter keeps after it.
use bist_bot.Common.{
  ℕ, suc, ◌+◌, ◌<◌, ◌≤◌, ◌≡◌, refl, inl, inr, Bool, true, false, none, some, List, [], ◌∷◌, ◌++◌,
  ◌==◌, keep, All, length, Bool-cases, Option-cases, arith,
}
use bist_bot.Services.Entries.{one_if}
use bist_bot.Services.Ledger.{
  Kind, same_kind, TradeLedgerRecord, Ledger, Opening, opened_row, record_open, newest, write_entry,
}

pub same_kind_self : (k : Kind) → same_kind k k ≡ true
same_kind_self Kind.paper = refl
same_kind_self Kind.shadow = refl

-- The ids ascend, from `low` to below `high`.
abbrev pub Ascends : {F : Type 0} → ℕ → ℕ → List (TradeLedgerRecord F) → Type 0
Ascends low high [] = low ≤ high
Ascends low high (r ∷ rs) = (low ≤ r.id) × Ascends (suc r.id) high rs

-- The primary key: each row has an id above those of the rows before it, and the next id is above all.
abbrev pub IsKeyed : {F : Type 0} → Ledger F → Type 0
IsKeyed l = Ascends 0 l.next_id l.rows

module _ {F : Type 0} where
  pub Ascends-below :
      (low high : ℕ) (rs : List (TradeLedgerRecord F))
      → Ascends low high rs
      → All (λ r. r.id < high) rs × (low ≤ high)
  Ascends-below low high [] h = (tt, h)
  Ascends-below low high (r ∷ rs) (h, hs) =
      let (below, le) = Ascends-below (suc r.id) high rs hs in ((omega arith, below), omega arith)

  Ascends-append :
      (low : ℕ) (rs : List (TradeLedgerRecord F)) (r : TradeLedgerRecord F)
      → Ascends low r.id rs
      → Ascends low (suc r.id) (rs ++ (r ∷ []))
  Ascends-append low [] r h = (h, omega arith)
  Ascends-append low (s ∷ rs) r (h, hs) = (h, Ascends-append (suc s.id) rs r hs)

  -- Opening a trade keeps the key.
  pub record_open-IsKeyed : (o : Opening F) (l : Ledger F) → IsKeyed l → IsKeyed (record_open o l).1
  unfolding record_open
  record_open-IsKeyed o l h =
      let e : l.next_id + 1 ≡ suc l.next_id = omega arith in
      rw e (Ascends-append 0 l.rows (opened_row o l.next_id) h)

  pub write_entry-Ascends :
      (f : TradeLedgerRecord F → TradeLedgerRecord F)
      → ((r : TradeLedgerRecord F) → (f r).id ≡ r.id)
      → (id low high : ℕ) (rs : List (TradeLedgerRecord F)) → Ascends low high rs
      → Ascends low high (write_entry id f rs)
  unfolding write_entry
  write_entry-Ascends f same id low high [] h = h
  write_entry-Ascends f same id low high (r ∷ rs) (h, hs) = elim (Bool-cases (r.id == id)) [
    | inl e ↦ rw (e, same r) (h, hs)
    | inr e ↦ rw e (h, write_entry-Ascends f same id (suc r.id) high rs hs)
  ]

  -- The newest match is the row that was just added.
  pub newest-append :
      (test : TradeLedgerRecord F → Bool) (rs : List (TradeLedgerRecord F))
      (r : TradeLedgerRecord F)
      → All (λ s. s.id < r.id) rs
      → test r ≡ true
      → newest test (rs ++ (r ∷ [])) ≡ some r.id
  unfolding newest
  newest-append test [] r low h = rw h refl
  newest-append test (s ∷ rs) r (low, lows) h =
      let rest = newest-append test rs r lows h in
      elim (Bool-cases (test s)) [ inl e ↦ rw (e, rest) (ground (arith, low)) | inr e ↦ rw e rest ]

  pub write_entry-append :
      (f : TradeLedgerRecord F → TradeLedgerRecord F) (rs : List (TradeLedgerRecord F))
      (r : TradeLedgerRecord F)
      → All (λ s. s.id < r.id) rs
      → write_entry r.id f (rs ++ (r ∷ [])) ≡ rs ++ (f r ∷ [])
  unfolding write_entry
  write_entry-append f [] r low = ground arith
  write_entry-append f (s ∷ rs) r (low, lows) = ground (arith, write_entry-append f rs r lows)

  pub keep-drop_last :
      (test : TradeLedgerRecord F → Bool) (rs : List (TradeLedgerRecord F))
      (r : TradeLedgerRecord F)
      → test r ≡ false
      → keep test (rs ++ (r ∷ [])) ≡ keep test rs
  keep-drop_last test [] r h = rw h refl
  keep-drop_last test (s ∷ rs) r h = ground (arith, keep-drop_last test rs r h)

  pub count-append :
      (test : TradeLedgerRecord F → Bool) (rs : List (TradeLedgerRecord F))
      (r : TradeLedgerRecord F)
      → length (keep test (rs ++ (r ∷ []))) ≡ length (keep test rs) + one_if (test r)
  count-append test [] r = ground arith
  count-append test (s ∷ rs) r = ground (arith, count-append test rs r)

  pub newest_found :
      (test : TradeLedgerRecord F → Bool) (rs : List (TradeLedgerRecord F))
      → newest test rs ≡ none
      → length (keep test rs) ≡ 0
  unfolding newest
  newest_found test [] h = refl
  newest_found test (r ∷ rs) h = ground (arith, newest_found test rs)

  newest-ge :
      (test : TradeLedgerRecord F → Bool) (low high id : ℕ) (rs : List (TradeLedgerRecord F))
      → Ascends low high rs
      → newest test rs ≡ some id
      → low ≤ id
  unfolding newest
  newest-ge test low high id [] h found = absurd (cc)
  newest-ge test low high id (r ∷ rs) (h, hs) found = elim (Option-cases (newest test rs)) [
    | inl e ↦ ground (arith, e)
    | inr (j, e) ↦ ground (arith, e, newest-ge test (suc r.id) high j rs hs e)
  ]

  -- After the newest match was written, a filter that does not keep what is written, and whose
  -- answer on the matches is `b`, keeps one row less if `b` is true, and as many if it is false.
  pub count-write_entry :
      (test q : TradeLedgerRecord F → Bool) (f : TradeLedgerRecord F → TradeLedgerRecord F)
      (b : Bool)
      → ((r : TradeLedgerRecord F) → q (f r) ≡ false)
      → ((r : TradeLedgerRecord F) → test r ≡ true → q r ≡ b)
      → (low high id : ℕ) (rs : List (TradeLedgerRecord F)) → Ascends low high rs
      → newest test rs ≡ some id
      → length (keep q rs) ≡ length (keep q (write_entry id f rs)) + one_if b
  unfolding newest write_entry
  count-write_entry test q f b off on low high id [] h found = absurd (cc)
  count-write_entry test q f b off on low high id (r ∷ rs) (h, hs) found =
      elim (Option-cases (newest test rs)) [
        | inl e ↦ ground (arith, e, off r, on r)
        | inr (j, e) ↦
            let deeper = newest-ge test (suc r.id) high j rs hs e in
            let same : j ≡ id = ground (arith, e, deeper) in
            let ih = count-write_entry test q f b off on (suc r.id) high j rs hs e in
            ground (arith, same, deeper, ih)
      ]
