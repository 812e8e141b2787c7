-- ===== src/Services/Shadow/Mirror.antt =====
-- The positions of services/shadow_trade_service.py and the ledger's open shadow rows.
use bist_bot.Common.{
  ℕ, ◌+◌, ◌<◌, ◌≤◌, ◌≡◌, ◌≢◌, ◌⊎◌, refl, ◌∙◌, inl, inr, Bool, true, Option, some, List, [], ◌∷◌,
  ◌++◌, All, ◌==◌, not, ◌||◌, keep, Dict, lookup, erase, Each, Each-insert, Each-erase,
  Option-cases, Bool-cases, arith,
}
use mathlib.Core.Path.{subst}
use bist_bot.Common.Floats.{Floats, nought}
use bist_bot.Services.Ledger.{Kind, Ledger, Target, close_entry}
use bist_bot.Services.Ledger.Rows.{IsKeyed, record_open-IsKeyed}
use bist_bot.Services.Scans.{ScanSignal, current_prices}
use bist_bot.Services.Shadow.Files.{
  ShadowSettings, ShadowPosition, ClosedRow, Shadow, Fate, stays, raises, closes,
}
use bist_bot.Services.Shadow.Due.{fate_of, close_due, close_due_positions}
use bist_bot.Services.Shadow.Opened.{
  is_in_cooldown, is_shadow_candidate, entry_from_signal, shadow_opening, ledger_record_open,
  shadow_closing, ledger_close_row, ledger_close_rows, is_blocked, open_candidate, open_candidates,
}
use bist_bot.Services.Shadow.Round.{is_closed_now, process_scan}
use bist_bot.Services.Entries.{held, held-erase, held-insert, held-missing}
use bist_bot.Services.Shadow.Counts.{
  open_shadow, pending, any-pending, close_entry-IsKeyed, close_entry-open, record_open-open,
}

module _ {F : Type 0} ⦃fl : Floats F⦄ where
  open fl use {eq}

  abbrev pub is_priced : F → Bool
  is_priced price = not (eq price nought)

  abbrev pub AllPriced : Dict (ShadowPosition F) → Type 0
  AllPriced d = Each (λ t p. is_priced p.entry_price ≡ true) d

  -- The ledger has the open shadow rows of the positions, and `extra t` more of the ticker `t`.
  abbrev MirrorsWith : (ℕ → ℕ) → Dict (ShadowPosition F) → Ledger F → Type 0
  MirrorsWith extra d l =
      IsKeyed l × ((t : ℕ) → open_shadow t l ≡ held t d + extra t) × ((t : ℕ) → held t d ≤ 1)

  -- A ticker has at most one position; the ledger has one open shadow row for it if it has a
  -- position, and none if it has none; no entry price is zero.
  pub record Mirrors (s : Shadow F) : Type 0 where
    pub keyed : IsKeyed s.ledger
    pub same : (t : ℕ) → open_shadow t s.ledger ≡ held t s.positions
    pub single : (t : ℕ) → held t s.positions ≤ 1
    pub priced : AllPriced s.positions

  ledger_close_rows_lem :
      (writes : ℕ → Bool)
      → ((t : ℕ) → writes t ≡ true)
      → (n : ℕ → ℕ) (rows : List (ClosedRow F)) (l : Ledger F) → IsKeyed l
      → ((t : ℕ) → open_shadow t l ≡ n t + pending t rows)
      → IsKeyed (ledger_close_rows writes rows l)
        × ((t : ℕ) → open_shadow t (ledger_close_rows writes rows l) ≡ n t)
  unfolding ledger_close_rows ledger_close_row
  ledger_close_rows_lem writes all n [] l keyed same = (keyed, λ t. omega (arith, same t))
  ledger_close_rows_lem writes all n (row ∷ rows) l keyed same =
      let k = row.ticker in
      let l' = (close_entry Kind.shadow (Target.by_ticker k) (shadow_closing row) l).1 in
      let at_least : 0 < open_shadow k l = ground (arith, same k) in
      rw (all k, ledger_close_rows, ledger_close_row)
        (ledger_close_rows_lem writes all n rows l'
          (close_entry-IsKeyed Kind.shadow (Target.by_ticker k) (shadow_closing row) l keyed)
          (λ t. ground (arith, same t, close_entry-open k t (shadow_closing row) l keyed at_least)))

  Fate-cases : (v : Fate F) → (v ≡ stays) ⊎ (v ≡ raises) ⊎ ((row : ClosedRow F) × (v ≡ closes row))
  Fate-cases stays = inl refl
  Fate-cases raises = inr (inl refl)
  Fate-cases (closes row) = inr (inr (row, refl))

  close_due_lem :
      (fate : ℕ → ShadowPosition F → Fate F)
      → ((t : ℕ) (p : ShadowPosition F) (row : ClosedRow F)
          → fate t p ≡ closes row
          → row.ticker ≡ t)
      → ((t : ℕ) (p : ShadowPosition F) → is_priced p.entry_price ≡ true → fate t p ≢ raises)
      → (items positions : Dict (ShadowPosition F)) → AllPriced items
      → AllPriced positions
      → ((t : ℕ) → held t items ≤ held t positions)
      → (rows : List (ClosedRow F)) × (left : Dict (ShadowPosition F)) × (close_due fate items
            positions
          ≡ some (rows, left))
        × AllPriced left
        × ((t : ℕ) → held t positions ≡ held t left + pending t rows)
  unfolding close_due
  close_due_lem fate named safe [] positions priced priced' le =
      ([], positions, refl, priced', λ t. omega arith)
  close_due_lem fate named safe ((ticker, p) ∷ items) positions (pr, prs) priced' le =
      elim (Fate-cases (fate ticker p)) [
        | inl e ↦
            let (rows, left, done, priced'', same) =
              close_due_lem fate named safe items positions prs priced'
                (λ t. ground (arith, le t)) in
            (rows, left, ground (arith, e, done), priced'', same)
        | inr (inl e) ↦ absurd (safe ticker p pr e)
        | inr (inr (row, e)) ↦
            let at_least : 0 < held ticker positions = ground (arith, le ticker) in
            let less = λ (t : ℕ). held-erase ticker t positions at_least in
            let (rows, left, done, priced'', same) =
              close_due_lem fate named safe items (erase ticker positions) prs
                (Each-erase (λ t p. is_priced p.entry_price ≡ true) ticker positions priced')
                (λ t. ground (arith, le t, less t)) in
            (
              row ∷ rows,
              left,
              ground (arith, e, done),
              priced'',
              λ t. ground (arith, same t, less t, named ticker p row e),
            )
      ]

  fate_of-ticker :
      (prices : Dict F) (now : ℕ) (signals : List (ScanSignal F)) (t : ℕ) (p : ShadowPosition F)
      (row : ClosedRow F)
      → fate_of prices now signals t p ≡ closes row
      → row.ticker ≡ t
  unfolding fate_of
  fate_of-ticker prices now signals t p row h = ground arith

  fate_of-ne-raises :
      (prices : Dict F) (now : ℕ) (signals : List (ScanSignal F)) (t : ℕ) (p : ShadowPosition F)
      → is_priced p.entry_price ≡ true
      → fate_of prices now signals t p ≢ raises
  unfolding fate_of
  fate_of-ne-raises prices now signals t p priced h = ground arith

  module _ (settings : ShadowSettings F) (writes blocked : ℕ → Bool) where
    open_candidate-MirrorsWith :
        ((t : ℕ) → writes t ≡ true)
        → (extra : ℕ → ℕ) (s : ScanSignal F) (d : Dict (ShadowPosition F)) (l : Ledger F)
        → MirrorsWith extra d l
        → let st = open_candidate settings writes blocked s (d, l) in MirrorsWith extra st.0 st.1
    unfolding open_candidate ledger_record_open
    open_candidate-MirrorsWith all extra s d l (keyed, same, single) =
        elim (Option-cases (lookup s.ticker d)) [
          | inr (p, e) ↦ rw e (keyed, same, single)
          | inl e ↦ elim (Bool-cases (blocked s.ticker)) [
            | inl stop ↦ rw (e, stop) (keyed, same, single)
            | inr go ↦
                let added = λ (t : ℕ). held-insert s.ticker t (entry_from_signal settings s) d e in
                rw (e, go, all s.ticker)
                  (
                    record_open-IsKeyed (shadow_opening s) l keyed,
                    (λ t. ground (arith, same t, added t, record_open-open t (shadow_opening s) l)),
                    (λ t. ground (arith, single t, added t, held-missing s.ticker d e)),
                  )
          ]
        ]

    open_candidate-AllPriced :
        (s : ScanSignal F) (st : Dict (ShadowPosition F) × Ledger F)
        → is_priced s.price ≡ true
        → AllPriced st.0
        → AllPriced (open_candidate settings writes blocked s st).0
    unfolding open_candidate entry_from_signal
    open_candidate-AllPriced s (d, l) price priced = elim (Bool-cases (is_blocked blocked s d)) [
      | inl stop ↦ rw stop priced
      | inr go ↦ rw go (
          Each-insert (λ t p. is_priced p.entry_price ≡ true) s.ticker
            (entry_from_signal settings s) d price priced)
    ]

    open_candidate-held :
        (t : ℕ) (s : ScanSignal F) (st : Dict (ShadowPosition F) × Ledger F)
        → blocked t ≡ true
        → held t (open_candidate settings writes blocked s st).0 ≡ held t st.0
    unfolding open_candidate
    open_candidate-held t s (d, l) stop = elim (Option-cases (lookup s.ticker d)) [
      | inr (p, e) ↦ rw e refl
      | inl e ↦ elim (Bool-cases (s.ticker == t)) [
        | inl same ↦
            let k : t ≡ s.ticker = ground arith in
            let stops : blocked s.ticker ≡ true = subst (λ i. blocked i ≡ true) k stop in
            rw (e, stops) refl
        | inr other ↦
            let added = held-insert s.ticker t (entry_from_signal settings s) d e in
            ground (arith, e, added)
      ]
    ]

    open_candidates_lem :
        ((t : ℕ) → writes t ≡ true)
        → (extra : ℕ → ℕ) (signals : List (ScanSignal F)) (d : Dict (ShadowPosition F))
          (l : Ledger F)
        → All (λ s. is_priced s.price ≡ true) signals
        → MirrorsWith extra d l
        → AllPriced d
        → let st = open_candidates settings writes blocked signals (d, l) in
          MirrorsWith extra st.0 st.1
          × AllPriced st.0
          × ((t : ℕ) → blocked t ≡ true → held t st.0 ≡ held t d)
    unfolding open_candidates
    open_candidates_lem all extra [] d l prices mirrors priced = (mirrors, priced, λ t stop. refl)
    open_candidates_lem all extra (s ∷ signals) d l (price, prices) mirrors priced =
        let (d', l') = open_candidate settings writes blocked s (d, l) in
        let (mirrors', priced', kept) =
          open_candidates_lem all extra signals d' l' prices
            (open_candidate-MirrorsWith all extra s d l mirrors)
            (open_candidate-AllPriced s (d, l) price priced) in
        (mirrors', priced', λ t stop. kept t stop ∙ open_candidate-held t s (d, l) stop)

  prices-keep :
      (p : ScanSignal F → Bool) (signals : List (ScanSignal F))
      → All (λ s. is_priced s.price ≡ true) signals
      → All (λ s. is_priced s.price ≡ true) (keep p signals)
  prices-keep p [] h = tt
  prices-keep p (s ∷ signals) (h, hs) = elim (Bool-cases (p s)) [
    | inl e ↦ rw e (h, prices-keep p signals hs)
    | inr e ↦ rw e (prices-keep p signals hs)
  ]

  -- The ledger mirrors the positions. Where the database takes every write and no price is zero, a
  -- scan returns; afterwards a ticker still has at most one position, the ledger has one open shadow
  -- row for each ticker with a position and none for the others, and no ticker that the scan closed
  -- has a position.
  pub process_scan-Mirrors :
      (settings : ShadowSettings F) (writes : ℕ → Bool) (signals : List (ScanSignal F))
      (market_data : Dict (Option F)) (now : ℕ) (s : Shadow F)
      → ((t : ℕ) → writes t ≡ true)
      → All (λ sig. is_priced sig.price ≡ true) signals
      → Mirrors s
      → (closed : List (ClosedRow F)) × (s' : Shadow F) × (process_scan settings writes signals
            market_data now s
          ≡ some (closed, s'))
        × Mirrors s'
        × ((t : ℕ) → 0 < pending t closed → held t s'.positions ≡ 0)
  unfolding process_scan close_due_positions
  process_scan-Mirrors settings writes signals market_data now s all prices mirrors =
      elim (Bool-cases settings.shadow_enabled) [
        | inr off ↦ ([], s, rw off refl, mirrors, λ t h. absurd (omega arith))
        | inl on ↦
            let fate = fate_of (current_prices signals market_data) now signals in
            let (closed, left, done, priced, split) =
              close_due_lem fate (fate_of-ticker (current_prices signals market_data) now signals)
                (fate_of-ne-raises (current_prices signals market_data) now signals) s.positions
                s.positions mirrors.priced mirrors.priced (λ t. omega arith) in
            let blocked =
              λ (t : ℕ). is_closed_now closed t || is_in_cooldown settings s.closed_rows now t in
            let candidates = keep (is_shadow_candidate settings) signals in
            let (opened, priced', kept) =
              open_candidates_lem settings writes blocked all (λ t. pending t closed) candidates
                left s.ledger (prices-keep (is_shadow_candidate settings) signals prices)
                (
                  mirrors.keyed,
                  (λ t. omega (arith, mirrors.same t, split t)),
                  (λ t. omega (arith, mirrors.single t, split t)),
                )
                priced in
            let (positions, ledger) =
              open_candidates settings writes blocked candidates (left, s.ledger) in
            let (keyed, same) =
              ledger_close_rows_lem writes all (λ t. held t positions) closed ledger opened.0
                opened.1 in
            (
              closed,
              record s {
                positions = positions;
                closed_rows = s.closed_rows ++ closed;
                ledger = ledger_close_rows writes closed ledger;
              },
              simp (on, done),
              record { keyed = keyed; same = same; single = opened.2; priced = priced' },
              λ t h.
                  let stops : blocked t ≡ true = rw (any-pending t closed h) refl in
                  omega (arith, kept t stops, split t, mirrors.single t),
            )
      ]
