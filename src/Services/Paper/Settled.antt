-- ===== src/Services/Paper/Settled.antt =====
-- What an update of src/bist_bot/services/paper_trade_service.py makes of every row of the paper trades.
use bist_bot.Common.{
  ℕ, suc, ◌<◌, ◌≤◌, ◌≡◌, refl, sym, ap, ◌∙◌, inl, inr, Bool, true, false, Option, none, some, List,
  [], ◌∷◌, ◌++◌, if◌then◌else◌, All, All-append, Dict, erase, Bool-cases, arith,
}
use mathlib.Core.Path.{subst}
use mathlib.Core.List.{append_assoc}
use bist_bot.Common.Floats.{Floats, Decimals}
use bist_bot.Market.Calendar.{Calendar, Moment}
use bist_bot.Services.Scans.{ScanSignal}
use bist_bot.Services.Ledger.{CloseReason}
use bist_bot.Services.Paper.Table.{
  PaperTrade, PaperSettings, PaperTrades, Fetched, trade_direction, get_open_paper_trades,
  closed_trade, close_paper_trade, price_of, record_price_skip, is_eod,
}
use bist_bot.Services.Paper.Reasons.{extreme_of, is_trailing, reason_to_close}
use bist_bot.Services.Paper.Justified.{
  IsExtreme, remembered, IsQuiet, IsReason, Justified, extreme_of-IsExtreme,
  reason_to_close-Justified,
}
use bist_bot.Services.Paper.Update.{
  net_profit_pct, close_trade, settle_trade, price_seen, update_trade, update_trades,
  update_open_trades,
}

module _ {F : Type 0} where
  -- The ids ascend, from above `low`.
  abbrev pub IdsAscend : ℕ → List (PaperTrade F) → Type 0
  IdsAscend low [] = Unit
  IdsAscend low (r ∷ rs) = (low ≤ r.id) × IdsAscend (suc r.id) rs

  -- One relation on the rows of two tables, row by row, each with what is remembered before and after.
  abbrev pub Rowwise :
      (Dict F → PaperTrade F → Dict F → PaperTrade F → Type 0)
      → Dict F
      → List (PaperTrade F)
      → Dict F
      → List (PaperTrade F)
      → Type 0
  Rowwise R d [] d' [] = d ≡ d'
  Rowwise R d (r ∷ rs) d' (s ∷ ss) = (m : Dict F) × R d r m s × Rowwise R m rs d' ss
  Rowwise R d _ d' _ = ⊥

  open-closed :
      (r : PaperTrade F) (rows : List (PaperTrade F))
      → r.is_closed ≡ true
      → get_open_paper_trades (r ∷ rows) ≡ get_open_paper_trades rows
  unfolding get_open_paper_trades
  open-closed r rows h = rw h refl

  open-live :
      (r : PaperTrade F) (rows : List (PaperTrade F))
      → r.is_closed ≡ false
      → get_open_paper_trades (r ∷ rows) ≡ r ∷ get_open_paper_trades rows
  unfolding get_open_paper_trades
  open-live r rows h = ground arith

  close-at :
      (f : PaperTrade F → PaperTrade F) (done rest : List (PaperTrade F)) (r : PaperTrade F)
      → All (λ s. s.id < r.id) done
      → r.is_closed ≡ false
      → close_paper_trade r.id f (done ++ (r ∷ rest)) ≡ done ++ (f r ∷ rest)
  unfolding close_paper_trade
  close-at f [] rest r low live = ground arith
  close-at f (s ∷ done) rest r (low, lows) live = ground (arith, close-at f done rest r lows live)

module _ {F : Type 0} ⦃fl : Floats F⦄ ⦃dc : Decimals F⦄ where
  module _ (settings : PaperSettings F) (price : ℕ → Option F) (signals : List (ScanSignal F))
      (eod : Bool) (now : ℕ) where
    -- What becomes of a row, and of the extremes that the service remembers.
    pub data Settles (d : Dict F) (r : PaperTrade F) : Dict F → PaperTrade F → Type 0 where
      was_closed : r.is_closed ≡ true → Settles d r d r
      no_price : r.is_closed ≡ false → price r.ticker ≡ none → Settles d r d r
      stays :
          (current extreme : F)
          → r.is_closed ≡ false
          → price r.ticker ≡ some current
          → IsExtreme d r current extreme
          → IsQuiet settings signals eod r current extreme
          → Settles d r (remembered settings r extreme d) r
      closes :
          (current extreme : F) (reason : CloseReason)
          → r.is_closed ≡ false
          → price r.ticker ≡ some current
          → IsExtreme d r current extreme
          → IsReason settings signals eod r current extreme reason
          → Settles d r (erase r.ticker d) (
              closed_trade now current reason
                (net_profit_pct settings.costs (trade_direction r) r.signal_price current)
                r)

    -- What one round leaves of a row, between the rows that are done and those that are to come.
    abbrev Settled :
        PaperTrades F
        → PaperTrade F
        → List (PaperTrade F)
        → List (PaperTrade F)
        → PaperTrades F
        → Type 0
    Settled s r done rest after =
        (r' : PaperTrade F) × (after.trades ≡ done ++ (r' ∷ rest))
        × Settles s.trail_extremes r after.trail_extremes r'
        × (r'.id ≡ r.id)

    record_price_skip-trades :
        (ticker : ℕ) (s : PaperTrades F) → (record_price_skip settings ticker s).trades ≡ s.trades
    unfolding record_price_skip
    record_price_skip-trades ticker s = ground arith

    record_price_skip-extremes :
        (ticker : ℕ) (s : PaperTrades F)
        → (record_price_skip settings ticker s).trail_extremes ≡ s.trail_extremes
    unfolding record_price_skip
    record_price_skip-extremes ticker s = ground arith

    settle_trade-stays :
        (writes : ℕ → Bool) (r : PaperTrade F) (current : F) (s : PaperTrades F)
        → let after = settle_trade settings writes now r current none s in
          (after.trades ≡ s.trades)
          × (after.trail_extremes
              ≡ remembered settings r (extreme_of r current s.trail_extremes) s.trail_extremes)
    unfolding settle_trade
    settle_trade-stays writes r current s = elim (Bool-cases (is_trailing settings)) [
      | inl e ↦ rw (settle_trade, e) (refl, refl)
      | inr e ↦ rw (settle_trade, e) (refl, refl)
    ]

    settle_trade-Settles :
        (writes : ℕ → Bool) (r : PaperTrade F) (current : F) (reason : Option CloseReason)
        (s : PaperTrades F) (done rest : List (PaperTrade F))
        → s.trades ≡ done ++ (r ∷ rest)
        → All (λ t. t.id < r.id) done
        → r.is_closed ≡ false
        → price r.ticker ≡ some current
        → let extreme = extreme_of r current s.trail_extremes in
          Justified settings signals eod r current extreme reason
          → Settled s r done rest (settle_trade settings writes now r current reason s)
    unfolding settle_trade close_trade
    settle_trade-Settles writes r current (some reason) s done rest at low live e why =
        let profit = net_profit_pct settings.costs (trade_direction r) r.signal_price current in
        let f = closed_trade now current reason profit in
        let extreme = extreme_of r current s.trail_extremes in
        (
          f r,
          rw at (close-at f done rest r low live),
          closes current extreme reason live e (extreme_of-IsExtreme s.trail_extremes r current)
              why,
          refl,
        )
    settle_trade-Settles writes r current none s done rest at low live e why =
        let extreme = extreme_of r current s.trail_extremes in
        let settles =
          stays current extreme live e (extreme_of-IsExtreme s.trail_extremes r current) why in
        let (same_trades, same_extremes) = settle_trade-stays writes r current s in
        (
          r,
          same_trades ∙ at,
          subst (λ m. Settles s.trail_extremes r m r) (sym same_extremes) settles,
          refl,
        )

    update_trade-Settles :
        (writes : ℕ → Bool) (r : PaperTrade F) (o : Option F) (s : PaperTrades F)
        (done rest : List (PaperTrade F))
        → s.trades ≡ done ++ (r ∷ rest)
        → All (λ t. t.id < r.id) done
        → r.is_closed ≡ false
        → price r.ticker ≡ o
        → Settled s r done rest (update_trade settings writes signals eod now r o s)
    unfolding update_trade
    update_trade-Settles writes r none s done rest at low live e = (
      r,
      record_price_skip-trades r.ticker s ∙ at,
      subst (λ m. Settles s.trail_extremes r m r) (sym (record_price_skip-extremes r.ticker s))
          (no_price live e),
      refl,
    )
    update_trade-Settles writes r (some current) s done rest at low live e =
        let extreme = extreme_of r current s.trail_extremes in
        settle_trade-Settles writes r current
          (reason_to_close settings signals eod r current extreme) (price_seen r.ticker s) done rest
          at low live e (reason_to_close-Justified settings signals eod r current extreme)

    below_trans :
        (rows : List (PaperTrade F)) {low high : ℕ}
        → All (λ t. t.id < low) rows
        → low ≤ high
        → All (λ t. t.id < high) rows
    below_trans [] h le = tt
    below_trans (t ∷ rows) (h, hs) le = (omega arith, below_trans rows hs le)

    below_suc :
        (done : List (PaperTrade F)) (r : PaperTrade F) (id : ℕ)
        → All (λ t. t.id < id) done
        → r.id ≡ id
        → All (λ t. t.id < suc id) (done ++ (r ∷ []))
    below_suc done r id h same =
        All-append (λ t. t.id < suc id) done (r ∷ []) (below_trans done h (omega arith))
          (omega arith, tt)

    -- What the rounds over some open trades make of the rows from here on.
    abbrev Rounds :
        (ℕ → Bool)
        → List (PaperTrade F)
        → List (PaperTrade F)
        → PaperTrades F
        → List (PaperTrade F)
        → Type 0
    Rounds writes rows done s items =
        let after = update_trades settings writes price signals eod now items s in
        (rows' : List (PaperTrade F)) × (after.trades ≡ done ++ rows')
        × Rowwise Settles s.trail_extremes rows after.trail_extremes rows'

    update_trades-Settles :
        (writes : ℕ → Bool) (rows done : List (PaperTrade F)) (s : PaperTrades F) (low : ℕ)
        → s.trades ≡ done ++ rows
        → All (λ t. t.id < low) done
        → IdsAscend low rows
        → Rounds writes rows done s (get_open_paper_trades rows)
    unfolding update_trades get_open_paper_trades
    update_trades-Settles writes [] done s low at below ascend = ([], at, refl)
    update_trades-Settles writes (r ∷ rows) done s low at below (le, ascend) =
        let below' = below_trans done below le in
        elim (Bool-cases r.is_closed) [
          | inl shut ↦
              let (rows', same, settled) =
                update_trades-Settles writes rows (done ++ (r ∷ [])) s (suc r.id)
                  (at ∙ sym (append_assoc done (r ∷ []) rows)) (below_suc done r r.id below' refl)
                  ascend in
              subst (Rounds writes (r ∷ rows) done s) (sym (open-closed r rows shut)) (
                r ∷ rows',
                same ∙ append_assoc done (r ∷ []) rows',
                (s.trail_extremes, was_closed shut, settled),
              )
          | inr live ↦
              let next = update_trade settings writes signals eod now r (price r.ticker) s in
              let (r', same_at, settles, same_id) =
                update_trade-Settles writes r (price r.ticker) s done rows at below' live refl in
              let (rows', same, settled) =
                update_trades-Settles writes rows (done ++ (r' ∷ [])) next (suc r.id)
                  (same_at ∙ sym (append_assoc done (r' ∷ []) rows))
                  (below_suc done r' r.id below' same_id) ascend in
              subst (Rounds writes (r ∷ rows) done s) (sym (open-live r rows live)) (
                r' ∷ rows',
                same ∙ append_assoc done (r' ∷ []) rows',
                (next.trail_extremes, settles, settled),
              )
        ]

  -- Every row of the paper trades, after an update, is one of these: it was closed before, and is as
  -- it was; there is no price for it, and it is as it was; it has a price, there is no reason to close it,
  -- and it is as it was; or it is closed now at the price, with the net profit at that price, and with the
  -- first reason that there is. The reasons are, in this order: a strong signal against the trade; its
  -- stop; its trailing stop, where the setting is on, that is tighter than the stop and that the price is
  -- at; its target; the end of the session. The trail is the set part away from the extreme, which is the
  -- price where that is beyond what is remembered of the ticker at that row, or beyond the price of the
  -- entry where nothing is, and else that. With the setting on, the extreme of a trade that stays is
  -- remembered, that of one that is closed is forgotten, and nothing else changes what is remembered.
  -- The table's rows are as many and in the same order. The rows stand in the order of their ids, and the
  -- service is in paper mode.
  pub update_open_trades-Settles :
      (c : Calendar) (settings : PaperSettings F) (writes : ℕ → Bool) (fetched : Fetched F)
      (signals : List (ScanSignal F)) (at : Moment) (now : ℕ) (s : PaperTrades F)
      → settings.paper_mode ≡ true
      → IdsAscend 0 s.trades
      → let after = update_open_trades c settings writes fetched signals at now s in
        Rowwise
          (Settles settings (price_of signals fetched) signals (is_eod c at) now)
          s.trail_extremes
          s.trades
          after.trail_extremes
          after.trades
  unfolding update_open_trades
  update_open_trades-Settles c settings writes fetched signals at now s mode ascend =
      let (rows, same, settled) =
        update_trades-Settles settings (price_of signals fetched) signals (is_eod c at) now writes
          s.trades [] s 0 refl tt ascend in
      let run =
        update_trades settings writes (price_of signals fetched) signals (is_eod c at) now
          (get_open_paper_trades s.trades) s in
      let Row = Settles settings (price_of signals fetched) signals (is_eod c at) now in
      subst (λ after. Rowwise Row s.trail_extremes s.trades after.trail_extremes after.trades)
        (sym (ap (λ b. if b then run else s) mode))
        (subst (Rowwise Row s.trail_extremes s.trades run.trail_extremes) (sym same) settled)
