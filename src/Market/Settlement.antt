-- ===== src/Market/Settlement.antt =====
-- The trading days until a settlement of agent/settlement.py.
use bist_bot.Common.{
  ℕ, zero, suc, ◌+◌, ◌≤◌, ◌≡◌, refl, ap, inl, inr, false, some, arith, Bool-cases, if◌then◌else◌,
  ltb, leb,
}
use bist_bot.Market.Calendar.{Calendar, counts, add_days, settlement_date, is_settled}

module _ (c : Calendar) where
  -- The trading days among the n days after d.
  abbrev pub trading_days_after : ℕ → ℕ → ℕ
  trading_days_after d zero = 0
  trading_days_after d (suc n) = (if counts c (d + 1) then 1 else 0) + trading_days_after (d + 1) n

  add_days-total :
      (fuel days d added : ℕ)
      → days ≤ added + trading_days_after d fuel
      → added ≤ days
      → (n : ℕ) × (add_days c fuel days d added ≡ some (d + n))
        × (added + trading_days_after d n ≡ days)
        × (n ≤ fuel)
  unfolding add_days
  add_days-total zero days d added enough short =
      let here : d + 0 ≡ d = ground arith in
      let stop : ltb added days ≡ false = ground arith in
      (0, rw (stop, here) refl, ground arith, ground arith)
  add_days-total (suc fuel) days d added enough short = elim (Bool-cases (ltb added days)) [
    | inr e ↦
        let here : d + 0 ≡ d = ground arith in
        (0, rw (e, here) refl, ground (arith, e), ground arith)
    | inl e ↦ elim (Bool-cases (counts c (d + 1))) [
      | inl trading ↦
          let (n, found, reached, within) =
            add_days-total fuel days (d + 1) (added + 1) (ground (arith, trading))
              (ground (arith, e)) in
          let same : d + 1 + n ≡ d + suc n = ground arith in
          (suc n, rw (e, trading, ← same) found, rw trading (ground arith), ground arith)
      | inr shut ↦
          let (n, found, reached, within) =
            add_days-total fuel days (d + 1) added (ground (arith, shut)) short in
          let same : d + 1 + n ≡ d + suc n = ground arith in
          (suc n, rw (e, shut, ← same) found, rw shut (ground arith), ground arith)
    ]
  ]

  -- If there are enough trading days among as many days after the trade as there is fuel, the
  -- settlement date is found, and the trading days after the trade, up to it, are as many as asked.
  pub settlement_date-counts :
      (fuel trade_date days : ℕ)
      → days ≤ trading_days_after trade_date fuel
      → (n : ℕ) × (settlement_date c fuel trade_date days ≡ some (trade_date + n))
        × (trading_days_after trade_date n ≡ days)
        × (n ≤ fuel)
  unfolding settlement_date
  settlement_date-counts fuel trade_date days enough =
      let (n, found, reached, within) =
        add_days-total fuel days trade_date 0 (ground (arith, enough)) (ground arith) in
      (n, found, ground (arith, reached), within)

  add_days-past : (fuel days d added s : ℕ) → add_days c fuel days d added ≡ some s → d ≤ s
  unfolding add_days
  add_days-past zero days d added s h = ground arith
  add_days-past (suc fuel) days d added s h = ground (
    arith,
    add_days-past fuel days (d + 1) (added + 1) s,
    add_days-past fuel days (d + 1) added s,
  )

  add_days-reached :
      (fuel days d added s m : ℕ)
      → add_days c fuel days d added ≡ some s
      → leb s (d + m) ≡ leb days (added + trading_days_after d m)
  unfolding add_days
  add_days-reached zero days d added s m h = ground arith
  add_days-reached (suc fuel) days d added s zero h = ground (
    arith,
    add_days-past fuel days (d + 1) (added + 1) s,
    add_days-past fuel days (d + 1) added s,
  )
  add_days-reached (suc fuel) days d added s (suc m) h = ground (
    arith,
    add_days-reached fuel days (d + 1) (added + 1) s m,
    add_days-reached fuel days (d + 1) added s m,
  )

  -- With enough fuel, a trade is settled exactly when at least as many trading days as asked have
  -- passed after it.
  pub is_settled-counts :
      (fuel trade_date passed days : ℕ)
      → days ≤ trading_days_after trade_date fuel
      → is_settled c fuel trade_date (trade_date + passed) days
        ≡ some (leb days (trading_days_after trade_date passed))
  unfolding is_settled settlement_date
  is_settled-counts fuel trade_date passed days enough =
      let (n, found, reached, within) =
        add_days-total fuel days trade_date 0 (ground (arith, enough)) (ground arith) in
      let counted : leb (trade_date + n) (trade_date + passed)
          ≡ leb days (trading_days_after trade_date passed) =
        ground (arith, add_days-reached fuel days trade_date 0 (trade_date + n) passed found) in
      rw (is_settled, found) (ap some counted)
