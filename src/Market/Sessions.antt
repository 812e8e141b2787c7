-- ===== src/Market/Sessions.antt =====
-- The next session of market_calendar.py.
use bist_bot.Common.{
  ℕ, zero, suc, ◌+◌, ◌<◌, ◌≡◌, refl, inl, inr, Bool, true, false, some, arith, Bool-cases, ◌&&◌,
  ◌||◌, not, ltb, leb, if◌then◌else◌,
}
use bist_bot.Market.Calendar.{
  Calendar, Moment, weekday, hour, is_bist_holiday, is_bist_half_day, bist_close_time,
  skip_holidays, first_candidate, next_bist_session,
}

module _ (c : Calendar) where
  -- The n days from d on are all holidays.
  abbrev pub all_holidays : ℕ → ℕ → Bool
  all_holidays d zero = true
  all_holidays d (suc n) = is_bist_holiday c d && all_holidays (d + 1) n

  all_holidays-at :
      (n k d : ℕ)
      → all_holidays d n ≡ true
      → k < n
      → not (leb 5 (weekday (d + k)) || c.tr_holidays (d + k)) ≡ false
  unfolding is_bist_holiday
  all_holidays-at zero k d h lt = absurd (omega (arith, lt))
  all_holidays-at (suc n) zero d h lt =
      let here : d + 0 ≡ d = omega arith in rw here (ground (arith, h))
  all_holidays-at (suc n) (suc k) d h lt =
      let same : d + 1 + k ≡ d + suc k = omega arith in
      rw (← same) (all_holidays-at n k (d + 1) (ground (arith, h)) (omega (arith, lt)))

  skip_holidays-total :
      (fuel d : ℕ)
      → all_holidays d fuel ≡ false
      → (n : ℕ) × (skip_holidays c fuel d ≡ some (d + n))
        × (is_bist_holiday c (d + n) ≡ false)
        × (all_holidays d n ≡ true)
  unfolding skip_holidays
  skip_holidays-total zero d h = absurd (ground arith)
  skip_holidays-total (suc fuel) d h = elim (Bool-cases (is_bist_holiday c d)) [
    | inr e ↦ let here : d + 0 ≡ d = ground arith in (0, rw (e, here) refl, rw here e, refl)
    | inl e ↦
        let (n, found, day, before) = skip_holidays-total fuel (d + 1) (ground (arith, e, h)) in
        let same : d + 1 + n ≡ d + suc n = ground arith in
        (suc n, rw (e, ← same) found, rw (← same) day, ground (arith, e, before))
  ]

  -- Written out: the exchange has a session on that day, and it has not closed at that moment.
  abbrev pub has_session : ℕ → Bool
  has_session d = not (leb 5 (weekday d) || c.tr_holidays d)

  abbrev pub is_ahead : Moment → ℕ → Bool
  is_ahead after d =
      ltb after.date d
      || (ltb after.time
          (if c.half_day_dates d then hour c.market_half_day_hour else hour c.market_close_hour))

  -- The loop, from today or from tomorrow.
  skip_holidays-first :
      (fuel d : ℕ)
      → all_holidays d fuel ≡ false
      → (n : ℕ) × (skip_holidays c fuel d ≡ some (d + n))
        × (has_session (d + n) ≡ true)
        × ((k : ℕ) → k < n → has_session (d + k) ≡ false)
  skip_holidays-first fuel d h =
      let (n, found, day, before) = skip_holidays-total fuel d h in
      (
        n,
        found,
        unfold is_bist_holiday in ground (arith, day),
        λ k lt. all_holidays-at n k d before lt,
      )

  -- Today has no session to come, and the days after it have none.
  not_before :
      (after : Moment) (n : ℕ)
      → (is_bist_holiday c after.date || leb (bist_close_time c after.date) after.time) ≡ true
      → ((k : ℕ) → k < n → has_session (after.date + 1 + k) ≡ false)
      → (k : ℕ) → k < suc n
      → (has_session (after.date + k) && is_ahead after (after.date + k)) ≡ false
  unfolding is_bist_holiday bist_close_time is_bist_half_day
  not_before after n past before zero lt =
      let here : after.date + 0 ≡ after.date = omega arith in rw here (ground (arith, past))
  not_before after n past before (suc k) lt =
      let same : after.date + suc k ≡ after.date + 1 + k = omega arith in
      let shut : has_session (after.date + 1 + k) ≡ false = before k (omega (arith, lt)) in
      rw (same, shut) refl

  -- If one of as many days as there is fuel, from tomorrow on, has a session, the next session is
  -- found. It opens at the opening hour of a day from today on, which has a session that has not closed,
  -- and no earlier day from today on has one: a day has a session unless it is a Saturday, a Sunday or a
  -- holiday, and today's has not closed before the closing hour, or the hour of a half day.
  pub next_bist_session-first :
      (fuel : ℕ) (after : Moment)
      → all_holidays (after.date + 1) fuel ≡ false
      → (n : ℕ) × (next_bist_session c fuel after
          ≡ some (record { date = after.date + n; time = hour c.market_open_hour }))
        × (has_session (after.date + n) ≡ true)
        × (is_ahead after (after.date + n) ≡ true)
        × ((k : ℕ)
            → k < n
            → (has_session (after.date + k) && is_ahead after (after.date + k)) ≡ false)
  unfolding next_bist_session first_candidate is_bist_holiday bist_close_time is_bist_half_day
  next_bist_session-first zero after h = absurd (ground arith)
  next_bist_session-first (suc fuel) after h =
      let b = is_bist_holiday c after.date || leb (bist_close_time c after.date) after.time in
      let here : after.date + 0 ≡ after.date = omega arith in
      elim (Bool-cases b) [
        | inr now ↦
            let today : has_session after.date ≡ true = ground (arith, now) in
            let ahead : is_ahead after after.date ≡ true = ground (arith, now) in
            let open_day : is_bist_holiday c after.date ≡ false = ground (arith, now) in
            let found : skip_holidays c (suc fuel) after.date ≡ some after.date =
              unfold skip_holidays in rw open_day refl in
            (
              0,
              rw (next_bist_session, now, found, here) refl,
              rw here today,
              rw here ahead,
              λ k lt. absurd (omega (arith, lt)),
            )
        | inl past ↦
            let (n, found, day, before) = skip_holidays-first (suc fuel) (after.date + 1) h in
            let same : after.date + suc n ≡ after.date + 1 + n = omega arith in
            (
              suc n,
              rw (next_bist_session, past, found, same) refl,
              rw same day,
              ground arith,
              not_before after n past before,
            )
      ]
