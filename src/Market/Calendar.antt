-- ===== src/Market/Calendar.antt =====
-- src/bist_bot/market_calendar.py and src/bist_bot/agent/settlement.py. A date is Python's ordinal, a
-- time of day is in seconds, in the exchange's time zone; the two `while` loops take fuel.
use bist_bot.Common.{
  ℕ, zero, suc, ◌+◌, ◌*◌, ◌%◌, Bool, false, Option, none, some, if◌then◌else◌, ltb, leb, not, ◌&&◌,
  ◌||◌,
}
use bist_bot.Common.Int.{ℤ, pos_part}

-- The holidays of the package `holidays`, the module's set of half days, and the settings it reads.
pub record Calendar : Type 0 where
  pub tr_holidays : ℕ → Bool
  pub half_day_dates : ℕ → Bool
  pub market_open_hour : ℕ
  pub market_close_hour : ℕ
  pub session_close_buffer_minutes : ℕ
  pub market_half_day_hour : ℕ
  pub eod_close_delay_minutes : ℤ

pub record Moment : Type 0 where
  pub date : ℕ
  pub time : ℕ

-- `d.weekday()`: the ordinal 1 is a Monday, which is 0.
abbrev pub weekday : ℕ → ℕ
weekday d = (d + 6) % 7

abbrev pub hour : ℕ → ℕ
hour h = h * 3_600

module _ (c : Calendar) where
  unfoldable pub is_bist_holiday : ℕ → Bool
  is_bist_holiday d = leb 5 (weekday d) || c.tr_holidays d

  unfoldable pub is_bist_half_day : ℕ → Bool
  is_bist_half_day d = c.half_day_dates d

  unfoldable pub bist_close_time : ℕ → ℕ
  unfolding is_bist_half_day
  bist_close_time d =
      if is_bist_half_day d then hour c.market_half_day_hour else hour c.market_close_hour

  unfoldable pub is_bist_open : Moment → Bool
  unfolding is_bist_holiday is_bist_half_day
  is_bist_open dt =
      if is_bist_holiday dt.date
      then false
      else (let open_t = hour c.market_open_hour in
          let close_t =
            if is_bist_half_day dt.date
            then hour c.market_half_day_hour
            else hour c.market_close_hour in
          leb open_t dt.time && ltb dt.time close_t)

  -- `.time()` of a datetime drops the day.
  unfoldable pub bist_session_close_time : ℕ → ℕ
  unfolding bist_close_time
  bist_session_close_time d = (bist_close_time d + c.session_close_buffer_minutes * 60) % 86_400

  unfoldable pub bist_eod_time : ℕ → ℕ
  unfolding bist_session_close_time
  bist_eod_time d = (bist_session_close_time d + pos_part c.eod_close_delay_minutes * 60) % 86_400

  -- `while is_bist_holiday(d)`
  unfoldable pub skip_holidays : ℕ → ℕ → Option ℕ
  unfolding is_bist_holiday
  skip_holidays zero d = none
  skip_holidays (suc fuel) d =
      let rest = skip_holidays fuel (d + 1) in if is_bist_holiday d then rest else some d

  -- The first day that can hold the next session.
  unfoldable pub first_candidate : Moment → ℕ
  unfolding is_bist_holiday bist_close_time
  first_candidate after =
      if is_bist_holiday after.date || leb (bist_close_time after.date) after.time
      then after.date + 1
      else after.date

  unfoldable pub next_bist_session : ℕ → Moment → Option Moment
  unfolding first_candidate skip_holidays
  next_bist_session fuel after = elim (skip_holidays fuel (first_candidate after)) [
    | none ↦ none
    | some d ↦ some (record { date = d; time = hour c.market_open_hour })
  ]

  -- A day that the settlement counts.
  unfoldable pub counts : ℕ → Bool
  unfolding is_bist_holiday
  counts d = ltb (weekday d) 5 && not (is_bist_holiday d)

  -- `while days_added < days`
  unfoldable pub add_days : ℕ → ℕ → ℕ → ℕ → Option ℕ
  unfolding counts
  add_days zero days result days_added = if ltb days_added days then none else some result
  add_days (suc fuel) days result days_added =
      let rest =
        add_days fuel days (result + 1)
          (if counts (result + 1) then days_added + 1 else days_added) in
      if ltb days_added days then rest else some result

  unfoldable pub settlement_date : ℕ → ℕ → ℕ → Option ℕ
  unfolding add_days
  settlement_date fuel trade_date days = add_days fuel days trade_date 0

  unfoldable pub is_settled : ℕ → ℕ → ℕ → ℕ → Option Bool
  unfolding settlement_date
  is_settled fuel trade_date current_date days = elim (settlement_date fuel trade_date days) [
    | none ↦ none
    | some d ↦ some (leb d current_date)
  ]

  unfoldable pub calculate_settlement : ℕ → Moment → ℕ → Option Moment
  unfolding settlement_date
  calculate_settlement fuel entry_time days = elim (settlement_date fuel entry_time.date days) [
    | none ↦ none
    | some d ↦ some (record { date = d; time = entry_time.time })
  ]
