-- ===== src/Market/Tests.antt =====
-- The calendar at concrete inputs: the ordinal 738_000 is a Thursday.
use bist_bot.Common.{ℕ, ◌+◌, ◌≡◌, ◌≤◌, ◌<◌, ◌&&◌, refl, true, false, some, ◌==◌, arith}
use bist_bot.Common.Int.{pos}
use bist_bot.Market.Calendar.{
  Calendar, Moment, hour, weekday, is_bist_holiday, bist_eod_time, next_bist_session, counts,
  settlement_date, is_settled,
}
use bist_bot.Market.Sessions.{has_session, is_ahead, next_bist_session-first}
use bist_bot.Market.Settlement.{trading_days_after, settlement_date-counts, is_settled-counts}

-- The Monday after it is a holiday.
abbrev bist : Calendar
bist = record {
  tr_holidays = λ d. d == 738_004;
  half_day_dates = λ d. false;
  market_open_hour = 10;
  market_close_hour = 18;
  session_close_buffer_minutes = 10;
  market_half_day_hour = 13;
  eod_close_delay_minutes = pos 2;
}

thursday : weekday 738_000 ≡ 3
thursday = refl

abbrev friday_night : Moment
friday_night = record { date = 738_001; time = 68_000 }

tuesday_next :
    next_bist_session bist 10 friday_night ≡ some (record { date = 738_005; time = 36_000 })
unfolding next_bist_session
tuesday_next = refl

eod : bist_eod_time bist 738_001 ≡ 65_520
unfolding bist_eod_time
eod = refl

next_bist_session-first_example :
    (n : ℕ) × (next_bist_session bist 10 friday_night
      ≡ some (record { date = 738_001 + n; time = hour 10 }))
    × (has_session bist (738_001 + n) ≡ true)
    × (is_ahead bist friday_night (738_001 + n) ≡ true)
    × ((k : ℕ)
        → k < n
        → (has_session bist (738_001 + k) && is_ahead bist friday_night (738_001 + k)) ≡ false)
unfolding is_bist_holiday
next_bist_session-first_example = next_bist_session-first bist 10 friday_night refl

settlement_date-counts_example :
    (n : ℕ) × (settlement_date bist 10 738_000 2 ≡ some (738_000 + n))
    × (trading_days_after bist 738_000 n ≡ 2)
    × (n ≤ 10)
unfolding counts is_bist_holiday
settlement_date-counts_example = settlement_date-counts bist 10 738_000 2 (ground arith)

is_settled-counts_example : is_settled bist 10 738_000 738_004 2 ≡ some false
unfolding counts is_bist_holiday
is_settled-counts_example = is_settled-counts bist 10 738_000 4 2 (ground arith)
