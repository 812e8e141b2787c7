-- ===== src/Risk/Breaker/Tests.antt =====
-- Runs of the breaker of risk/circuit_breaker.py at concrete inputs, with the default thresholds.
use bist_bot.Common.{◌≡◌, refl, true, false, arith, some, List, [], ◌∷◌}
use bist_bot.Common.Int.{pos}
use bist_bot.Common.Floats.{Fixed, fixed_floats, unit_of}
use bist_bot.Risk.Breaker.{
  CircuitState, CircuitBreaker, CircuitBreakerConfig, Call, perform, perform_all, create,
  allow_request, record_loss, record_success, trip, maybe_transition, roll_daily_if_needed,
  judge_loss, update_equity,
}
use bist_bot.Risk.Breaker.Edges.{Edge, perform-Edge}
use bist_bot.Risk.Breaker.Bounds.{IsSound, run-IsSound}
use bist_bot.Risk.Breaker.Recovery.{open_halts, probes_recover, errors_trip, successes, errors}

abbrev defaults : CircuitBreakerConfig Fixed
defaults = record {
  daily_loss_limit_pct = unit_of 3;
  max_consecutive_errors = 3;
  cooldown_seconds = unit_of 300;
  half_open_max_probes = 1;
  max_account_drawdown_pct = pos 1500;
  var_confidence_level = pos 9500;
  var_lookback_bars = 60;
}

abbrev fresh : CircuitBreaker Fixed
fresh = record {
  capital = unit_of 10_000;
  config = defaults;
  state = CircuitState.closed;
  daily_loss = pos 0;
  daily_loss_date = 7;
  consecutive_errors = 0;
  opened_at = pos 0;
  half_open_successes = 0;
  peak_equity = unit_of 10_000;
  daily_pnl_series = [];
}

abbrev tripped : CircuitBreaker Fixed
tripped = record fresh {
  state = CircuitState.open_circuit;
  opened_at = unit_of 50;
  consecutive_errors = 3;
}

fresh_lem : create (unit_of 10_000) defaults 7 ≡ some fresh
unfolding create
fresh_lem = refl

-- A loss of 3 % of the capital trips the breaker.
loss_trips : (record_loss (unit_of 9) 8 (unit_of 300) fresh).0.state ≡ CircuitState.open_circuit
unfolding record_loss judge_loss trip roll_daily_if_needed
loss_trips = refl

small_loss : (record_loss (unit_of 9) 8 (unit_of 100) fresh).0.capital ≡ unit_of 9_900
unfolding record_loss judge_loss trip roll_daily_if_needed update_equity
small_loss = refl

perform-Edge_example :
    Edge {F = Fixed} (Call.error (unit_of 9)) fresh (perform (Call.error (unit_of 9)) fresh).state
perform-Edge_example = perform-Edge {F = Fixed} (Call.error (unit_of 9)) fresh

abbrev calls : List (Call Fixed)
calls = Call.error (unit_of 1) ∷ Call.success ∷ Call.loss (unit_of 2) 7 (unit_of 400) ∷ []

run-IsSound_example :
    ((perform_all calls fresh).config ≡ defaults) × IsSound (perform_all calls fresh)
run-IsSound_example =
    run-IsSound {F = Fixed} (unit_of 10_000) defaults 7 calls (omega arith) fresh_lem

abbrev early : List (Call Fixed)
early = Call.allow (unit_of 60) ∷ Call.success ∷ []

open_halts_example :
    ((perform_all early tripped).state ≡ CircuitState.open_circuit)
    × ((allow_request (unit_of 90) (perform_all early tripped)).1 ≡ false)
unfolding perform_all perform allow_request maybe_transition record_success
open_halts_example = open_halts {F = Fixed} early (unit_of 90) tripped refl (refl, (tt, tt)) refl

probes_recover_example :
    let (b', allowed) = allow_request (unit_of 350) tripped in
    (allowed ≡ true)
    × (b'.state ≡ CircuitState.half_open)
    × ((successes 1 b').state ≡ CircuitState.closed)
    × ((successes 1 b').consecutive_errors ≡ 0)
probes_recover_example = probes_recover {F = Fixed} (unit_of 350) tripped 0 refl refl refl

abbrev thrice : List Fixed
thrice = unit_of 1 ∷ unit_of 2 ∷ unit_of 3 ∷ []

errors_trip_example : (errors thrice fresh).state ≡ CircuitState.open_circuit
errors_trip_example = errors_trip {F = Fixed} thrice fresh refl (omega arith)
