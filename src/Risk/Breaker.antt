-- ===== src/Risk/Breaker.antt =====
-- src/bist_bot/risk/circuit_breaker.py: the class CircuitBreaker, method by method. The clock
-- readings (`time.monotonic()` and today's date) are arguments. The lock makes every method one
-- step, and log lines and alerts leave no trace in the state.
pub mod Edges
pub mod Bounds
pub mod Recovery
mod Tests
use bist_bot.Common.{
  ℕ, ◌+◌, ◌-◌, Bool, true, false, Option, none, some, List, [], ◌∷◌, ◌++◌, ltb, leb, ◌==◌,
  if◌then◌else◌, or_else, length, drop, not, ◌&&◌,
}
use bist_bot.Common.Floats.{Floats, nought, fmax, fabs}

pub data CircuitState : Type 0 where
  closed open_circuit half_open : CircuitState

-- `==` on the states.
abbrev pub is_closed : CircuitState → Bool
is_closed CircuitState.closed = true
is_closed _ = false

abbrev pub is_open : CircuitState → Bool
is_open CircuitState.open_circuit = true
is_open _ = false

abbrev pub is_half_open : CircuitState → Bool
is_half_open CircuitState.half_open = true
is_half_open _ = false

pub record CircuitBreakerConfig (F : Type 0) : Type 0 where
  pub daily_loss_limit_pct : F
  pub max_consecutive_errors : ℕ
  pub cooldown_seconds : F
  pub half_open_max_probes : ℕ
  pub max_account_drawdown_pct : F
  pub var_confidence_level : F
  pub var_lookback_bars : ℕ

pub record CircuitBreaker (F : Type 0) : Type 0 where
  pub capital : F
  pub config : CircuitBreakerConfig F
  pub state : CircuitState
  pub daily_loss : F
  pub daily_loss_date : ℕ
  pub consecutive_errors : ℕ
  pub opened_at : F
  pub half_open_successes : ℕ
  pub peak_equity : F
  pub daily_pnl_series : List F

-- How a call ended: `zero_division` is the exception that `x / 0.0` raises.
pub data Outcome : Type 0 where
  returned zero_division : Outcome

-- `xs[-n:]`, where a slice from `-0` is the whole list.
abbrev last : {A : Type 0} → ℕ → List A → List A
last n xs = if n == 0 then xs else drop (length xs - n) xs

-- The dict that `snapshot` returns; the last three keys stand only where they are set.
pub record Snapshot (F : Type 0) : Type 0 where
  pub state : CircuitState
  pub daily_loss : F
  pub daily_loss_pct : F
  pub daily_loss_limit_pct : F
  pub consecutive_errors : ℕ
  pub max_consecutive_errors : ℕ
  pub cooldown_seconds : F
  pub drawdown_pct : Option F
  pub max_drawdown_limit_pct : Option F
  pub var_95_pct : Option F

module _ {F : Type 0} ⦃fl : Floats F⦄ where
  open fl use {lit, minus, add, sub, mul, div, lt, le, eq, round, mean, pstdev}

  -- `CircuitBreaker(capital, config)`; `none` is the ValueError.
  pub create : F → CircuitBreakerConfig F → ℕ → Option (CircuitBreaker F)
  create capital config today =
      if le capital nought
      then none
      else some (record {
        capital = capital;
        config = config;
        state = CircuitState.closed;
        daily_loss = nought;
        daily_loss_date = today;
        consecutive_errors = 0;
        opened_at = nought;
        half_open_successes = 0;
        peak_equity = capital;
        daily_pnl_series = [];
      })

  -- `_trip`
  pub trip : F → CircuitBreaker F → CircuitBreaker F
  trip now b = record b {
    state = CircuitState.open_circuit;
    opened_at = now;
    half_open_successes = 0;
  }

  -- `_close`
  pub close : CircuitBreaker F → CircuitBreaker F
  close b = record b {
    state = CircuitState.closed;
    half_open_successes = 0;
    consecutive_errors = 0;
  }

  -- `_maybe_transition`
  pub maybe_transition : F → CircuitBreaker F → CircuitBreaker F
  maybe_transition now b =
      if not (is_open b.state)
      then b
      else (if le b.config.cooldown_seconds (sub now b.opened_at)
          then record b { state = CircuitState.half_open; half_open_successes = 0 }
          else b)

  -- `_roll_daily_if_needed`
  pub roll_daily_if_needed : ℕ → CircuitBreaker F → CircuitBreaker F
  roll_daily_if_needed today b =
      if today == b.daily_loss_date
      then b
      else record b { daily_loss = nought; daily_loss_date = today; daily_pnl_series = [] }

  -- The drawdown below the peak, 0 where the peak is not positive.
  drawdown : CircuitBreaker F → F
  drawdown b =
      if lt nought b.peak_equity then div (sub b.peak_equity b.capital) b.peak_equity else nought

  raise_peak : CircuitBreaker F → CircuitBreaker F
  raise_peak b = if lt b.peak_equity b.capital then record b { peak_equity = b.capital } else b

  -- `_update_equity`
  pub update_equity : F → F → CircuitBreaker F → CircuitBreaker F
  unfolding trip drawdown raise_peak
  update_equity now pnl_delta b =
      let b1 = raise_peak (record b { capital = add b.capital pnl_delta }) in
      let b2 = if le b.config.max_account_drawdown_pct (drawdown b1) then trip now b1 else b1 in
      record b2 { daily_pnl_series = b2.daily_pnl_series ++ (pnl_delta ∷ []) }

  -- The property `state`: the new state is in the breaker that is returned.
  pub read_state : F → CircuitBreaker F → CircuitBreaker F × CircuitState
  read_state now b = let b1 = maybe_transition now b in (b1, b1.state)

  unfoldable pub allow_request : F → CircuitBreaker F → CircuitBreaker F × Bool
  allow_request now b =
      let b1 = maybe_transition now b in
      (b1, if is_closed b1.state then true else is_half_open b1.state)

  -- `record_loss` once the loss is added to the day's.
  judge_loss : F → F → CircuitBreaker F → CircuitBreaker F × Outcome
  judge_loss now amount b =
      if eq b.capital nought
      then (b, Outcome.zero_division)
      else (if le b.config.daily_loss_limit_pct (mul (div b.daily_loss b.capital) (lit 100 0))
          then (trip now b, Outcome.returned)
          else (update_equity now (minus amount) b, Outcome.returned))

  pub record_loss : F → ℕ → F → CircuitBreaker F → CircuitBreaker F × Outcome
  record_loss now today amount b =
      let b1 = roll_daily_if_needed today b in
      judge_loss now amount (record b1 { daily_loss = add b1.daily_loss (fabs amount) })

  pub record_error : F → CircuitBreaker F → CircuitBreaker F
  record_error now b =
      let b1 = record b { consecutive_errors = b.consecutive_errors + 1 } in
      if is_half_open b1.state
      then trip now b1
      else (if leb b1.config.max_consecutive_errors b1.consecutive_errors then trip now b1 else b1)

  pub record_success : CircuitBreaker F → CircuitBreaker F
  record_success b =
      let b1 = record b { consecutive_errors = 0 } in
      if is_half_open b1.state
      then (let b2 = record b1 { half_open_successes = b1.half_open_successes + 1 } in
          if leb b2.config.half_open_max_probes b2.half_open_successes then close b2 else b2)
      else b1

  pub reset : CircuitBreaker F → CircuitBreaker F
  unfolding close
  reset b =
      let b1 = close b in
      record b1 {
        daily_loss = nought;
        consecutive_errors = 0;
        peak_equity = b1.capital;
        daily_pnl_series = [];
      }

  pub record_equity_change : F → F → CircuitBreaker F → CircuitBreaker F
  record_equity_change now pnl b = update_equity now pnl b

  pub current_drawdown_pct : CircuitBreaker F → F
  current_drawdown_pct b =
      if le b.peak_equity nought
      then nought
      else fmax nought (div (sub b.peak_equity b.capital) b.peak_equity)

  -- `z_scores.get(conf, 1.645)`
  z_score : F → F
  z_score conf =
      if eq conf (lit 90 2)
      then lit 1282 3
      else if eq conf (lit 95 2)
      then lit 1645 3
      else if eq conf (lit 99 2)
      then lit 2326 3
      else lit 1645 3

  deviation : List F → F
  deviation series = if ltb 1 (length series) then pstdev series else nought

  -- `None` and `0.0` are both falsy in `confidence or ...`; `none` as a result is the
  -- ZeroDivisionError of a breaker whose capital is 0.
  pub estimate_var : Option F → CircuitBreaker F → Option F
  unfolding z_score deviation
  estimate_var confidence b =
      let given = or_else confidence nought in
      let conf = if eq given nought then b.config.var_confidence_level else given in
      let series = last b.config.var_lookback_bars b.daily_pnl_series in
      let var = minus (sub (mean series) (mul (z_score conf) (deviation series))) in
      if ltb (length series) 10
      then some nought
      else if eq b.capital nought
      then none
      else some (fmax nought (div var b.capital))

  -- `snapshot`; `none` is the ZeroDivisionError of a breaker whose capital is 0.
  pub snapshot : F → CircuitBreaker F → CircuitBreaker F × Option (Snapshot F)
  unfolding z_score deviation drawdown
  snapshot now b =
      let b1 = maybe_transition now b in
      let dd_pct = if lt nought b1.peak_equity then fmax nought (drawdown b1) else nought in
      let series = last b1.config.var_lookback_bars b1.daily_pnl_series in
      let z = z_score b1.config.var_confidence_level in
      let var_val =
        if leb 10 (length series) && lt nought b1.capital
        then fmax nought (div (minus (sub (mean series) (mul z (deviation series)))) b1.capital)
        else nought in
      if eq b1.capital nought then (b1, none) else (
        b1,
        some (record {
          state = b1.state;
          daily_loss = round b1.daily_loss 2;
          daily_loss_pct = round (mul (div b1.daily_loss b1.capital) (lit 100 0)) 2;
          daily_loss_limit_pct = b1.config.daily_loss_limit_pct;
          consecutive_errors = b1.consecutive_errors;
          max_consecutive_errors = b1.config.max_consecutive_errors;
          cooldown_seconds = b1.config.cooldown_seconds;
          drawdown_pct = if lt nought dd_pct then some (round (mul dd_pct (lit 100 0)) 2) else none;
          max_drawdown_limit_pct =
              if lt nought dd_pct
              then some (mul b1.config.max_account_drawdown_pct (lit 100 0))
              else none;
          var_95_pct = if lt nought var_val then some (round (mul var_val (lit 100 0)) 2) else none;
        }),
      )

-- The calls that change the state, each with its clock readings.
pub data Call (F : Type 0) : Type 0 where
  read allow snap : F → Call F
  loss : F → ℕ → F → Call F
  error : F → Call F
  success : Call F
  manual_reset : Call F
  equity : F → F → Call F

module _ {F : Type 0} ⦃fl : Floats F⦄ where
  pub perform : Call F → CircuitBreaker F → CircuitBreaker F
  perform (Call.read now) b = (read_state now b).0
  perform (Call.allow now) b = (allow_request now b).0
  perform (Call.snap now) b = (snapshot now b).0
  perform (Call.loss now today amount) b = (record_loss now today amount b).0
  perform (Call.error now) b = record_error now b
  perform Call.success b = record_success b
  perform Call.manual_reset b = reset b
  perform (Call.equity now pnl) b = record_equity_change now pnl b

  pub perform_all : List (Call F) → CircuitBreaker F → CircuitBreaker F
  perform_all [] b = b
  perform_all (c ∷ cs) b = perform_all cs (perform c b)
