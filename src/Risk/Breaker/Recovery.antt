-- ===== src/Risk/Breaker/Recovery.antt =====
-- Runs of calls on a breaker of risk/circuit_breaker.py.
use bist_bot.Common.{
  ℕ, zero, suc, ◌+◌, ◌≡◌, ◌<◌, ◌∙◌, refl, inl, inr, true, false, arith, Bool-cases, List, [], ◌∷◌,
  length, ltb, if◌then◌else◌,
}
use bist_bot.Common.Floats.{Floats}
use bist_bot.Risk.Breaker.{
  CircuitState, CircuitBreaker, Call, perform, perform_all, maybe_transition, allow_request,
  read_state, record_error, record_success, trip, close, record_equity_change,
}
use bist_bot.Risk.Breaker.Edges.{IsCooled, snapshot-fst, record_loss-state, update_equity-state}

module _ {F : Type 0} ⦃fl : Floats F⦄ where
  open fl use {sub, le}

  -- The call does not reset the breaker, and asks for its state before the cooldown is over.
  abbrev pub IsEarly : Call F → CircuitBreaker F → Type 0
  IsEarly (Call.read now) b = le b.config.cooldown_seconds (sub now b.opened_at) ≡ false
  IsEarly (Call.allow now) b = le b.config.cooldown_seconds (sub now b.opened_at) ≡ false
  IsEarly (Call.snap now) b = le b.config.cooldown_seconds (sub now b.opened_at) ≡ false
  IsEarly Call.manual_reset b = ⊥
  IsEarly _ b = Unit

  abbrev pub AllEarly : List (Call F) → CircuitBreaker F → Type 0
  AllEarly [] b = Unit
  AllEarly (c ∷ cs) b = IsEarly c b × AllEarly cs (perform c b)

  maybe_transition-open :
      (now : F) (b : CircuitBreaker F)
      → b.state ≡ CircuitState.open_circuit
      → le b.config.cooldown_seconds (sub now b.opened_at) ≡ false
      → (maybe_transition now b).state ≡ CircuitState.open_circuit
  unfolding maybe_transition
  maybe_transition-open now b o e = ground arith

  perform-open :
      (c : Call F) (b : CircuitBreaker F)
      → b.state ≡ CircuitState.open_circuit
      → IsEarly c b
      → (perform c b).state ≡ CircuitState.open_circuit
  unfolding perform
  perform-open (Call.read now) b o e = unfold read_state in maybe_transition-open now b o e
  perform-open (Call.allow now) b o e = unfold allow_request in maybe_transition-open now b o e
  perform-open (Call.snap now) b o e = rw snapshot-fst (maybe_transition-open now b o e)
  perform-open (Call.loss now today amount) b o e =
      ground (arith, record_loss-state now today amount b)
  perform-open (Call.error now) b o e = unfold record_error trip in ground arith
  perform-open Call.success b o e = unfold record_success in ground arith
  perform-open Call.manual_reset b o e = absurd e
  perform-open (Call.equity now pnl) b o e =
      unfold record_equity_change in ground (arith, update_equity-state now pnl b)

  -- While nobody resets an open breaker and every query comes before the cooldown is over, counted
  -- from the last trip, it stays open, and a request is refused.
  pub open_halts :
      (cs : List (Call F)) (now : F) (b : CircuitBreaker F)
      → b.state ≡ CircuitState.open_circuit
      → AllEarly cs b
      → IsEarly (Call.allow now) (perform_all cs b)
      → ((perform_all cs b).state ≡ CircuitState.open_circuit)
        × ((allow_request now (perform_all cs b)).1 ≡ false)
  unfolding perform_all
  open_halts [] now b o early late =
      (o, unfold allow_request in rw (maybe_transition-open now b o late))
  open_halts (c ∷ cs) now b o early late =
      open_halts cs now (perform c b) (perform-open c b o early.0) early.1 late

  -- `record_success`, so many times.
  abbrev pub successes : ℕ → CircuitBreaker F → CircuitBreaker F
  successes zero b = b
  successes (suc n) b = successes n (record_success b)

  record_success-half_open :
      (b : CircuitBreaker F)
      → b.state ≡ CircuitState.half_open
      → b.half_open_successes + 1 < b.config.half_open_max_probes
      → ((record_success b).state ≡ CircuitState.half_open)
        × ((record_success b).config ≡ b.config)
        × ((record_success b).half_open_successes ≡ b.half_open_successes + 1)
  unfolding record_success
  record_success-half_open b h lt = ground arith

  record_success-closes :
      (b : CircuitBreaker F)
      → b.state ≡ CircuitState.half_open
      → b.half_open_successes + 1 ≡ b.config.half_open_max_probes
      → ((record_success b).state ≡ CircuitState.closed)
        × ((record_success b).consecutive_errors ≡ 0)
  unfolding record_success close
  record_success-closes b h e = ground arith

  successes-closes :
      (n : ℕ) (b : CircuitBreaker F)
      → b.state ≡ CircuitState.half_open
      → b.half_open_successes + suc n ≡ b.config.half_open_max_probes
      → ((successes (suc n) b).state ≡ CircuitState.closed)
        × ((successes (suc n) b).consecutive_errors ≡ 0)
  successes-closes zero b h e = record_success-closes b h (omega arith)
  successes-closes (suc n) b h e =
      let (h', same, count) = record_success-half_open b h (omega arith) in
      successes-closes n (record_success b) h' (rw (same, count) (omega arith))

  maybe_transition-half_open :
      (now : F) (b : CircuitBreaker F)
      → b.state ≡ CircuitState.open_circuit
      → IsCooled now b
      → ((maybe_transition now b).state ≡ CircuitState.half_open)
        × ((maybe_transition now b).half_open_successes ≡ 0)
        × ((maybe_transition now b).config ≡ b.config)
  unfolding maybe_transition
  maybe_transition-half_open now b o c = ground arith

  -- Once the cooldown of an open breaker is over, a request is let through as a probe, and as many
  -- successes as the configuration wants, at least one, close the breaker with no errors counted.
  pub probes_recover :
      (now : F) (b : CircuitBreaker F) (probes : ℕ)
      → b.state ≡ CircuitState.open_circuit
      → IsCooled now b
      → b.config.half_open_max_probes ≡ suc probes
      → let (b', allowed) = allow_request now b in
        (allowed ≡ true)
        × (b'.state ≡ CircuitState.half_open)
        × ((successes (suc probes) b').state ≡ CircuitState.closed)
        × ((successes (suc probes) b').consecutive_errors ≡ 0)
  unfolding allow_request
  probes_recover now b probes o c e =
      let (half, none_yet, same) = maybe_transition-half_open now b o c in
      let count =
        successes-closes probes (maybe_transition now b) half
          (rw (none_yet, same, e) (omega arith)) in
      (rw half, half, count.0, count.1)

  -- `record_error` at each of these clock readings.
  abbrev pub errors : List F → CircuitBreaker F → CircuitBreaker F
  errors [] b = b
  errors (now ∷ nows) b = errors nows (record_error now b)

  errors-open :
      (nows : List F) (b : CircuitBreaker F)
      → b.state ≡ CircuitState.open_circuit
      → (errors nows b).state ≡ CircuitState.open_circuit
  errors-open [] b o = o
  errors-open (now ∷ nows) b o =
      errors-open nows (record_error now b) (unfold record_error trip in ground arith)

  record_error-step :
      (now : F) (b : CircuitBreaker F)
      → b.state ≡ CircuitState.closed
      → ((record_error now b).config ≡ b.config)
        × ((record_error now b).consecutive_errors ≡ b.consecutive_errors + 1)
        × ((record_error now b).state ≡ (
            if ltb (b.consecutive_errors + 1) b.config.max_consecutive_errors
            then CircuitState.closed
            else CircuitState.open_circuit))
  unfolding record_error trip
  record_error-step now b c = ground arith

  -- A closed breaker trips by errors exactly when they reach the configured number: after a row of
  -- errors it is closed while the count is below it, and open from then on, at any clock readings.
  pub errors_trip :
      (nows : List F) (b : CircuitBreaker F)
      → b.state ≡ CircuitState.closed
      → b.consecutive_errors < b.config.max_consecutive_errors
      → (errors nows b).state ≡ (
          if ltb (b.consecutive_errors + length nows) b.config.max_consecutive_errors
          then CircuitState.closed
          else CircuitState.open_circuit)
  errors_trip [] b c lt = rw c (ground arith)
  errors_trip (now ∷ nows) b c lt =
      let (same, count, s) = record_error-step now b c in
      elim (Bool-cases (ltb (b.consecutive_errors + 1) b.config.max_consecutive_errors)) [
        | inl below ↦
            let rest =
              errors_trip nows (record_error now b) (rw (s, below) refl)
                (rw (count, same) (ground arith)) in
            rest ∙ rw (count, same) (ground arith)
        | inr reached ↦ errors-open nows (record_error now b) (rw (s, reached) refl) ∙ ground arith
      ]
