-- ===== src/Risk/Breaker/Bounds.antt =====
-- The counters of risk/circuit_breaker.py and their thresholds.
use bist_bot.Common.{ℕ, ◌≡◌, ◌<◌, ◌∙◌, refl, inl, inr, arith, Bool-cases, List, [], ◌∷◌, ◌==◌, some}
use bist_bot.Common.Floats.{Floats, fabs}
use bist_bot.Risk.Breaker.{
  CircuitState, CircuitBreaker, CircuitBreakerConfig, Call, perform, perform_all, create,
  maybe_transition, allow_request, read_state, record_loss, judge_loss, record_error,
  record_success, reset, record_equity_change, update_equity, trip, close, roll_daily_if_needed,
}
use bist_bot.Risk.Breaker.Edges.{snapshot-fst}

module _ {F : Type 0} ⦃fl : Floats F⦄ where
  -- Closed, fewer errors in a row than trip it; half open, fewer probes than close it.
  pub record IsSound (b : CircuitBreaker F) : Type 0 where
    pub errors_lt :
        b.state ≡ CircuitState.closed → b.consecutive_errors < b.config.max_consecutive_errors
    pub probes_lt :
        b.state ≡ CircuitState.half_open → b.half_open_successes < b.config.half_open_max_probes

  -- Both thresholds of a configuration are positive.
  abbrev pub IsPositive : CircuitBreakerConfig F → Type 0
  IsPositive c = (0 < c.max_consecutive_errors) × (0 < c.half_open_max_probes)

  abbrev Keeps : CircuitBreaker F → CircuitBreaker F → Type 0
  Keeps b b' = (b'.config ≡ b.config) × IsSound b'

  maybe_transition-Keeps :
      (now : F) (b : CircuitBreaker F)
      → IsPositive b.config
      → IsSound b
      → Keeps b (maybe_transition now b)
  unfolding maybe_transition
  maybe_transition-Keeps now b p s = ground arith

  update_equity-Keeps :
      (now pnl : F) (b : CircuitBreaker F) → IsSound b → Keeps b (update_equity now pnl b)
  unfolding update_equity
  update_equity-Keeps now pnl b s = ground arith

  judge_loss-Keeps :
      (now amount : F) (b : CircuitBreaker F) → IsSound b → Keeps b (judge_loss now amount b).0
  unfolding judge_loss trip
  judge_loss-Keeps now amount b s = ground (arith, update_equity-Keeps now (fl.minus amount) b)

  roll_daily_if_needed-Keeps :
      (today : ℕ) (b : CircuitBreaker F) → IsSound b → Keeps b (roll_daily_if_needed today b)
  unfolding roll_daily_if_needed
  roll_daily_if_needed-Keeps today b s = elim (Bool-cases (today == b.daily_loss_date)) [
    | inl e ↦ rw e (refl, s)
    | inr e ↦ rw e (refl, record { errors_lt = s.errors_lt; probes_lt = s.probes_lt })
  ]

  record_loss-Keeps :
      (now : F) (today : ℕ) (amount : F) (b : CircuitBreaker F)
      → IsSound b
      → Keeps b (record_loss now today amount b).0
  unfolding record_loss
  record_loss-Keeps now today amount b s =
      let b1 = roll_daily_if_needed today b in
      let b2 = record b1 { daily_loss = fl.add b1.daily_loss (fabs amount) } in
      let (same, s1) = roll_daily_if_needed-Keeps today b s in
      let s2 : IsSound b2 = record { errors_lt = s1.errors_lt; probes_lt = s1.probes_lt } in
      let (same', s3) = judge_loss-Keeps now amount b2 s2 in (same' ∙ same, s3)

  perform-Keeps :
      (c : Call F) (b : CircuitBreaker F) → IsPositive b.config → IsSound b → Keeps b (perform c b)
  unfolding perform
  perform-Keeps (Call.read now) b p s = unfold read_state in maybe_transition-Keeps now b p s
  perform-Keeps (Call.allow now) b p s = unfold allow_request in maybe_transition-Keeps now b p s
  perform-Keeps (Call.snap now) b p s = rw snapshot-fst (maybe_transition-Keeps now b p s)
  perform-Keeps (Call.loss now today amount) b p s = record_loss-Keeps now today amount b s
  perform-Keeps (Call.error now) b p s = unfold record_error trip in ground arith
  perform-Keeps Call.success b p s = unfold record_success close in ground arith
  perform-Keeps Call.manual_reset b p s = unfold reset in ground arith
  perform-Keeps (Call.equity now pnl) b p s =
      unfold record_equity_change in update_equity-Keeps now pnl b s

  perform_all-Keeps :
      (cs : List (Call F)) (b : CircuitBreaker F)
      → IsPositive b.config
      → IsSound b
      → Keeps b (perform_all cs b)
  unfolding perform_all
  perform_all-Keeps [] b p s = (refl, s)
  perform_all-Keeps (c ∷ cs) b p s =
      let (same, s1) = perform-Keeps c b p s in
      let (same', s2) = perform_all-Keeps cs (perform c b) (rw same p) s1 in (same' ∙ same, s2)

  -- With positive thresholds, whatever is called on a new breaker, closed it has seen fewer errors
  -- in a row than trip it, half open fewer successful probes than close it, and its configuration
  -- is the one that it was given.
  pub run-IsSound :
      (capital : F) (config : CircuitBreakerConfig F) (today : ℕ) (cs : List (Call F))
      {b : CircuitBreaker F}
      → IsPositive config
      → create capital config today ≡ some b
      → ((perform_all cs b).config ≡ config) × IsSound (perform_all cs b)
  unfolding create
  run-IsSound capital config today cs {b} p e =
      let fresh : (b.config ≡ config) × IsSound b = ground arith in
      let (same, s) = perform_all-Keeps cs b (rw fresh.0 p) fresh.1 in (same ∙ fresh.0, s)
