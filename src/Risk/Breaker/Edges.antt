-- ===== src/Risk/Breaker/Edges.antt =====
-- The state machine of the docstring of risk/circuit_breaker.py.
use bist_bot.Common.{ℕ, ◌≡◌, refl, ◌⊎◌, inl, inr, true, arith, Bool-cases, ◌==◌}
use mathlib.Core.Path.{subst}
use bist_bot.Common.Floats.{Floats, fabs}
use bist_bot.Risk.Breaker.{
  CircuitState, CircuitBreaker, Call, perform, maybe_transition, allow_request, read_state,
  snapshot, record_loss, record_error, record_success, reset, record_equity_change, update_equity,
  trip, close, roll_daily_if_needed, judge_loss,
}

module _ {F : Type 0} ⦃fl : Floats F⦄ where
  open fl use {sub, le}

  -- The cooldown of a breaker that is open is over at this clock reading.
  abbrev pub IsCooled : F → CircuitBreaker F → Type 0
  IsCooled now b = le b.config.cooldown_seconds (sub now b.opened_at) ≡ true

  -- A query leaves the state, or half-opens a breaker whose cooldown is over.
  abbrev pub Cools : F → CircuitBreaker F → CircuitState → Type 0
  Cools now b s =
      (s ≡ b.state)
      ⊎ ((b.state ≡ CircuitState.open_circuit) × (s ≡ CircuitState.half_open) × IsCooled now b)

  -- The states that a call may leave behind, by the docstring: thresholds trip the breaker, the
  -- cooldown half-opens it, a probe closes it, and the manual override closes it from anywhere.
  abbrev pub Edge : Call F → CircuitBreaker F → CircuitState → Type 0
  Edge (Call.read now) b s = Cools now b s
  Edge (Call.allow now) b s = Cools now b s
  Edge (Call.snap now) b s = Cools now b s
  Edge (Call.loss _ _ _) b s = (s ≡ b.state) ⊎ (s ≡ CircuitState.open_circuit)
  Edge (Call.equity _ _) b s = (s ≡ b.state) ⊎ (s ≡ CircuitState.open_circuit)
  Edge (Call.error _) b s =
      (s ≡ CircuitState.open_circuit) ⊎ ((s ≡ b.state) × ((b.state ≡ CircuitState.half_open) → ⊥))
  Edge Call.success b s =
      (s ≡ b.state) ⊎ ((b.state ≡ CircuitState.half_open) × (s ≡ CircuitState.closed))
  Edge Call.manual_reset b s = s ≡ CircuitState.closed

  maybe_transition-Cools :
      (now : F) (b : CircuitBreaker F) → Cools now b (maybe_transition now b).state
  unfolding maybe_transition
  maybe_transition-Cools now b = ground arith

  pub snapshot-fst : (now : F) (b : CircuitBreaker F) → (snapshot now b).0 ≡ maybe_transition now b
  unfolding snapshot
  snapshot-fst now b = elim (Bool-cases (fl.eq (maybe_transition now b).capital (fl.lit 0 0))) [
    | inl e ↦ rw e
    | inr e ↦ rw e
  ]

  pub update_equity-state :
      (now pnl : F) (b : CircuitBreaker F)
      → ((update_equity now pnl b).state ≡ b.state)
        ⊎ ((update_equity now pnl b).state ≡ CircuitState.open_circuit)
  unfolding update_equity
  update_equity-state now pnl b = ground arith

  judge_loss-state :
      (now amount : F) (b : CircuitBreaker F)
      → ((judge_loss now amount b).0.state ≡ b.state)
        ⊎ ((judge_loss now amount b).0.state ≡ CircuitState.open_circuit)
  unfolding judge_loss trip
  judge_loss-state now amount b = ground (arith, update_equity-state now (fl.minus amount) b)

  pub roll_daily_if_needed-state :
      (today : ℕ) (b : CircuitBreaker F) → (roll_daily_if_needed today b).state ≡ b.state
  unfolding roll_daily_if_needed
  roll_daily_if_needed-state today b = elim (Bool-cases (today == b.daily_loss_date)) [
    | inl e ↦ rw e
    | inr e ↦ rw e
  ]

  pub record_loss-state :
      (now : F) (today : ℕ) (amount : F) (b : CircuitBreaker F)
      → ((record_loss now today amount b).0.state ≡ b.state)
        ⊎ ((record_loss now today amount b).0.state ≡ CircuitState.open_circuit)
  unfolding record_loss
  record_loss-state now today amount b =
      let b1 = roll_daily_if_needed today b in
      let b2 = record b1 { daily_loss = fl.add b1.daily_loss (fabs amount) } in
      let after = (judge_loss now amount b2).0.state in
      subst (λ s. (after ≡ s) ⊎ (after ≡ CircuitState.open_circuit))
        (roll_daily_if_needed-state today b) (judge_loss-state now amount b2)

  -- Every call obeys the documented state machine, at every clock reading.
  pub perform-Edge : (c : Call F) (b : CircuitBreaker F) → Edge c b (perform c b).state
  unfolding perform
  perform-Edge (Call.read now) b = unfold read_state in maybe_transition-Cools now b
  perform-Edge (Call.allow now) b = unfold allow_request in maybe_transition-Cools now b
  perform-Edge (Call.snap now) b = rw snapshot-fst (maybe_transition-Cools now b)
  perform-Edge (Call.loss now today amount) b = record_loss-state now today amount b
  perform-Edge (Call.error now) b = unfold record_error trip in ground arith
  perform-Edge Call.success b = unfold record_success close in ground arith
  perform-Edge Call.manual_reset b = unfold reset in refl
  perform-Edge (Call.equity now pnl) b =
      unfold record_equity_change in update_equity-state now pnl b
