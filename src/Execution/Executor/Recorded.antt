-- ===== src/Execution/Executor/Recorded.antt =====
-- The orders that execution/order_executor.py keeps.
use bist_bot.Common.{
  ℕ, ◌≡◌, refl, sym, ◌⊎◌, inl, inr, Bool, true, false, Option, none, some, List, [], ◌∷◌, ◌++◌,
  if◌then◌else◌, ◌==◌, not, ◌||◌, any, is_some, or_else, arith, Bool-cases, Option-cases,
}
use mathlib.Core.Path.{subst}
use bist_bot.Common.Floats.{Floats}
use bist_bot.Execution.Raises.{Error, Result, ok, err}
use bist_bot.Execution.Order.{OrderType, OrderSide, OrderState, OrderResult}
use bist_bot.Execution.Executor.{
  Broker, is_executable, side_of, Signal, Entry, OrderExecutor, set_state, create_order,
  update_order, enabled, record_failure, record_answer, settle_result, admitted, resolve_quantity,
  submit_signal, authenticated, execute_signal, head_of, tail_of,
}

-- The state that the orders give to an id.
abbrev pub state_at : {F : Type 0} → ℕ → List (Entry F) → Option OrderState
state_at id [] = none
state_at id (r ∷ rs) = if r.id == id then some r.state else state_at id rs

abbrev pub has_id : {F : Type 0} → ℕ → Entry F → Bool
has_id id r = r.id == id

-- What the caller is told of the order's state, if anything.
abbrev pub told : Result (Option OrderResult) → Option OrderState
told (ok none) = none
told (ok (some r)) = some r.state
told (err e) = none

module _ {F : Type 0} where
  state_at-set_state :
      (id : ℕ) (state : OrderState) (b : Option ℕ) (rs : List (Entry F))
      → any (has_id id) rs ≡ true
      → state_at id (set_state id state b rs) ≡ some state
  unfolding set_state
  state_at-set_state id state b [] h = absurd (ground arith)
  state_at-set_state id state b (r ∷ rs) h = elim (Bool-cases (r.id == id)) [
    | inl e ↦ rw (e, e) refl
    | inr e ↦ rw (e, e) (state_at-set_state id state b rs (ground (arith, e, h)))
  ]

  any-append_id :
      (id : ℕ) (rs : List (Entry F)) (r : Entry F)
      → r.id ≡ id
      → any (has_id id) (rs ++ (r ∷ [])) ≡ true
  any-append_id id [] r h = ground arith
  any-append_id id (s ∷ rs) r h = ground (arith, any-append_id id rs r h)

module _ {F B : Type 0} where
  record_failure-recorded :
      (e : Error) (id : ℕ) (x : OrderExecutor F B)
      → head_of x.faults ≡ false
      → state_at id (set_state id OrderState.rejected none x.orders) ≡ some OrderState.rejected
      → let after = record_failure e (some id) x in
        (told after.0 ≡ none) ⊎ (state_at id after.1.orders ≡ told after.0)
  unfolding record_failure update_order
  record_failure-recorded Error.not_implemented id x ready written =
      inl (rw (record_failure, ready) refl)
  record_failure-recorded Error.request_exception id x ready written =
      inr (rw (record_failure, ready) written)
  record_failure-recorded Error.runtime_error id x ready written =
      inr (rw (record_failure, ready) written)
  record_failure-recorded Error.value_error id x ready written =
      inr (rw (record_failure, ready) written)
  record_failure-recorded Error.other id x ready written = inr (rw (record_failure, ready) written)

  settle_result-recorded :
      (r : Result OrderResult) (id : ℕ) (x : OrderExecutor F B)
      → x.faults ≡ []
      → any (has_id id) x.orders ≡ true
      → let after = settle_result r (some id) x in
        (told after.0 ≡ none) ⊎ (state_at id after.1.orders ≡ told after.0)
  unfolding settle_result record_answer update_order
  settle_result-recorded (ok r) id x calm there =
      let written =
        state_at-set_state id r.state (some (or_else r.broker_order_id r.order_id)) x.orders
          there in
      let ready : head_of x.faults ≡ false = rw calm refl in inr (rw ready written)
  settle_result-recorded (err e) id x calm there =
      let written = state_at-set_state id OrderState.rejected none x.orders there in
      let ready : head_of x.faults ≡ false = rw calm refl in
      record_failure-recorded e id x ready written

  create_order-made :
      (ticker : ℕ) (side : OrderSide) (q : F) (type : OrderType) (price : Option F)
      (x : OrderExecutor F B)
      → x.has_db ≡ true
      → x.faults ≡ []
      → let made = create_order ticker side q type price x in
        (made.0 ≡ some x.next_id)
        × (made.1.faults ≡ [])
        × (any (has_id x.next_id) made.1.orders ≡ true)
  unfolding create_order
  create_order-made ticker side q type price x db calm =
      let ready : head_of x.faults ≡ false = rw calm refl in
      let quiet : tail_of x.faults ≡ [] = rw calm refl in
      rw (create_order, db, ready) (refl, quiet, any-append_id x.next_id x.orders _ refl)

module _ {F B : Type 0} (br : Broker F B) ⦃fl : Floats F⦄ where
  submit_signal-recorded :
      (signal : Signal F) (q : F) (type : OrderType) (price : Option F) (x : OrderExecutor F B)
      → x.has_db ≡ true
      → x.faults ≡ []
      → let after = submit_signal br signal q type price x in
        (told after.0 ≡ none) ⊎ (state_at x.next_id after.1.orders ≡ told after.0)
  unfolding submit_signal
  submit_signal-recorded signal q type price x db calm =
      let made = create_order signal.ticker (side_of signal.signal_type) q type price x in
      let (id, quiet, there) =
        create_order-made signal.ticker (side_of signal.signal_type) q type price x db calm in
      let placed =
        br.place_order signal.ticker (side_of signal.signal_type) q type
          (if is_some price then price else signal.price) made.1.broker in
      let x2 = record made.1 { broker = placed.1 } in
      subst
        (λ row.
          let after = settle_result placed.0 row x2 in
          (told after.0 ≡ none) ⊎ (state_at x.next_id after.1.orders ≡ told after.0))
        (sym id) (settle_result-recorded placed.0 x.next_id x2 quiet there)

  admitted-recorded :
      (r : Result Bool) (signal : Signal F) (q : F) (type : OrderType) (price : Option F)
      (x : OrderExecutor F B)
      → x.has_db ≡ true
      → x.faults ≡ []
      → let after = admitted br r signal q type price x in
        (told after.0 ≡ none) ⊎ (state_at x.next_id after.1.orders ≡ told after.0)
  unfolding admitted
  admitted-recorded (ok true) signal q type price x db calm =
      submit_signal-recorded signal q type price x db calm
  admitted-recorded (ok false) signal q type price x db calm = inl refl
  admitted-recorded (err Error.not_implemented) signal q type price x db calm = inl refl
  admitted-recorded (err Error.request_exception) signal q type price x db calm = inl refl
  admitted-recorded (err Error.runtime_error) signal q type price x db calm = inl refl
  admitted-recorded (err Error.value_error) signal q type price x db calm = inl refl
  admitted-recorded (err Error.other) signal q type price x db calm = inl refl

  -- With a database that answers, whenever executing a signal returns a result, the new row of the
  -- orders is in the state that the result names, for every answer and every exception of the broker.
  pub execute_signal-recorded :
      (signal : Signal F) (quantity : Option F) (type : OrderType) (price : Option F) (force : Bool)
      (x : OrderExecutor F B)
      → x.has_db ≡ true
      → x.faults ≡ []
      → let after = execute_signal br signal quantity type price force x in
        (told after.0 ≡ none) ⊎ (state_at x.next_id after.1.orders ≡ told after.0)
  unfolding execute_signal authenticated
  execute_signal-recorded signal quantity type price force x db calm =
      elim (Bool-cases (not (enabled force x) || not (is_executable signal.signal_type))) [
        | inl e ↦ inl (rw (execute_signal, e) refl)
        | inr e ↦ elim (Option-cases (resolve_quantity br signal quantity)) [
          | inl g ↦ inl (rw (execute_signal, e, g) refl)
          | inr (q, g) ↦
              let login = br.authenticate x.broker in
              let x1 = record x { broker = login.1 } in
              rw (execute_signal, e, g) (admitted-recorded login.0 signal q type price x1 db calm)
        ]
      ]
