-- ===== src/Execution/Executor/Sending.antt =====
-- The calls that execution/order_executor.py makes of its broker.
use bist_bot.Common.{
  ℕ, ◌≡◌, refl, ap, ◌∙◌, ◌⊎◌, inl, inr, Bool, true, false, Option, some, if◌then◌else◌, not, ◌||◌,
  is_some, arith, Bool-cases, Option-cases,
}
use bist_bot.Common.Floats.{Floats}
use bist_bot.Execution.Raises.{Error, Result, ok, err}
use bist_bot.Execution.Order.{OrderType, OrderSide, OrderResult}
use bist_bot.Execution.Executor.{
  Broker, is_executable, side_of, Signal, OrderExecutor, create_order, enabled, record_failure,
  record_answer, settle_result, admitted, resolve_quantity, submit_signal, authenticated,
  execute_signal,
}

module _ {F B : Type 0} where
  record_failure-broker :
      (e : Error) (row : Option ℕ) (x : OrderExecutor F B)
      → (record_failure e row x).1.broker ≡ x.broker
  unfolding record_failure
  record_failure-broker e row x = ground arith

  record_answer-broker :
      (r : OrderResult) (row : Option ℕ) (x : OrderExecutor F B)
      → (record_answer r row x).1.broker ≡ x.broker
  unfolding record_answer
  record_answer-broker r row x = ground arith

  settle_result-broker :
      (r : Result OrderResult) (row : Option ℕ) (x : OrderExecutor F B)
      → (settle_result r row x).1.broker ≡ x.broker
  unfolding settle_result
  settle_result-broker (ok r) row x = record_answer-broker r row x
  settle_result-broker (err e) row x = record_failure-broker e row x

  create_order-broker :
      (ticker : ℕ) (side : OrderSide) (q : F) (type : OrderType) (price : Option F)
      (x : OrderExecutor F B)
      → (create_order ticker side q type price x).1.broker ≡ x.broker
  unfolding create_order
  create_order-broker ticker side q type price x = ground arith

module _ {F B : Type 0} (br : Broker F B) ⦃fl : Floats F⦄ where
  open fl use {le}

  -- The broker after it took the order of a signal.
  abbrev pub after_placing : Signal F → F → OrderType → Option F → B → B
  after_placing signal q type price b =
      (br.place_order signal.ticker (side_of signal.signal_type) q type
        (if is_some price then price else signal.price) b).1

  submit_signal-broker :
      (signal : Signal F) (q : F) (type : OrderType) (price : Option F) (x : OrderExecutor F B)
      → (submit_signal br signal q type price x).1.broker
        ≡ after_placing signal q type price x.broker
  unfolding submit_signal
  submit_signal-broker signal q type price x =
      let made = create_order signal.ticker (side_of signal.signal_type) q type price x in
      let placed =
        br.place_order signal.ticker (side_of signal.signal_type) q type
          (if is_some price then price else signal.price) made.1.broker in
      settle_result-broker placed.0 made.0 (record made.1 { broker = placed.1 })
      ∙ ap (after_placing signal q type price)
          (create_order-broker signal.ticker (side_of signal.signal_type) q type price x)

  admitted-broker :
      (r : Result Bool) (signal : Signal F) (q : F) (type : OrderType) (price : Option F)
      (x : OrderExecutor F B)
      → let after = admitted br r signal q type price x in
        (after.1.broker ≡ x.broker)
        ⊎ ((r ≡ ok true) × (after.1.broker ≡ after_placing signal q type price x.broker))
  unfolding admitted
  admitted-broker (ok true) signal q type price x =
      inr (refl, submit_signal-broker signal q type price x)
  admitted-broker (ok false) signal q type price x = inl refl
  admitted-broker (err Error.not_implemented) signal q type price x = inl refl
  admitted-broker (err Error.request_exception) signal q type price x = inl refl
  admitted-broker (err Error.runtime_error) signal q type price x = inl refl
  admitted-broker (err Error.value_error) signal q type price x = inl refl
  admitted-broker (err Error.other) signal q type price x = inl refl

  -- Executing a signal leaves the broker, or authenticates it, or authenticates it and places one
  -- order; it places one only if execution is enabled or forced, the signal is to be executed, its
  -- quantity is not 0 or less, and the broker answered that it is authenticated.
  pub execute_signal-sends :
      (signal : Signal F) (quantity : Option F) (type : OrderType) (price : Option F) (force : Bool)
      (x : OrderExecutor F B)
      → let after = (execute_signal br signal quantity type price force x).1 in
        let login = br.authenticate x.broker in
        (after.broker ≡ x.broker)
        ⊎ (after.broker ≡ login.1)
        ⊎ ((q : F) × (resolve_quantity br signal quantity ≡ some q)
            × (enabled force x ≡ true)
            × (is_executable signal.signal_type ≡ true)
            × (login.0 ≡ ok true)
            × (after.broker ≡ after_placing signal q type price login.1))
  unfolding execute_signal authenticated
  execute_signal-sends signal quantity type price force x =
      elim (Bool-cases (not (enabled force x) || not (is_executable signal.signal_type))) [
        | inl e ↦ inl (rw (execute_signal, e) refl)
        | inr e ↦ elim (Option-cases (resolve_quantity br signal quantity)) [
          | inl g ↦ inl (rw (execute_signal, e, g) refl)
          | inr (q, g) ↦
              let login = br.authenticate x.broker in
              let gate =
                admitted-broker login.0 signal q type price (record x { broker = login.1 }) in
              elim gate [
                | inl same ↦ inr (inl (rw (execute_signal, e, g) same))
                | inr (granted, placed) ↦ inr (
                    inr (
                      q,
                      g,
                      ground (arith, e),
                      ground (arith, e),
                      granted,
                      rw (execute_signal, e, g) placed,
                    ))
              ]
        ]
      ]
