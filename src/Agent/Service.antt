-- ===== src/Agent/Service.antt =====
-- src/bist_bot/services/execution_service.py on the agent's desk; metrics, alerts and logs are left out.
use bist_bot.Common.{
  ℕ, List, [], ◌∷◌, Bool, true, false, Option, none, some, if◌then◌else◌, not, ◌&&◌, ◌||◌, or_else,
}
use bist_bot.Common.Floats.{Floats, nought}
use bist_bot.Execution.Raises.{Error, Result, ok, err}
use bist_bot.Execution.Order.{OrderType, OrderSide, OrderState, OrderResult, is_filled, is_dropped}
use bist_bot.Execution.Executor.{SignalType}
use bist_bot.Agent.Desk.{Exchange, Purpose, Desk, create_order, update_order}

-- What `signal_type` may hold: a member of the enum, or a text.
pub data TypeValue : Type 0 where
  member : SignalType → TypeValue
  strong_buy_text strong_sell_text other_text : TypeValue

-- The fields of a signal that the agent reads.
pub record AgentSignal (F : Type 0) : Type 0 where
  pub ticker : ℕ
  pub signal_type : TypeValue
  pub score : F
  pub position_size : Option F
  pub price : F
  pub stop_loss : Option F
  pub target_price : Option F

pub record ExecutionAttempt (F : Type 0) : Type 0 where
  pub accepted : Bool
  pub order_db_id : Option ℕ
  pub broker_order_id : Option ℕ
  pub state : Option OrderState
  pub fill_price : Option F

-- `signal_type in {SignalType.STRONG_BUY, SignalType.STRONG_SELL}`
abbrev pub is_strong : TypeValue → Bool
is_strong (TypeValue.member SignalType.strong_buy) = true
is_strong (TypeValue.member SignalType.strong_sell) = true
is_strong _ = false

-- `signal_type is SignalType.STRONG_BUY`
abbrev pub side_of_type : TypeValue → OrderSide
side_of_type (TypeValue.member SignalType.strong_buy) = OrderSide.buy
side_of_type _ = OrderSide.sell

-- `_is_position_ready`
unfoldable pub is_position_ready : OrderResult → Bool → Bool
is_position_ready result require_fill =
    result.accepted
    && (if is_dropped result.state
        then false
        else (if require_fill then is_filled result.state else true))

module _ {F : Type 0} where
  abbrev pub refusal : Option ℕ → Option OrderState → ExecutionAttempt F
  refusal order_db_id state = record {
    accepted = false;
    order_db_id = order_db_id;
    broker_order_id = none;
    state = state;
    fill_price = none;
  }

  -- The attempt after the broker answered.
  abbrev pub attempt_of : F → Bool → ℕ → OrderResult → ExecutionAttempt F
  attempt_of price require_fill order_db_id result =
      let ready = is_position_ready result require_fill in
      record {
        accepted = ready;
        order_db_id = some order_db_id;
        broker_order_id = some (or_else result.broker_order_id result.order_id);
        state = some result.state;
        fill_price = if ready then some price else none;
      }

module _ {F B : Type 0} where
  -- The handler of every exception.
  unfoldable pub record_exception : ℕ → Desk F B → Result (Option (ExecutionAttempt F)) × Desk F B
  unfolding update_order
  record_exception order_db_id d =
      let (raised, d1) = update_order order_db_id OrderState.rejected none none none d in
      if raised
      then (err Error.other, d1)
      else (ok (some (refusal (some order_db_id) (some OrderState.rejected))), d1)

  unfoldable pub record_result :
      F → Bool → ℕ → Result OrderResult → Desk F B → Result (Option (ExecutionAttempt F)) × Desk F B
  unfolding record_exception is_position_ready
  record_result price require_fill order_db_id (err e) d = record_exception order_db_id d
  record_result price require_fill order_db_id (ok result) d =
      let (raised, d1) =
        update_order order_db_id result.state
          (some (or_else result.broker_order_id result.order_id)) none none d in
      if raised
      then record_exception order_db_id d1
      else (ok (some (attempt_of price require_fill order_db_id result)), d1)

module _ {F B : Type 0} (ex : Exchange F B) ⦃fl : Floats F⦄ where
  open fl use {le}

  -- `resolve_execution_quantity`, whose large quantities only warn.
  unfoldable pub resolve_execution_quantity : Option F → Option F
  resolve_execution_quantity none = none
  resolve_execution_quantity (some quantity) = if le quantity nought then none else some quantity

  -- `_authenticate`, which catches every exception.
  unfoldable pub granted : Desk F B → Bool × Desk F B
  granted d =
      let (r, b) = ex.authenticate d.broker in
      (elim r [ ok answer ↦ answer | err e ↦ false ], record d { broker = b })

  -- With the link, or without it where the broker takes none.
  unfoldable pub send_entry : ℕ → OrderSide → F → ℕ → B → Result OrderResult × B
  send_entry ticker side quantity order_db_id b =
      let (linked, b1) =
        ex.place_linked ticker side quantity OrderType.market (some order_db_id) b in
      elim linked [
        | err e ↦ (err e, b1)
        | ok answer ↦ elim answer [
          | some result ↦ (ok result, b1)
          | none ↦ ex.place_order ticker side quantity OrderType.market none b1
        ]
      ]

  unfoldable pub submit_entry :
      AgentSignal F → F → Bool → Desk F B → Result (Option (ExecutionAttempt F)) × Desk F B
  unfolding create_order send_entry record_result
  submit_entry signal quantity require_fill d =
      let side = side_of_type signal.signal_type in
      let (row, d1) =
        create_order signal.ticker side quantity OrderType.market none Purpose.entry d in
      elim row [
        | err e ↦ (err e, d1)
        | ok order_db_id ↦
            let (r, b) = send_entry signal.ticker side quantity order_db_id d1.broker in
            record_result signal.price require_fill order_db_id r (record d1 { broker = b })
      ]

  -- `auto_execute` is the setting AUTO_EXECUTE. A missing broker is not modelled.
  unfoldable pub execute_signal :
      Bool
      → Bool
      → AgentSignal F
      → Bool
      → Desk F B
      → Result (Option (ExecutionAttempt F)) × Desk F B
  unfolding resolve_execution_quantity granted submit_entry
  execute_signal auto_execute force signal require_fill d =
      if (not force && not auto_execute) || not (is_strong signal.signal_type)
      then (ok none, d)
      else elim (resolve_execution_quantity signal.position_size) [
        | none ↦ (ok (some (refusal none none)), d)
        | some quantity ↦
            let (admitted, d1) = granted d in
            let sent = submit_entry signal quantity require_fill d1 in
            if admitted then sent else (ok (some (refusal none none)), d1)
      ]

  -- `auto_execute_signals`; an exception ends the loop.
  unfoldable pub auto_execute_signals :
      Bool → List (AgentSignal F) → Desk F B → Result (List (ExecutionAttempt F)) × Desk F B
  unfolding execute_signal
  auto_execute_signals auto_execute [] d = (ok [], d)
  auto_execute_signals auto_execute (s ∷ ss) d =
      let (r, d1) = execute_signal auto_execute true s false d in
      let attempted = auto_execute && is_strong s.signal_type in
      let d2 = if attempted then d1 else d in
      let (rest, d3) = auto_execute_signals auto_execute ss d2 in
      elim (if attempted then r else ok none) [
        | err e ↦ (err e, d2)
        | ok attempt ↦ elim rest [
          | err e ↦ (err e, d3)
          | ok attempts ↦ (ok (elim attempt [ none ↦ attempts | some a ↦ a ∷ attempts ]), d3)
        ]
      ]
