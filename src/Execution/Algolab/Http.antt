-- ===== src/Execution/Algolab/Http.antt =====
-- Requests of execution/algolab_broker.py: retries, the stale token, the two-step login, and the
-- parsing of orders.
use bist_bot.Common.{
  ℕ, zero, suc, Bool, true, false, Option, none, some, List, [], ◌∷◌, ◌++◌, if◌then◌else◌, ◌==◌,
  leb, is_some, or_else, ◌&&◌, ◌||◌, not,
}
use bist_bot.Common.Floats.{Floats, nought}
use bist_bot.Execution.Raises.{Error, Result, ok, err, Action, pure, modify, ◌>>=◌, ◌>>◌}
use bist_bot.Execution.Order.{OrderState, Order}
use bist_bot.Execution.Algolab.{
  StateText, Item, OrdersField, Payload, Body, Response, Reply, Endpoint, AlgoLabBroker,
}

pub data RetryMode : Type 0 where
  by_default place cancel : RetryMode

abbrev pub is_place : RetryMode → Bool
is_place RetryMode.place = true
is_place _ = false

abbrev pub is_cancel : RetryMode → Bool
is_cancel RetryMode.cancel = true
is_cancel _ = false

abbrev pub is_request_exception : Error → Bool
is_request_exception Error.request_exception = true
is_request_exception _ = false

abbrev pub Call : Type 0 → Type 0 → Type 0 → Type 0
Call F S A = Action (AlgoLabBroker F S) A

-- What `_request` does with the answer of one attempt.
pub data Verdict (F : Type 0) : Type 0 where
  finish : Response F → Verdict F
  fail : Error → Verdict F
  again stale : Verdict F

unfoldable pub judge : {F : Type 0} → RetryMode → Bool → Bool → Result (Response F) → Verdict F
judge mode auth_required first (err e) =
    if is_request_exception e && not (is_place mode) then Verdict.again else Verdict.fail e
judge mode auth_required first (ok r) =
    if (r.status_code == 401) && (auth_required && first)
    then Verdict.stale
    else (if is_cancel mode && (r.status_code == 404)
        then Verdict.finish r
        else (if leb 400 r.status_code
            then (if is_place mode then Verdict.fail Error.request_exception else Verdict.again)
            else Verdict.finish r))

-- `response.json()`, which must be an object.
unfoldable pub object_of : {F : Type 0} → Error → Body F → Result (Payload F)
object_of not_object Body.not_json = err Error.request_exception
object_of not_object Body.not_an_object = err not_object
object_of not_object (Body.object p) = ok p

module _ {F S : Type 0} where
  -- `session.request`
  unfoldable pub send : Endpoint → AlgoLabBroker F S → Result (Response F) × AlgoLabBroker F S
  send e w = elim w.replies [
    | [] ↦ (err Error.request_exception, record w { requests = w.requests ++ (e ∷ []) })
    | r ∷ rs ↦
        let w1 = record w { requests = w.requests ++ (e ∷ []); replies = rs } in
        elim r [ Reply.failed ↦ (err Error.request_exception, w1) | Reply.answered a ↦ (ok a, w1) ]
  ]

  -- The loop of `_request`, with the attempts that are left; `attempt` is the guarded body.
  unfoldable pub request_loop :
      ℕ
      → Bool
      → RetryMode
      → Bool
      → (AlgoLabBroker F S → Result (Response F) × AlgoLabBroker F S)
      → AlgoLabBroker F S
      → Result (Response F) × AlgoLabBroker F S
  request_loop zero first mode auth_required attempt w = (err Error.runtime_error, w)
  request_loop (suc n) first mode auth_required attempt w =
      let (r, w1) = attempt w in
      elim (judge mode auth_required first r) [
        | Verdict.finish a ↦ (ok a, w1)
        | Verdict.fail e ↦ (err e, w1)
        | Verdict.again ↦ request_loop n false mode auth_required attempt w1
        | Verdict.stale ↦
            request_loop n false mode auth_required attempt
              (record w1 { session_token = none; session_encrypted = none })
      ]

  -- `max(self.max_retries, 1)`, or 2 for an order.
  unfoldable pub attempts : RetryMode → AlgoLabBroker F S → ℕ
  attempts mode w = if is_place mode then 2 else (if w.max_retries == 0 then 1 else w.max_retries)

  unfoldable pub json : Error → Response F → Call F S (Payload F)
  json not_object r w = (object_of not_object r.body, w)

  -- A request with `auth_required=False`.
  unfoldable pub open_request : Endpoint → Call F S (Response F)
  open_request e w =
      request_loop (attempts RetryMode.by_default w) true RetryMode.by_default false (send e) w

  abbrev pub with_tokens : Option ℕ → Option ℕ → AlgoLabBroker F S → AlgoLabBroker F S
  with_tokens token encrypted w = record w { session_token = token; session_encrypted = encrypted }

  unfoldable pub login_and_verify : Call F S Bool
  login_and_verify = do
    login_response ← open_request Endpoint.login
    json Error.other login_response
    otp_response ← open_request Endpoint.verify_otp
    otp_payload ← json Error.other otp_response
    modify (with_tokens otp_payload.session_token otp_payload.encrypted_session)
    pure (is_some otp_payload.session_token || is_some otp_payload.encrypted_session)

  unfoldable pub authenticate : Call F S Bool
  authenticate w =
      if is_some w.session_token
      then (ok true, w)
      else (if w.is_configured Endpoint.login && w.is_configured Endpoint.verify_otp
          then login_and_verify w
          else (err Error.not_implemented, w))

  -- One attempt of a request that needs the session: the headers log in first.
  unfoldable pub authorised : Endpoint → Call F S (Response F)
  authorised e = do authenticate; send e

  -- `_request` for an endpoint that `_required_endpoint` finds.
  unfoldable pub request : Endpoint → RetryMode → Call F S (Response F)
  request e mode w =
      if w.is_configured e
      then request_loop (attempts mode w) true mode true (authorised e) w
      else (err Error.not_implemented, w)

  -- `_json_request`
  unfoldable pub json_request : Endpoint → RetryMode → Call F S (Payload F)
  json_request e mode = do r ← request e mode; json Error.runtime_error r

  unfoldable pub cancelled_by : Response F → Call F S Bool
  cancelled_by response =
      if response.status_code == 404
      then pure true
      else (do payload ← json Error.runtime_error response; pure (or_else payload.cancelled true))

  -- `cancel_order`: the venue's 404 counts as cancelled.
  unfoldable pub cancel_order : Call F S Bool
  cancel_order = do response ← request Endpoint.cancel_order RetryMode.cancel; cancelled_by response

-- The state that a text names, with the aliases.
abbrev pub parse_state : StateText → Option OrderState
parse_state (StateText.named s) = some s
parse_state _ = none

abbrev pub unalias : StateText → StateText
unalias StateText.executed = StateText.named OrderState.filled
unalias StateText.completed = StateText.named OrderState.filled
unalias StateText.canceled = StateText.named OrderState.cancelled
unalias t = t

module _ {F : Type 0} ⦃fl : Floats F⦄ where
  -- `x or None`
  abbrev pub or_none : F → Option F
  or_none x = if fl.eq x nought then none else some x

  -- `_parse_order`, for an entry that can be read.
  unfoldable pub parse_order : (StateText → Option StateText) → Item F → Order F
  parse_order status_map i =
      let text = or_else i.state (StateText.named OrderState.sent) in
      let state = parse_state (or_else (status_map text) (unalias text)) in
      let created_at = or_else i.created_at 0 in
      record {
        ticker = i.ticker;
        side = i.side;
        quantity = i.quantity;
        order_type = i.order_type;
        price = or_none i.price;
        stop_price = or_none i.stop_price;
        order_id = or_else i.client_order_id (or_else i.order_id 0);
        broker_order_id = i.order_id;
        state = or_else state OrderState.created;
        filled_quantity = i.filled_quantity;
        average_fill_price = or_none i.average_fill_price;
        created_at = created_at;
        updated_at = created_at;
        reason = none;
        client_order_id = i.client_order_id;
        state_known = is_some state;
      }

  unfoldable pub parse_items :
      (StateText → Option StateText) → List (Item F) → Result (List (Order F))
  parse_items status_map [] = ok []
  parse_items status_map (i ∷ is) = elim (parse_items status_map is) [
    | err e ↦ err e
    | ok os ↦ if i.malformed then err Error.value_error else ok (parse_order status_map i ∷ os)
  ]

  -- `_parse_orders`
  unfoldable pub parse_orders :
      (StateText → Option StateText) → OrdersField F → Result (List (Order F))
  parse_orders status_map OrdersField.missing = ok []
  parse_orders status_map OrdersField.not_a_list = err Error.value_error
  parse_orders status_map (OrdersField.items is) = parse_items status_map is

module _ {F S : Type 0} ⦃fl : Floats F⦄ where
  -- `get_daily_orders`; the date only goes into the request.
  unfoldable pub get_daily_orders : ℕ → Call F S (List (Order F))
  get_daily_orders trading_day w =
      let (r, w1) = json_request {F = F} {S = S} Endpoint.order_history RetryMode.by_default w in
      elim r [ ok p ↦ (parse_orders w1.status_map p.orders, w1) | err e ↦ (err e, w1) ]

  -- The orders of several days.
  unfoldable pub history : List ℕ → Call F S (List (Order F))
  history [] = pure []
  history (d ∷ ds) = do first ← get_daily_orders d; rest ← history ds; pure (first ++ rest)
