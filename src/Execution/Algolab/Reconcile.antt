-- ===== src/Execution/Algolab/Reconcile.antt =====
-- Reconciling a submission whose outcome is not known (execution/algolab_broker.py).
use bist_bot.Common.{
  ℕ, Bool, true, false, Option, none, some, List, [], ◌∷◌, if◌then◌else◌, ◌==◌, is_some, or_else,
  ◌&&◌, ◌||◌, not,
}
use bist_bot.Common.Floats.{Floats, nought}
use bist_bot.Execution.Raises.{Error, ok, err, pure, raise, modify, ◌>>=◌, ◌>>◌}
use bist_bot.Execution.Order.{OrderState, is_filled, is_dropped, Order, OrderResult}
use bist_bot.Execution.Intents.{
  Intents, IntentStatus, holds_value, is_open, update, update_conditional, get,
}
use bist_bot.Execution.Algolab.{Endpoint, AlgoLabBroker, Terms}
use bist_bot.Execution.Algolab.Http.{Call, RetryMode, request, history}
use bist_bot.Execution.Algolab.Match.{
  is_invalid, is_sound, is_live, trading_days, validate_history_fill, matches_of,
}

abbrev pub result_of : Bool → ℕ → Option ℕ → OrderState → OrderResult
result_of accepted client_id broker_order_id state = record {
  accepted = accepted;
  order_id = client_id;
  state = state;
  broker_order_id = broker_order_id;
}

-- `match.broker_order_id or match.order_id`
abbrev pub broker_id : {F : Type 0} → Order F → Option ℕ
broker_id o = some (or_else o.broker_order_id o.order_id)

unfoldable pub first_with : {F : Type 0} → ℕ → List (Order F) → Option (Order F)
first_with id [] = none
first_with id (o ∷ os) =
    if holds_value o.broker_order_id id || o.order_id == id then some o else first_with id os

module _ {F S : Type 0} where
  -- A change of the intent table, if there is one.
  abbrev pub with_intents : (Intents F → Intents F) → AlgoLabBroker F S → AlgoLabBroker F S
  with_intents f w = elim w.order_intents [
    | none ↦ w
    | some t ↦ record w { order_intents = some (f t) }
  ]

  unfoldable pub set_intent : ℕ → ℕ → IntentStatus → Option ℕ → Option Bool → Call F S (Unit {0})
  set_intent now client_id status broker_order_id release =
      modify (with_intents (update now client_id status broker_order_id release))

  -- `_keep_reconcile_unknown`
  unfoldable pub keep_reconcile_unknown : ℕ → ℕ → Call F S OrderResult
  keep_reconcile_unknown now client_id = do
    set_intent now client_id IntentStatus.unknown none (some false)
    raise Error.runtime_error

  -- `_try_cancel_remainder`: whatever the venue answers, the caller reads the history again.
  unfoldable pub try_cancel_remainder : Call F S (Unit {0})
  try_cancel_remainder w = (ok tt, (request Endpoint.cancel_order RetryMode.cancel w).1)

  -- What the accounting service makes of a fill, and its new state.
  unfoldable pub account : ℕ → Option ℕ → F → Option F → OrderState → Call F S IntentStatus
  account client_id broker_order_id filled average state w = elim w.accounting_service [
    | none ↦ (ok IntentStatus.ack, w)
    | some service ↦ elim w.order_intents [
      | none ↦ (ok IntentStatus.ack, w)
      | some t ↦
          let (outcome, ledger) =
            service (get client_id t) broker_order_id filled average state w.ledger in
          (ok outcome.status, record w { ledger = ledger })
    ]
  ]

  -- `_settle_matched_fill`: the compare-and-set leaves the lock.
  unfoldable pub settle_matched_fill : ℕ → ℕ → Order F → F → Option F → Call F S OrderResult
  settle_matched_fill now client_id o filled average = do
    status ← account client_id (broker_id o) filled average o.state
    modify
        (with_intents (update_conditional now client_id status is_open (broker_id o) (some false)))
    pure (result_of true client_id (broker_id o) o.state)

module _ {F S : Type 0} ⦃fl : Floats F⦄ where
  open fl use {le}

  -- `_reread_order_by_broker_id`
  unfoldable pub reread_order : ℕ → List ℕ → Call F S (Option (Order F))
  reread_order id days w =
      let (r, w1) = history {F = F} {S = S} days w in
      elim r [ ok orders ↦ (ok (first_with id orders), w1) | err _ ↦ (ok none, w1) ]

  -- The broker confirms that nothing was filled: the lock is released.
  unfoldable pub confirm_dropped : ℕ → ℕ → Order F → Option ℕ → Call F S OrderResult
  confirm_dropped now client_id o id = do
    set_intent now client_id IntentStatus.rejected id (some true)
    pure (result_of false client_id id o.state)

  -- After the cancellation of an order with no fill: what the second reading says.
  unfoldable pub settle_reread_empty :
      ℕ → ℕ → Terms F → Option ℕ → Option (Order F) → Call F S OrderResult
  settle_reread_empty now client_id terms id none = keep_reconcile_unknown now client_id
  settle_reread_empty now client_id terms id (some fresh) =
      let fill =
        validate_history_fill fresh.filled_quantity fresh.average_fill_price terms.quantity
          fresh.state in
      if not (is_sound fill.problem)
      then keep_reconcile_unknown now client_id
      else (if fl.lt nought fill.filled
          then settle_matched_fill now client_id fresh fill.filled fill.average
          else (if is_dropped fresh.state
              then confirm_dropped now client_id fresh
                  (if is_some fresh.broker_order_id then fresh.broker_order_id else id)
              else keep_reconcile_unknown now client_id))

  -- Case 1 of `_reconcile_order`: no fill on the first reading.
  unfoldable pub settle_empty : ℕ → ℕ → Terms F → List ℕ → Order F → Call F S OrderResult
  settle_empty now client_id terms days o w =
      if is_dropped o.state
      then confirm_dropped now client_id o (broker_id o) w
      else elim o.broker_order_id [
        | none ↦ keep_reconcile_unknown now client_id w
        | some id ↦
            if w.cancel_remainder
            then (do
              try_cancel_remainder
              fresh ← reread_order id days
              settle_reread_empty now client_id terms (broker_id o) fresh)
                w
            else keep_reconcile_unknown now client_id w
      ]

  -- After the cancellation of the remainder: what the second reading says.
  unfoldable pub settle_reread_filled : ℕ → ℕ → Terms F → Option (Order F) → Call F S OrderResult
  settle_reread_filled now client_id terms none = keep_reconcile_unknown now client_id
  settle_reread_filled now client_id terms (some fresh) =
      let fill =
        validate_history_fill fresh.filled_quantity fresh.average_fill_price terms.quantity
          fresh.state in
      if is_invalid fill.problem
      then keep_reconcile_unknown now client_id
      else (if le fill.filled nought
          then keep_reconcile_unknown now client_id
          else (if is_live fresh.state || (is_filled fresh.state && not (is_sound fill.problem))
              then (do
                result ← settle_matched_fill now client_id fresh fill.filled fill.average
                set_intent now client_id IntentStatus.ack_unaccounted none (some false)
                pure result)
              else settle_matched_fill now client_id fresh fill.filled fill.average))

  -- The single match of `_reconcile_order`.
  unfoldable pub settle_match : ℕ → ℕ → Terms F → List ℕ → Order F → Call F S OrderResult
  settle_match now client_id terms days o w =
      let fill =
        validate_history_fill o.filled_quantity o.average_fill_price terms.quantity o.state in
      let open_still = is_live o.state || (is_filled o.state && not (is_sound fill.problem)) in
      if not o.state_known || is_invalid fill.problem
      then keep_reconcile_unknown now client_id w
      else (if le fill.filled nought
          then settle_empty now client_id terms days o w
          else (if w.cancel_remainder && (open_still && is_some o.broker_order_id)
              then (do
                try_cancel_remainder
                fresh ← reread_order (or_else o.broker_order_id 0) days
                settle_reread_filled now client_id terms fresh)
                  w
              else settle_matched_fill now client_id o fill.filled fill.average w))

  -- `_reconcile_order` once the history is read.
  unfoldable pub settle_matches : ℕ → ℕ → Terms F → List ℕ → List (Order F) → Call F S OrderResult
  settle_matches now client_id terms days [] = keep_reconcile_unknown now client_id
  settle_matches now client_id terms days (o ∷ []) = settle_match now client_id terms days o
  settle_matches now client_id terms days (o ∷ p ∷ os) = do
    set_intent now client_id IntentStatus.unknown none none
    raise Error.runtime_error

  unfoldable pub unknown_history : ℕ → ℕ → Call F S OrderResult
  unknown_history now client_id = do
    set_intent now client_id IntentStatus.unknown none none
    raise Error.runtime_error

  -- `_reconcile_order`
  unfoldable pub reconcile_order : ℕ → ℕ → Terms F → ℕ → Call F S OrderResult
  reconcile_order now client_id terms submitted_at w =
      let window = w.reconcile_window_seconds in
      let days = trading_days window submitted_at in
      let (r, w1) = history {F = F} {S = S} days w in
      elim r [
        | err _ ↦ unknown_history now client_id w1
        | ok orders ↦
            settle_matches now client_id terms days
              (matches_of w1.send_client_id window submitted_at terms client_id w1.order_intents
                orders)
              w1
      ]
