-- ===== src/Execution/Algolab/Place.antt =====
-- Placing an order (execution/algolab_broker.py), and the replay of open intents at a start.
use bist_bot.Common.{
  ℕ, ◌+◌, Bool, true, false, Option, none, some, List, [], ◌∷◌, if◌then◌else◌, is_some, or_else,
}
use bist_bot.Common.Floats.{Floats}
use bist_bot.Execution.Raises.{Error, Result, ok, err, pure, raise, ◌>>◌}
use bist_bot.Execution.Order.{OrderState, OrderResult}
use bist_bot.Execution.Intents.{
  Intent, IntentStatus, SnapshotText, create, get_unresolved, list_reconcilable,
}
use bist_bot.Execution.Algolab.{StateText, Payload, Endpoint, Terms}
use bist_bot.Execution.Algolab.Http.{Call, RetryMode, parse_state, json_request}
use bist_bot.Execution.Algolab.Reconcile.{result_of, set_intent, reconcile_order}

-- The counts that the replay returns.
pub record ReplaySummary : Type 0 where
  pub attempted : ℕ
  pub resolved : ℕ
  pub unknown : ℕ

abbrev pub nothing_done : ReplaySummary
nothing_done = record { attempted = 0; resolved = 0; unknown = 0 }

-- Resolved, unknown by a RuntimeError (a NotImplementedError is one) or a RequestException, or an
-- exception that goes on.
unfoldable pub outcome_of : {A : Type 0} → Result A → Option Bool
outcome_of (ok _) = some true
outcome_of (err Error.runtime_error) = some false
outcome_of (err Error.not_implemented) = some false
outcome_of (err Error.request_exception) = some false
outcome_of (err _) = none

module _ {F S : Type 0} ⦃fl : Floats F⦄ where
  -- Taking the lock: the ticker must have no unresolved intent.
  unfoldable pub claim : ℕ → ℕ → Terms F → Option ℕ → SnapshotText F → Call F S (Unit {0})
  claim now client_id terms order_db_id snapshot w = elim w.order_intents [
    | none ↦ (ok tt, w)
    | some t ↦
        if is_some (get_unresolved terms.ticker t)
        then (err Error.runtime_error, w)
        else elim (create now client_id terms.ticker terms.side terms.quantity terms.order_type
            terms.price terms.stop_price order_db_id snapshot t) [
              | none ↦ (err Error.other, w)
              | some t1 ↦ (ok tt, record w { order_intents = some t1 })
            ]
  ]

  -- The venue's answer to a submission; a state that is not known raises a ValueError.
  unfoldable pub acknowledge : ℕ → ℕ → Payload F → Call F S OrderResult
  acknowledge now client_id p = do
    set_intent now client_id
        (if or_else p.accepted true then IntentStatus.ack else IntentStatus.rejected) p.order_id
        none
    elim (parse_state (or_else p.state (StateText.named OrderState.sent))) [
      | none ↦ raise Error.value_error
      | some s ↦
          pure
            (result_of (or_else p.accepted true) (or_else p.client_order_id client_id) p.order_id s)
    ]

  unfoldable pub reconcile_unknown : ℕ → ℕ → Terms F → Call F S OrderResult
  reconcile_unknown now client_id terms = do
    set_intent now client_id IntentStatus.unknown none none
    reconcile_order now client_id terms now

  -- The submission itself; only a RequestException leads to a reconciliation.
  unfoldable pub submit : ℕ → ℕ → Terms F → Call F S OrderResult
  submit now client_id terms w =
      let (r, w1) = json_request {F = F} {S = S} Endpoint.orders RetryMode.place w in
      elim r [
        | ok p ↦ acknowledge now client_id p w1
        | err e ↦ elim e [
          | Error.request_exception ↦ reconcile_unknown now client_id terms w1
          | failure ↦ (err failure, w1)
        ]
      ]

  unfoldable pub dry_run_order : ℕ → ℕ → Call F S OrderResult
  dry_run_order now client_id = do
    set_intent now client_id IntentStatus.ack none none
    pure (result_of true client_id none OrderState.created)

  unfoldable pub send_order : ℕ → ℕ → Terms F → Call F S OrderResult
  send_order now client_id terms = do
    set_intent now client_id IntentStatus.sent none none
    submit now client_id terms

  unfoldable pub place_order : ℕ → ℕ → Terms F → Option ℕ → SnapshotText F → Call F S OrderResult
  place_order now client_id terms order_db_id snapshot w =
      (do
        claim now client_id terms order_db_id snapshot
        if w.dry_run then dry_run_order now client_id else send_order now client_id terms)
        w

  -- The loop of `_run_reconcile_pending_intents` over the intents that are open.
  unfoldable pub replay : ℕ → List (Intent F) → ReplaySummary → Call F S ReplaySummary
  replay now [] summary w = (ok summary, w)
  replay now (i ∷ is) summary w =
      let terms : Terms F = record {
        ticker = i.ticker;
        side = i.side;
        quantity = i.quantity;
        order_type = i.order_type;
        price = i.price;
        stop_price = i.stop_price;
      } in
      let (r, w1) = reconcile_order now i.client_id terms i.created_at w in
      let tried = record summary { attempted = summary.attempted + 1 } in
      elim (outcome_of r) [
        | some true ↦ replay now is (record tried { resolved = tried.resolved + 1 }) w1
        | some false ↦ replay now is (record tried { unknown = tried.unknown + 1 }) w1
        | none ↦ (err Error.other, w1)
      ]

  -- `_run_reconcile_pending_intents`
  unfoldable pub run_reconcile_pending_intents : ℕ → Call F S ReplaySummary
  run_reconcile_pending_intents now w = elim w.order_intents [
    | none ↦ (ok nothing_done, w)
    | some t ↦ replay now (list_reconcilable t) nothing_done w
  ]
