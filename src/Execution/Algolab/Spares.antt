-- ===== src/Execution/Algolab/Spares.antt =====
-- The table of intents across the requests of execution/algolab_broker.py.
use bist_bot.Common.{ℕ, refl, List, [], ◌∷◌, arith, ◌++◌, Option}
use bist_bot.Common.Floats.{Floats}
use bist_bot.Execution.Raises.{Error}
use bist_bot.Execution.Intents.{Intents}
use bist_bot.Execution.Algolab.{Endpoint, AlgoLabBroker}
use bist_bot.Execution.Algolab.Http.{
  Call, RetryMode, send, request, json_request, get_daily_orders, history,
}
use bist_bot.Execution.Algolab.Observe.{
  Leaves, >>=-Leaves, json-Leaves, pure-Leaves, request-Leaves,
}

abbrev pub intents_of : {F S : Type 0} → AlgoLabBroker F S → Option (Intents F)
intents_of w = w.order_intents

module _ {F S : Type 0} where
  -- The call leaves the table of intents.
  abbrev pub Spares : {A : Type 0} → Call F S A → Type 0
  Spares m = Leaves intents_of m

  send-Spares : (e : Endpoint) → Spares (send e)
  unfolding send
  send-Spares e = record { leaves = λ w. ground arith }

  pub request-Spares : (e : Endpoint) (mode : RetryMode) → Spares (request e mode)
  request-Spares e mode = request-Leaves intents_of (λ a b w. refl) e mode send-Spares

  pub json_request-Spares : (e : Endpoint) (mode : RetryMode) → Spares (json_request e mode)
  unfolding json_request
  json_request-Spares e mode =
      >>=-Leaves intents_of (request-Spares e mode)
        λ r. json-Leaves intents_of Error.runtime_error r

module _ {F S : Type 0} ⦃fl : Floats F⦄ where
  get_daily_orders-Spares : (d : ℕ) → Spares (get_daily_orders {F = F} {S = S} d)
  unfolding get_daily_orders
  get_daily_orders-Spares d = record {
    leaves = λ w. ground (
      arith,
      (json_request-Spares {F = F} {S = S} Endpoint.order_history RetryMode.by_default).leaves w,
    );
  }

  pub history-Spares : (ds : List ℕ) → Spares (history {F = F} {S = S} ds)
  unfolding history
  history-Spares [] = record { leaves = λ w. refl }
  history-Spares (d ∷ ds) = >>=-Leaves intents_of (get_daily_orders-Spares d) λ first.
      >>=-Leaves intents_of (history-Spares ds) λ rest. pure-Leaves intents_of (first ++ rest)
