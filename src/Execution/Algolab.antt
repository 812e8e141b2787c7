-- ===== src/Execution/Algolab.antt =====
-- src/bist_bot/execution/algolab_broker.py: the class AlgoLabBroker. The venue's answers are the
-- list `replies`, consumed from the front, and every request is logged in `requests`; an exhausted
-- list is a network failure. Waiting (throttle, back-off) and log lines are left out.
pub mod Http
pub mod Match
pub mod Reconcile
pub mod Place
pub mod Observe
pub mod Spares
pub mod Requests
pub mod Keeps
pub mod Safety
pub mod Single
mod Tests
use bist_bot.Common.{ℕ, Bool, Option, List}
use bist_bot.Execution.Order.{OrderType, OrderSide, OrderState, Order}
use bist_bot.Execution.Intents.{Intent, Intents, IntentStatus}

-- A state text in capitals: a state's own name, one of the three aliases, or another text.
pub data StateText : Type 0 where
  named : OrderState → StateText
  executed completed canceled : StateText
  other_text : ℕ → StateText

-- One entry of the venue's order history; a number that is missing is 0.0, and `malformed` says that
-- a side, a type or a number of it cannot be read.
pub record Item (F : Type 0) : Type 0 where
  pub state : Option StateText
  pub ticker : ℕ
  pub side : OrderSide
  pub quantity : F
  pub order_type : OrderType
  pub price : F
  pub stop_price : F
  pub order_id : Option ℕ
  pub client_order_id : Option ℕ
  pub filled_quantity : F
  pub average_fill_price : F
  pub created_at : Option ℕ
  pub malformed : Bool

pub data OrdersField (F : Type 0) : Type 0 where
  missing not_a_list : OrdersField F
  items : List (Item F) → OrdersField F

-- The entries of a JSON object that the code reads.
pub record Payload (F : Type 0) : Type 0 where
  pub accepted : Option Bool
  pub order_id : Option ℕ
  pub client_order_id : Option ℕ
  pub state : Option StateText
  pub cancelled : Option Bool
  pub session_token : Option ℕ
  pub encrypted_session : Option ℕ
  pub orders : OrdersField F

pub data Body (F : Type 0) : Type 0 where
  not_json not_an_object : Body F
  object : Payload F → Body F

pub record Response (F : Type 0) : Type 0 where
  pub status_code : ℕ
  pub body : Body F

-- What one call of `session.request` comes to.
pub data Reply (F : Type 0) : Type 0 where
  failed : Reply F
  answered : Response F → Reply F

-- The endpoints that the modelled calls use.
pub data Endpoint : Type 0 where
  login verify_otp orders cancel_order order_history : Endpoint

-- `AccountingOutcome` of execution/reconcile_accounting.py.
pub record AccountingOutcome : Type 0 where
  pub success : Bool
  pub status : IntentStatus
  pub position_id : Option ℕ

-- The broker's fields; `S` is the state of the accounting service, if there is one.
pub record AlgoLabBroker (F S : Type 0) : Type 0 where
  pub is_configured : Endpoint → Bool
  pub dry_run : Bool
  pub max_retries : ℕ
  pub order_intents : Option (Intents F)
  pub send_client_id : Bool
  pub reconcile_window_seconds : ℕ
  pub accounting_service :
      Option (Option (Intent F) → Option ℕ → F → Option F → OrderState → S → AccountingOutcome × S)
  pub ledger : S
  pub status_map : StateText → Option StateText
  pub cancel_remainder : Bool
  pub session_token : Option ℕ
  pub session_encrypted : Option ℕ
  pub replies : List (Reply F)
  pub requests : List Endpoint

-- The terms of an order, as `place_order` takes them.
pub record Terms (F : Type 0) : Type 0 where
  pub ticker : ℕ
  pub side : OrderSide
  pub quantity : F
  pub order_type : OrderType
  pub price : Option F
  pub stop_price : Option F
