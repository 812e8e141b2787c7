-- ===== src/Execution/Intents.antt =====
-- src/bist_bot/db/repositories/order_intents_repository.py: the table of order intents, with the
-- unique columns that src/bist_bot/db/database.py declares. A row's free text `detail` is left out.
pub mod Unique
pub mod Locks
mod Tests
use bist_bot.Common.{
  ℕ, ◌+◌, Bool, true, false, Option, none, some, List, [], ◌∷◌, ◌++◌, if◌then◌else◌, ◌==◌, ltb, leb,
  is_some, ◌&&◌, ◌||◌, not, any, keep, length, or_else,
}
use bist_bot.Execution.Order.{OrderType, OrderSide}

pub data IntentStatus : Type 0 where
  pending sent ack ack_unaccounted unknown rejected : IntentStatus

-- The JSON text `signal_snapshot`: absent, not readable, or the entries that the code reads.
pub data SnapshotText (F : Type 0) : Type 0 where
  absent unreadable : SnapshotText F
  levels : Option F → Option F → SnapshotText F

pub record Intent (F : Type 0) : Type 0 where
  pub id : ℕ
  pub client_id : ℕ
  pub active_key : Option ℕ
  pub ticker : ℕ
  pub side : OrderSide
  pub quantity : F
  pub order_type : OrderType
  pub price : Option F
  pub stop_price : Option F
  pub order_db_id : Option ℕ
  pub signal_snapshot : SnapshotText F
  pub status : IntentStatus
  pub broker_order_id : Option ℕ
  pub created_at : ℕ
  pub updated_at : ℕ

-- The rows in order of insertion, and the next value of the primary key.
pub record Intents (F : Type 0) : Type 0 where
  pub rows : List (Intent F)
  pub next_id : ℕ

-- `column == value`, where SQL's NULL equals nothing.
abbrev pub holds_value : Option ℕ → ℕ → Bool
holds_value none k = false
holds_value (some j) k = j == k

-- `status in ("pending", "sent", "unknown")`
abbrev pub is_open : IntentStatus → Bool
is_open IntentStatus.pending = true
is_open IntentStatus.sent = true
is_open IntentStatus.unknown = true
is_open _ = false

abbrev pub is_unaccounted : IntentStatus → Bool
is_unaccounted IntentStatus.ack_unaccounted = true
is_unaccounted _ = false

-- `normalized in {"ack", "rejected"}`
abbrev pub is_final : IntentStatus → Bool
is_final IntentStatus.ack = true
is_final IntentStatus.rejected = true
is_final _ = false

module _ {F : Type 0} where
  abbrev pub has_client : ℕ → Intent F → Bool
  has_client client_id r = r.client_id == client_id

  abbrev pub has_key : ℕ → Intent F → Bool
  has_key ticker r = holds_value r.active_key ticker

  -- `create`; `none` is the IntegrityError of a unique column.
  unfoldable pub create :
      ℕ
      → ℕ
      → ℕ
      → OrderSide
      → F
      → OrderType
      → Option F
      → Option F
      → Option ℕ
      → SnapshotText F
      → Intents F
      → Option (Intents F)
  create now client_id ticker side quantity order_type price stop_price order_db_id snapshot t =
      if any (has_client client_id) t.rows || any (has_key ticker) t.rows
      then none
      else some (record {
        rows =
            t.rows
            ++ (record {
              id = t.next_id;
              client_id = client_id;
              active_key = some ticker;
              ticker = ticker;
              side = side;
              quantity = quantity;
              order_type = order_type;
              price = price;
              stop_price = stop_price;
              order_db_id = order_db_id;
              signal_snapshot = snapshot;
              status = IntentStatus.pending;
              broker_order_id = none;
              created_at = now;
              updated_at = now;
            }
                ∷ []);
        next_id = t.next_id + 1;
      })

  -- The first row that a test selects, changed; there is at most one, since client ids are unique.
  pub amend : (Intent F → Bool) → (Intent F → Intent F) → List (Intent F) → List (Intent F)
  amend p f [] = []
  amend p f (r ∷ rs) = if p r then f r ∷ rs else r ∷ amend p f rs

  pub select : (Intent F → Bool) → List (Intent F) → Option (Intent F)
  select p [] = none
  select p (r ∷ rs) = if p r then some r else select p rs

  -- What `_write` does to the row: the status, the lock, the broker's id and the time.
  pub written : ℕ → IntentStatus → Option ℕ → Option Bool → Intent F → Intent F
  written now status broker_order_id release_lock r = record r {
    status = status;
    active_key = if or_else release_lock (is_final status) then none else r.active_key;
    broker_order_id = if is_some broker_order_id then broker_order_id else r.broker_order_id;
    updated_at = now;
  }

  unfoldable pub update : ℕ → ℕ → IntentStatus → Option ℕ → Option Bool → Intents F → Intents F
  unfolding amend written
  update now client_id status broker_order_id release_lock t = record t {
    rows = amend (has_client client_id) (written now status broker_order_id release_lock) t.rows;
  }

  -- The test that the WHERE clause of the compare-and-set makes.
  abbrev pub has_client_in : ℕ → (IntentStatus → Bool) → Intent F → Bool
  has_client_in client_id expected r = has_client client_id r && expected r.status

  -- `expected` is the test for membership of `expected_statuses`.
  unfoldable pub update_conditional :
      ℕ → ℕ → IntentStatus → (IntentStatus → Bool) → Option ℕ → Option Bool → Intents F → Intents F
  unfolding amend written
  update_conditional now client_id status expected broker_order_id release_lock t = record t {
    rows =
        amend (has_client_in client_id expected) (written now status broker_order_id release_lock)
          t.rows;
  }

  unfoldable pub get : ℕ → Intents F → Option (Intent F)
  unfolding select
  get client_id t = select (has_client client_id) t.rows

  -- The later of two rows by `updated_at`.
  later : Intent F → Option (Intent F) → Intent F
  later r none = r
  later r (some s) = if ltb r.updated_at s.updated_at then s else r

  latest : (Intent F → Bool) → List (Intent F) → Option (Intent F)
  unfolding later
  latest p [] = none
  latest p (r ∷ rs) = if p r then some (later r (latest p rs)) else latest p rs

  unfoldable pub get_unresolved : ℕ → Intents F → Option (Intent F)
  unfolding latest
  get_unresolved ticker t = latest (has_key ticker) t.rows

  insert_by_age : Intent F → List (Intent F) → List (Intent F)
  insert_by_age r [] = r ∷ []
  insert_by_age r (s ∷ ss) =
      if leb r.created_at s.created_at then r ∷ s ∷ ss else s ∷ insert_by_age r ss

  -- `ORDER BY created_at ASC`
  sort_by_age : List (Intent F) → List (Intent F)
  unfolding insert_by_age
  sort_by_age [] = []
  sort_by_age (r ∷ rs) = insert_by_age r (sort_by_age rs)

  unfoldable pub list_reconcilable : Intents F → List (Intent F)
  unfolding sort_by_age
  list_reconcilable t = sort_by_age (keep (λ r. is_some r.active_key && is_open r.status) t.rows)

  unfoldable pub count_unaccounted_open : Intents F → ℕ
  count_unaccounted_open t =
      length (keep (λ r. is_unaccounted r.status && is_some r.active_key) t.rows)

  unfoldable pub is_broker_order_bound : ℕ → ℕ → Intents F → Bool
  is_broker_order_bound broker_order_id exclude_client_id t =
      any
        (λ r.
          holds_value r.broker_order_id broker_order_id && not (r.client_id == exclude_client_id))
        t.rows
