-- ===== src/Execution/Intents/Tests.antt =====
-- The table of db/repositories/order_intents_repository.py at concrete inputs.
use bist_bot.Common.{◌≡◌, refl, inr, false, none, some, List, [], ◌∷◌}
use bist_bot.Common.Int.{pos}
use bist_bot.Common.Floats.{Fixed}
use bist_bot.Execution.Order.{OrderType, OrderSide}
use bist_bot.Execution.Intents.{
  Intent, Intents, IntentStatus, SnapshotText, is_open, update, update_conditional,
  list_reconcilable, get,
}
use bist_bot.Execution.Intents.Unique.{IsUnique, Write, write_all, write_all-IsUnique}
use bist_bot.Execution.Intents.Locks.{is_locked, update_conditional_lem, update-locks}

abbrev waiting : Intent Fixed
waiting = record {
  id = 1;
  client_id = 100;
  active_key = some 7;
  ticker = 7;
  side = OrderSide.buy;
  quantity = pos 50_000;
  order_type = OrderType.market;
  price = none;
  stop_price = none;
  order_db_id = none;
  signal_snapshot = SnapshotText.absent;
  status = IntentStatus.sent;
  broker_order_id = none;
  created_at = 40;
  updated_at = 41;
}

abbrev older : Intent Fixed
older = record waiting { id = 2; client_id = 101; ticker = 8; active_key = some 8; created_at = 30 }

abbrev table : Intents Fixed
table = record { rows = waiting ∷ older ∷ []; next_id = 3 }

oldest_first : list_reconcilable table ≡ older ∷ waiting ∷ []
unfolding list_reconcilable
oldest_first = refl

table-IsUnique : IsUnique table.rows
table-IsUnique = ((refl, inr (refl, refl)), ((refl, inr (refl, refl)), tt))

abbrev writes : List (Write Fixed)
writes =
    Write.insert_row 50 102 7 OrderSide.buy (pos 1) OrderType.market none none none
      SnapshotText.absent
    ∷ Write.set_row 51 100 IntentStatus.ack none none
    ∷ Write.insert_row 52 102 7 OrderSide.buy (pos 1) OrderType.market none none none
        SnapshotText.absent
    ∷ []

write_all-IsUnique_example : IsUnique (write_all writes table).rows
write_all-IsUnique_example = write_all-IsUnique {F = Fixed} writes table table-IsUnique

update_conditional_lem_example :
    update_conditional 60 100 IntentStatus.ack is_open (some 9) (some false) table
    ≡ update 60 100 IntentStatus.ack (some 9) (some false) table
unfolding get
update_conditional_lem_example =
    update_conditional_lem {F = Fixed} 60 100 IntentStatus.ack is_open (some 9) (some false) table
      table-IsUnique refl

update-locks_example : is_locked 7 (update 60 100 IntentStatus.ack none none table) ≡ false
unfolding get
update-locks_example =
    update-locks {F = Fixed} 60 100 7 IntentStatus.ack none none table waiting table-IsUnique refl
