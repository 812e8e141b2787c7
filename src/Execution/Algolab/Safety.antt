-- ===== src/Execution/Algolab/Safety.antt =====
-- The lock of a ticker through `_reconcile_order` of execution/algolab_broker.py.
use bist_bot.Common.{
  ℕ, ◌≡◌, refl, ◌⊎◌, inr, true, false, Option, none, some, List, [], ◌∷◌, arith, is_some, ◌&&◌,
  ◌||◌, not, if◌then◌else◌, or_else,
}
use bist_bot.Common.Floats.{Floats, nought}
use bist_bot.Execution.Raises.{Error, ◌>>=◌, ◌>>◌}
use bist_bot.Execution.Order.{Order, is_dropped, is_filled}
use bist_bot.Execution.Intents.{IntentStatus}
use bist_bot.Execution.Algolab.{AlgoLabBroker, Terms}
use bist_bot.Execution.Algolab.Http.{history}
use bist_bot.Execution.Algolab.Match.{
  is_invalid, is_sound, is_live, trading_days, validate_history_fill, matches_of,
}
use bist_bot.Execution.Algolab.Reconcile.{
  broker_id, set_intent, keep_reconcile_unknown, try_cancel_remainder, settle_matched_fill,
  reread_order, confirm_dropped, settle_reread_empty, settle_empty, settle_reread_filled,
  settle_match, settle_matches, unknown_history, reconcile_order,
}
use bist_bot.Execution.Algolab.Spares.{history-Spares}
use bist_bot.Execution.Algolab.Keeps.{
  is_refused, locks, Keeps, Guards, Spares-Keeps, Keeps-Guards, >>=-Keeps, >>=-Guards,
  set_intent-Keeps, ite-Guards, ite_at-Guards, option_at-Guards, caught-Guards, pure-Keeps,
  raise-Keeps, keep_reconcile_unknown-Guards, try_cancel_remainder-Keeps, settle_matched_fill-Keeps,
}

module _ {F S : Type 0} ⦃fl : Floats F⦄ where
  open fl use {le}

  unknown_history-Guards : (k now c : ℕ) → Guards k (unknown_history {F = F} {S = S} now c)
  unfolding unknown_history
  unknown_history-Guards k now c = Keeps-Guards (
      >>=-Keeps (set_intent-Keeps k now c IntentStatus.unknown none none refl)
        λ _. raise-Keeps k Error.runtime_error)

  confirm_dropped-Guards :
      (k now c : ℕ) (o : Order F) (id : Option ℕ)
      → Guards k (confirm_dropped {F = F} {S = S} now c o id)
  unfolding confirm_dropped set_intent
  confirm_dropped-Guards k now c o id = record { guards = λ w. inr refl }

  reread_order-Keeps : (k id : ℕ) (ds : List ℕ) → Keeps k (reread_order {F = F} {S = S} id ds)
  unfolding reread_order
  reread_order-Keeps k id ds = record {
    keeps = λ w. ground (arith, (Spares-Keeps k (history-Spares {F = F} {S = S} ds)).keeps w);
  }

  settle_reread_empty-Guards :
      (k now c : ℕ) (terms : Terms F) (id : Option ℕ) (fresh : Option (Order F))
      → Guards k (settle_reread_empty {S = S} now c terms id fresh)
  unfolding settle_reread_empty
  settle_reread_empty-Guards k now c terms id none = keep_reconcile_unknown-Guards k now c
  settle_reread_empty-Guards k now c terms id (some fresh) =
      ite-Guards _ (keep_reconcile_unknown-Guards k now c) (
        ite-Guards _ (Keeps-Guards (settle_matched_fill-Keeps k now c fresh _ _)) (
          ite-Guards _ (confirm_dropped-Guards k now c fresh _)
            (keep_reconcile_unknown-Guards k now c)))

  settle_reread_filled-Guards :
      (k now c : ℕ) (terms : Terms F) (fresh : Option (Order F))
      → Guards k (settle_reread_filled {S = S} now c terms fresh)
  unfolding settle_reread_filled
  settle_reread_filled-Guards k now c terms none = keep_reconcile_unknown-Guards k now c
  settle_reread_filled-Guards k now c terms (some fresh) =
      let fill =
        validate_history_fill fresh.filled_quantity fresh.average_fill_price terms.quantity
          fresh.state in
      let settled : Keeps {F = F} {S = S} k
          (settle_matched_fill now c fresh fill.filled fill.average) =
        settle_matched_fill-Keeps k now c fresh fill.filled fill.average in
      ite-Guards (is_invalid fill.problem) (keep_reconcile_unknown-Guards k now c) (
        ite-Guards (le fill.filled nought) (keep_reconcile_unknown-Guards k now c) (
          ite-Guards (is_live fresh.state || (is_filled fresh.state && not (is_sound fill.problem)))
            (Keeps-Guards (
              >>=-Keeps settled λ result.
                >>=-Keeps
                  (set_intent-Keeps k now c IntentStatus.ack_unaccounted none (some false) refl)
                  λ _. pure-Keeps k result))
            (Keeps-Guards settled)))

  cancelled_empty-Guards :
      (k now c : ℕ) (terms : Terms F) (ds : List ℕ) (o : Order F) (id : ℕ)
      → Guards {F = F} {S = S} k (λ w.
        if w.cancel_remainder
        then (do
          try_cancel_remainder
          fresh ← reread_order id ds
          settle_reread_empty now c terms (broker_id o) fresh)
            w
        else keep_reconcile_unknown now c w)
  cancelled_empty-Guards k now c terms ds o id = record {
    guards = λ w.
        ite_at-Guards w.cancel_remainder
          (>>=-Guards (try_cancel_remainder-Keeps k) λ _.
            >>=-Guards (reread_order-Keeps k id ds)
              λ fresh. settle_reread_empty-Guards k now c terms (broker_id o) fresh)
          (keep_reconcile_unknown-Guards k now c) w;
  }

  settle_empty-Guards :
      (k now c : ℕ) (terms : Terms F) (ds : List ℕ) (o : Order F)
      → Guards k (settle_empty {S = S} now c terms ds o)
  unfolding settle_empty
  settle_empty-Guards k now c terms ds o = record {
    guards =
        ite_at-Guards (is_dropped o.state) (confirm_dropped-Guards k now c o (broker_id o))
          (record {
            guards =
                option_at-Guards o.broker_order_id (keep_reconcile_unknown-Guards k now c)
                  (cancelled_empty-Guards k now c terms ds o);
          });
  }

  settle_match-Guards :
      (k now c : ℕ) (terms : Terms F) (ds : List ℕ) (o : Order F)
      → Guards k (settle_match {S = S} now c terms ds o)
  unfolding settle_match
  settle_match-Guards k now c terms ds o =
      let fill =
        validate_history_fill o.filled_quantity o.average_fill_price terms.quantity o.state in
      let open_still = is_live o.state || (is_filled o.state && not (is_sound fill.problem)) in
      let last : Guards {F = F} {S = S} k (λ w.
        if w.cancel_remainder && (open_still && is_some o.broker_order_id)
        then (do
          try_cancel_remainder
          fresh ← reread_order (or_else o.broker_order_id 0) ds
          settle_reread_filled now c terms fresh)
            w
        else settle_matched_fill now c o fill.filled fill.average w) =
        record {
          guards = λ w.
              ite_at-Guards (w.cancel_remainder && (open_still && is_some o.broker_order_id))
                (>>=-Guards (try_cancel_remainder-Keeps k) λ _.
                  >>=-Guards (reread_order-Keeps k (or_else o.broker_order_id 0) ds)
                    λ fresh. settle_reread_filled-Guards k now c terms fresh)
                (Keeps-Guards (settle_matched_fill-Keeps k now c o fill.filled fill.average)) w;
        } in
      record {
        guards =
            ite_at-Guards (not o.state_known || is_invalid fill.problem)
              (keep_reconcile_unknown-Guards k now c)
              (record {
                guards =
                    ite_at-Guards (le fill.filled nought) (settle_empty-Guards k now c terms ds o)
                      last;
              });
      }

  settle_matches-Guards :
      (k now c : ℕ) (terms : Terms F) (ds : List ℕ) (os : List (Order F))
      → Guards k (settle_matches {S = S} now c terms ds os)
  unfolding settle_matches
  settle_matches-Guards k now c terms ds [] = keep_reconcile_unknown-Guards k now c
  settle_matches-Guards k now c terms ds (o ∷ []) = settle_match-Guards k now c terms ds o
  settle_matches-Guards k now c terms ds (o ∷ p ∷ os) = Keeps-Guards (
      >>=-Keeps (set_intent-Keeps k now c IntentStatus.unknown none none refl)
        λ _. raise-Keeps k Error.runtime_error)

  pub reconcile_order-Guards :
      (k now c : ℕ) (terms : Terms F) (submitted : ℕ)
      → Guards k (reconcile_order {S = S} now c terms submitted)
  unfolding reconcile_order
  reconcile_order-Guards k now c terms submitted = record {
    guards = λ w.
        let days = trading_days w.reconcile_window_seconds submitted in
        let read = history {F = F} {S = S} days w in
        caught-Guards read.0 read.1 w
          ((Spares-Keeps k (history-Spares {F = F} {S = S} days)).keeps w)
          (unknown_history-Guards k now c)
          λ orders. settle_matches-Guards k now c terms days (
            matches_of read.1.send_client_id w.reconcile_window_seconds submitted terms c
              read.1.order_intents orders);
  }

  -- Reconciling an order of unknown outcome leaves every ticker as locked as it was, unless its
  -- result is that the order was not accepted; this holds for every answer of the venue and of the
  -- accounting service.
  pub reconcile_order-locks :
      (k now c : ℕ) (terms : Terms F) (submitted : ℕ) (w : AlgoLabBroker F S)
      → let after = reconcile_order now c terms submitted w in
        (locks k after.1 ≡ locks k w) ⊎ (is_refused after.0 ≡ true)
  reconcile_order-locks k now c terms submitted =
      (reconcile_order-Guards k now c terms submitted).guards
