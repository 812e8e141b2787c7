-- ===== src/Execution/Algolab/Single.antt =====
-- The lock of a ticker through `place_order` of execution/algolab_broker.py.
use bist_bot.Common.{
  ℕ, ◌≡◌, refl, ◌∙◌, sym, ◌⊎◌, inl, inr, Bool, true, false, Option, none, some, arith, Bool-cases,
  Option-cases, is_some, if◌then◌else◌, any, or_else,
}
use mathlib.Core.Path.{subst}
use bist_bot.Common.Floats.{Floats}
use bist_bot.Execution.Raises.{Error, Result, ok, err, ◌>>=◌}
use bist_bot.Execution.Order.{OrderResult, OrderState}
use bist_bot.Execution.Intents.{
  Intents, IntentStatus, SnapshotText, has_client, create, get_unresolved,
}
use bist_bot.Execution.Intents.Locks.{is_some-get_unresolved, create-locks}
use bist_bot.Execution.Algolab.{AlgoLabBroker, Terms, Payload, Endpoint, StateText}
use bist_bot.Execution.Algolab.Http.{Call, RetryMode, json_request, parse_state}
use bist_bot.Execution.Algolab.Reconcile.{set_intent}
use bist_bot.Execution.Algolab.Place.{
  claim, acknowledge, reconcile_unknown, submit, dry_run_order, send_order, place_order,
}
use bist_bot.Execution.Algolab.Spares.{json_request-Spares}
use bist_bot.Execution.Algolab.Keeps.{
  is_refused, locks, table_locks, Guards, Spares-Keeps, >>=-Guards, set_intent-Keeps,
}
use bist_bot.Execution.Algolab.Safety.{reconcile_order-Guards}

-- A result, or the ValueError of a state that is not known.
abbrev pub is_settled : Result OrderResult → Bool
is_settled (ok r) = true
is_settled (err Error.value_error) = true
is_settled (err _) = false

is_settled-refused : (r : Result OrderResult) → is_refused r ≡ true → is_settled r ≡ true
is_settled-refused (ok r) h = refl
is_settled-refused (err e) h = absurd (ground arith)

module _ {F S : Type 0} where
  -- The ticker is locked, or the order's outcome is known.
  IsSafe : ℕ → Result OrderResult × AlgoLabBroker F S → Type 0
  IsSafe k after = (locks k after.1 ≡ true) ⊎ (is_settled after.0 ≡ true)

  Guards-IsSafe :
      (k : ℕ) (m : Call F S OrderResult) (w : AlgoLabBroker F S)
      → Guards k m
      → locks k w ≡ true
      → IsSafe k (m w)
  unfolding IsSafe
  Guards-IsSafe k m w h e = elim (h.guards w) [
    | inl same ↦ inl (same ∙ e)
    | inr refusal ↦ inr (is_settled-refused (m w).0 refusal)
  ]

module _ {F S : Type 0} ⦃fl : Floats F⦄ where
  acknowledge-IsSafe :
      (now c k : ℕ) (p : Payload F) (w : AlgoLabBroker F S) → IsSafe k (acknowledge now c p w)
  unfolding IsSafe acknowledge set_intent
  acknowledge-IsSafe now c k p w =
      elim (Option-cases (parse_state (or_else p.state (StateText.named OrderState.sent)))) [
        | inl e ↦ inr (rw e refl)
        | inr (s, e) ↦ inr (rw e refl)
      ]

  reconcile_unknown-IsSafe :
      (now c k : ℕ) (terms : Terms F) (w : AlgoLabBroker F S)
      → locks k w ≡ true
      → IsSafe k (reconcile_unknown now c terms w)
  unfolding reconcile_unknown
  reconcile_unknown-IsSafe now c k terms w = Guards-IsSafe k _ w (
      >>=-Guards (set_intent-Keeps k now c IntentStatus.unknown none none refl)
        λ _. reconcile_order-Guards k now c terms now)

  answered-IsSafe :
      (now c k : ℕ) (terms : Terms F) (r : Result (Payload F)) (w : AlgoLabBroker F S)
      → locks k w ≡ true
      → IsSafe {F = F} {S = S} k (elim r [
        | ok p ↦ acknowledge now c p w
        | err e ↦ elim e [
          | Error.request_exception ↦ reconcile_unknown now c terms w
          | failure ↦ (err failure, w)
        ]
      ])
  answered-IsSafe now c k terms (ok p) w e = acknowledge-IsSafe now c k p w
  answered-IsSafe now c k terms (err Error.request_exception) w e =
      reconcile_unknown-IsSafe now c k terms w e
  answered-IsSafe now c k terms (err Error.runtime_error) w e = unfold IsSafe in inl e
  answered-IsSafe now c k terms (err Error.not_implemented) w e = unfold IsSafe in inl e
  answered-IsSafe now c k terms (err Error.value_error) w e = unfold IsSafe in inl e
  answered-IsSafe now c k terms (err Error.other) w e = unfold IsSafe in inl e

  submit-IsSafe :
      (now c k : ℕ) (terms : Terms F) (w : AlgoLabBroker F S)
      → locks k w ≡ true
      → IsSafe k (submit now c terms w)
  unfolding submit
  submit-IsSafe now c k terms w e =
      let read = json_request {F = F} {S = S} Endpoint.orders RetryMode.place w in
      answered-IsSafe now c k terms read.0 read.1 (
        (Spares-Keeps k (json_request-Spares {F = F} {S = S} Endpoint.orders RetryMode.place)).keeps
          w
        ∙ e)

  send_order-IsSafe :
      (now c k : ℕ) (terms : Terms F) (w : AlgoLabBroker F S)
      → locks k w ≡ true
      → IsSafe k (send_order now c terms w)
  unfolding send_order set_intent
  send_order-IsSafe now c k terms w e =
      let first = set_intent {F = F} {S = S} now c IntentStatus.sent none none in
      submit-IsSafe now c k terms (first w).1
        ((set_intent-Keeps k now c IntentStatus.sent none none refl).keeps w ∙ e)

  claim-locks :
      (now c : ℕ) (terms : Terms F) (db : Option ℕ) (snapshot : SnapshotText F)
      (w : AlgoLabBroker F S) (t : Intents F)
      → w.order_intents ≡ some t
      → any (has_client c) t.rows ≡ false
      → locks terms.ticker (claim now c terms db snapshot w).1 ≡ true
  unfolding claim
  claim-locks now c terms db snapshot w t e fresh =
      let found = is_some-get_unresolved terms.ticker t in
      let made =
        create-locks now c terms.ticker terms.side terms.quantity terms.order_type terms.price
          terms.stop_price db snapshot t in
      elim (Bool-cases (is_some (get_unresolved terms.ticker t))) [
        | inl taken ↦ rw (e, taken) (sym found ∙ taken)
        | inr free ↦
            elim (Option-cases (
              create now c terms.ticker terms.side terms.quantity terms.order_type terms.price
                terms.stop_price db snapshot t)) [
                  | inl g ↦ absurd (ground (arith, found, made, free, fresh, g))
                  | inr (t1, g) ↦ rw (e, free, g) (ground (arith, made, fresh, g))
                ]
      ]

  sent-IsSafe :
      (now c k : ℕ) (terms : Terms F) (r : Result (Unit {0})) (w : AlgoLabBroker F S)
      → locks k w ≡ true
      → IsSafe k (((λ (_ : AlgoLabBroker F S). (r, w)) >>= λ _. send_order now c terms) w)
  sent-IsSafe now c k terms (ok u) w e = send_order-IsSafe now c k terms w e
  sent-IsSafe now c k terms (err x) w e = unfold IsSafe in inl e

  place_order-IsSafe :
      (now c : ℕ) (terms : Terms F) (db : Option ℕ) (snapshot : SnapshotText F)
      (w : AlgoLabBroker F S) (t : Intents F)
      → w.order_intents ≡ some t
      → w.dry_run ≡ false
      → any (has_client c) t.rows ≡ false
      → IsSafe terms.ticker (place_order now c terms db snapshot w)
  unfolding place_order
  place_order-IsSafe now c terms db snapshot w t e dry fresh =
      let first = claim {F = F} {S = S} now c terms db snapshot w in
      subst
        (λ b. IsSafe terms.ticker (
          ((λ (_ : AlgoLabBroker F S). first) >>= λ _.
          if b then dry_run_order now c else send_order now c terms)
            w))
        (sym dry)
        (sent-IsSafe now c terms.ticker terms first.0 first.1
          (claim-locks now c terms db snapshot w t e fresh))

  claim-locked :
      (now c : ℕ) (terms : Terms F) (db : Option ℕ) (snapshot : SnapshotText F)
      (w : AlgoLabBroker F S)
      → locks terms.ticker w ≡ true
      → claim now c terms db snapshot w ≡ (err Error.runtime_error, w)
  unfolding claim
  claim-locked now c terms db snapshot w h = elim (Option-cases w.order_intents) [
    | inl e ↦ absurd (ground (arith, e, h))
    | inr (t, e) ↦
        let taken : is_some (get_unresolved terms.ticker t) ≡ true =
          is_some-get_unresolved terms.ticker t
          ∙ subst (λ o. table_locks terms.ticker o ≡ true) e h in
        rw (e, taken) refl
  ]

  -- A locked ticker takes no order: placing one raises a RuntimeError and changes nothing, so that no
  -- request is sent.
  place_order-locked :
      (now c : ℕ) (terms : Terms F) (db : Option ℕ) (snapshot : SnapshotText F)
      (w : AlgoLabBroker F S)
      → locks terms.ticker w ≡ true
      → place_order now c terms db snapshot w ≡ (err Error.runtime_error, w)
  unfolding place_order
  place_order-locked now c terms db snapshot w h =
      subst
        (λ (first : Result (Unit {0}) × AlgoLabBroker F S).
          (((λ (_ : AlgoLabBroker F S). first) >>= λ _.
          if w.dry_run then dry_run_order now c else send_order now c terms)
            w)
          ≡ (err Error.runtime_error, w))
        (sym (claim-locked now c terms db snapshot w h)) refl

  -- Live, with an intent table and a new client id: if placing an order raises anything but the
  -- ValueError of an unknown state, the outcome is open, and then every further order for that ticker,
  -- under whatever client id, raises a RuntimeError and leaves the broker as it is: no request is sent.
  pub no_second_order :
      (now c : ℕ) (terms : Terms F) (db : Option ℕ) (snapshot : SnapshotText F)
      (w : AlgoLabBroker F S) (t : Intents F) (now2 c2 : ℕ) (terms2 : Terms F) (db2 : Option ℕ)
      (snapshot2 : SnapshotText F)
      → w.order_intents ≡ some t
      → w.dry_run ≡ false
      → any (has_client c) t.rows ≡ false
      → terms2.ticker ≡ terms.ticker
      → is_settled (place_order now c terms db snapshot w).0 ≡ false
      → let after = (place_order now c terms db snapshot w).1 in
        place_order now2 c2 terms2 db2 snapshot2 after ≡ (err Error.runtime_error, after)
  unfolding IsSafe
  no_second_order now c terms db snapshot w t now2 c2 terms2 db2 snapshot2 e dry fresh same
        open_still =
      let after = (place_order now c terms db snapshot w).1 in
      elim (place_order-IsSafe now c terms db snapshot w t e dry fresh) [
        | inl h ↦
            place_order-locked now2 c2 terms2 db2 snapshot2 after
              (subst (λ k. locks k after ≡ true) (sym same) h)
        | inr h ↦ absurd (ground (arith, h, open_still))
      ]
