-- ===== src/Execution/Algolab/Keeps.antt =====
-- The lock of a ticker across the smaller calls of execution/algolab_broker.py.
use bist_bot.Common.{
  ℕ, ◌≡◌, refl, ◌∙◌, ◌⊎◌, inl, inr, Bool, true, false, Option, none, some, Option-cases, not,
  if◌then◌else◌, or_else,
}
use bist_bot.Execution.Raises.{Error, Result, ok, err, pure, raise, modify, ◌>>=◌}
use bist_bot.Execution.Order.{Order, OrderResult, OrderState}
use bist_bot.Execution.Intents.{Intents, IntentStatus, is_open, update_conditional, is_final}
use bist_bot.Execution.Intents.Locks.{is_locked, update-keeps, update_conditional-keeps}
use bist_bot.Execution.Algolab.{AlgoLabBroker, Endpoint}
use bist_bot.Execution.Algolab.Http.{Call, RetryMode}
use bist_bot.Execution.Algolab.Reconcile.{
  result_of, broker_id, with_intents, set_intent, keep_reconcile_unknown, try_cancel_remainder,
  account, settle_matched_fill,
}
use bist_bot.Execution.Algolab.Spares.{Spares, request-Spares}

-- A result that says the order was not accepted.
abbrev pub is_refused : Result OrderResult → Bool
is_refused (ok r) = not r.accepted
is_refused (err _) = false

-- Whether a table, if there is one, locks the ticker.
abbrev pub table_locks : {F : Type 0} → ℕ → Option (Intents F) → Bool
table_locks k none = false
table_locks k (some t) = is_locked k t

module _ {F S : Type 0} where
  -- The broker's table locks the ticker.
  abbrev pub locks : ℕ → AlgoLabBroker F S → Bool
  locks k w = table_locks k w.order_intents

  -- The call leaves the ticker as locked as it was.
  pub record Keeps (k : ℕ) {A : Type 0} (m : Call F S A) : Type 0 where
    pub keeps : (w : AlgoLabBroker F S) → locks k (m w).1 ≡ locks k w

  -- It does, or its result is a refusal.
  pub record Guards (k : ℕ) (m : Call F S OrderResult) : Type 0 where
    pub guards :
        (w : AlgoLabBroker F S) → (locks k (m w).1 ≡ locks k w) ⊎ (is_refused (m w).0 ≡ true)

  pub Spares-Keeps : (k : ℕ) {A : Type 0} {m : Call F S A} → Spares m → Keeps k m
  Spares-Keeps k s = record { keeps = λ w. rw (s.leaves w) refl }

  pub Keeps-Guards : {k : ℕ} {m : Call F S OrderResult} → Keeps k m → Guards k m
  Keeps-Guards h = record { guards = λ w. inl (h.keeps w) }

  pub branch-Keeps :
      {k : ℕ} {A B : Type 0} (r : Result A) (w : AlgoLabBroker F S) (f : A → Call F S B)
      → ((a : A) → Keeps k (f a))
      → locks k (((λ (_ : AlgoLabBroker F S). (r, w)) >>= f) w).1 ≡ locks k w
  branch-Keeps (ok a) w f h = (h a).keeps w
  branch-Keeps (err e) w f h = refl

  pub >>=-Keeps :
      {k : ℕ} {A B : Type 0} {m : Call F S A} {f : A → Call F S B}
      → Keeps k m
      → ((a : A) → Keeps k (f a))
      → Keeps k (m >>= f)
  >>=-Keeps {m = m} {f = f} h g = record {
    keeps = λ w. branch-Keeps (m w).0 (m w).1 f g ∙ h.keeps w;
  }

  pub branch-Guards :
      {k : ℕ} {A : Type 0} (r : Result A) (w v : AlgoLabBroker F S) (f : A → Call F S OrderResult)
      → ((a : A) → Guards k (f a))
      → locks k w ≡ locks k v
      → let after = ((λ (_ : AlgoLabBroker F S). (r, w)) >>= f) w in
        (locks k after.1 ≡ locks k v) ⊎ (is_refused after.0 ≡ true)
  branch-Guards (ok a) w v f h e = elim ((h a).guards w) [
    | inl same ↦ inl (same ∙ e)
    | inr refusal ↦ inr refusal
  ]
  branch-Guards (err x) w v f h e = inl e

  pub >>=-Guards :
      {k : ℕ} {A : Type 0} {m : Call F S A} {f : A → Call F S OrderResult}
      → Keeps k m
      → ((a : A) → Guards k (f a))
      → Guards k (m >>= f)
  >>=-Guards {m = m} {f = f} h g = record {
    guards = λ w. branch-Guards (m w).0 (m w).1 w f g (h.keeps w);
  }

  pub set_intent-Keeps :
      (k now c : ℕ) (status : IntentStatus) (broker : Option ℕ) (release : Option Bool)
      → or_else release (is_final status) ≡ false
      → Keeps k (set_intent {F = F} {S = S} now c status broker release)
  unfolding set_intent
  set_intent-Keeps k now c status broker release h = record {
    keeps = λ w. elim (Option-cases w.order_intents) [
      | inl e ↦ rw (e) refl
      | inr (t, e) ↦ rw e (update-keeps now c k status broker release t h)
    ];
  }

  pub Locks-lem :
      (k : ℕ) (f : Intents F → Intents F) (w : AlgoLabBroker F S)
      → ((t : Intents F) → is_locked k (f t) ≡ is_locked k t)
      → locks k (with_intents f w) ≡ locks k w
  Locks-lem k f w h = elim (Option-cases w.order_intents) [
    | inl e ↦ rw e refl
    | inr (t, e) ↦ rw e (h t)
  ]

  pub ite_at-Guards :
      {k : ℕ} (b : Bool) {m n : Call F S OrderResult}
      → Guards k m
      → Guards k n
      → (w : AlgoLabBroker F S)
      → let after = if b then m w else n w in
        (locks k after.1 ≡ locks k w) ⊎ (is_refused after.0 ≡ true)
  ite_at-Guards true h g w = h.guards w
  ite_at-Guards false h g w = g.guards w

  pub option_at-Guards :
      {k : ℕ} (o : Option ℕ) {m : Call F S OrderResult} {f : ℕ → Call F S OrderResult}
      → Guards k m
      → ((id : ℕ) → Guards k (f id))
      → (w : AlgoLabBroker F S)
      → let after : Result OrderResult × AlgoLabBroker F S = elim o [
        | none ↦ m w
        | some id ↦ f id w
      ] in
        (locks k after.1 ≡ locks k w) ⊎ (is_refused after.0 ≡ true)
  option_at-Guards none h g w = h.guards w
  option_at-Guards (some id) h g w = (g id).guards w

  pub caught-Guards :
      {k : ℕ} {A : Type 0} (r : Result A) (v w : AlgoLabBroker F S) {m : Call F S OrderResult}
      {f : A → Call F S OrderResult}
      → locks k v ≡ locks k w
      → Guards k m
      → ((a : A) → Guards k (f a))
      → let after : Result OrderResult × AlgoLabBroker F S = elim r [
        | ok a ↦ f a v
        | err e ↦ m v
      ] in
        (locks k after.1 ≡ locks k w) ⊎ (is_refused after.0 ≡ true)
  caught-Guards (ok a) v w e h g = elim ((g a).guards v) [
    | inl same ↦ inl (same ∙ e)
    | inr refusal ↦ inr refusal
  ]
  caught-Guards (err x) v w e h g = elim (h.guards v) [
    | inl same ↦ inl (same ∙ e)
    | inr refusal ↦ inr refusal
  ]

  pub ite-Guards :
      {k : ℕ} (b : Bool) {m n : Call F S OrderResult}
      → Guards k m
      → Guards k n
      → Guards k (if b then m else n)
  ite-Guards true h g = h
  ite-Guards false h g = g

  pub pure-Keeps : (k : ℕ) {A : Type 0} (a : A) → Keeps k (pure {S = AlgoLabBroker F S} a)
  pure-Keeps k a = record { keeps = λ w. refl }

  pub raise-Keeps :
      (k : ℕ) {A : Type 0} (e : Error) → Keeps k (raise {S = AlgoLabBroker F S} {A = A} e)
  raise-Keeps k e = record { keeps = λ w. refl }

  pub keep_reconcile_unknown-Guards :
      (k now c : ℕ) → Guards k (keep_reconcile_unknown {F = F} {S = S} now c)
  unfolding keep_reconcile_unknown
  keep_reconcile_unknown-Guards k now c = Keeps-Guards (
      >>=-Keeps (set_intent-Keeps k now c IntentStatus.unknown none (some false) refl)
        λ _. raise-Keeps k Error.runtime_error)

  pub try_cancel_remainder-Keeps : (k : ℕ) → Keeps k (try_cancel_remainder {F = F} {S = S})
  unfolding try_cancel_remainder
  try_cancel_remainder-Keeps k = record {
    keeps = λ w.
        (Spares-Keeps k
            (request-Spares {F = F} {S = S} Endpoint.cancel_order RetryMode.cancel)).keeps
          w;
  }

  pub account-Keeps :
      (k c : ℕ) (id : Option ℕ) (filled : F) (average : Option F) (state : OrderState)
      → Keeps k (account {F = F} {S = S} c id filled average state)
  unfolding account
  account-Keeps k c id filled average state = record {
    keeps = λ w. elim (Option-cases w.accounting_service) [
      | inl e ↦ rw e refl
      | inr (s, e) ↦ elim (Option-cases w.order_intents) [
        | inl g ↦ rw (e, g) refl
        | inr (t, g) ↦ rw (e, g) refl
      ]
    ];
  }

  pub settle_matched_fill-Keeps :
      (k now c : ℕ) (o : Order F) (filled : F) (average : Option F)
      → Keeps k (settle_matched_fill {F = F} {S = S} now c o filled average)
  unfolding settle_matched_fill
  settle_matched_fill-Keeps k now c o filled average =
      >>=-Keeps (account-Keeps k c (broker_id o) filled average o.state) λ status.
        >>=-Keeps
          {m = modify
            (with_intents (update_conditional now c status is_open (broker_id o) (some false)))}
          (record {
            keeps = λ w.
                Locks-lem k _ w
                  λ t. update_conditional-keeps now c k status is_open (broker_id o) t;
          })
          λ _. pure-Keeps k (result_of true c (broker_id o) o.state)
