-- ===== src/Execution/Intents/Locks.antt =====
-- The lock that an intent holds on its ticker (db/repositories/order_intents_repository.py).
use bist_bot.Common.{
  ℕ, ◌≡◌, refl, ◌∙◌, ◌⊎◌, inl, inr, Bool, true, false, Option, none, some, List, [], ◌∷◌, arith,
  Bool-cases, any, ◌==◌, ◌&&◌, ◌||◌, not, or_else, is_some, if◌then◌else◌,
}
use bist_bot.Execution.Order.{OrderType, OrderSide}
use bist_bot.Execution.Intents.{
  Intent, Intents, IntentStatus, SnapshotText, holds_value, has_client, has_client_in, has_key,
  is_final, create, amend, select, written, update, update_conditional, get, get_unresolved, latest,
}
use bist_bot.Execution.Intents.Unique.{IsUnique, any-append_one}

module _ {F : Type 0} where
  -- Some intent holds the lock of the ticker.
  abbrev pub is_locked : ℕ → Intents F → Bool
  is_locked k t = any (has_key k) t.rows

  is_some-latest : (p : Intent F → Bool) (rs : List (Intent F)) → is_some (latest p rs) ≡ any p rs
  unfolding latest
  is_some-latest p [] = refl
  is_some-latest p (r ∷ rs) = ground (arith, is_some-latest p rs)

  -- `get_unresolved` finds an intent exactly where the ticker is locked.
  pub is_some-get_unresolved :
      (k : ℕ) (t : Intents F) → is_some (get_unresolved k t) ≡ is_locked k t
  unfolding get_unresolved
  is_some-get_unresolved k t = is_some-latest (has_key k) t.rows

  -- A change of no row, since no row has the client id.
  amend_absent :
      (c : ℕ) (p : Intent F → Bool) (f : Intent F → Intent F) (rs : List (Intent F))
      → ((r : Intent F) → has_client c r ≡ false → p r ≡ false)
      → any (has_client c) rs ≡ false
      → amend p f rs ≡ rs
  unfolding amend
  amend_absent c p f [] only h = refl
  amend_absent c p f (r ∷ rs) only h =
      rw (only r (ground arith), amend_absent c p f rs only (ground arith))

  amend_cas :
      (c : ℕ) (expected : IntentStatus → Bool) (f : Intent F → Intent F) (rs : List (Intent F))
      (r : Intent F)
      → IsUnique rs
      → select (has_client c) rs ≡ some r
      → amend (has_client_in c expected) f rs
        ≡ (if expected r.status then amend (has_client c) f rs else rs)
  unfolding amend select
  amend_cas c expected f [] r u e = absurd (ground arith)
  amend_cas c expected f (s ∷ rs) r u e = elim (Bool-cases (s.client_id == c)) [
    | inr other ↦ rw other (ground (arith, amend_cas c expected f rs r u.1 (ground arith)))
    | inl same ↦
        let it : s ≡ r = ground arith in
        let alone : any (has_client c) rs ≡ false = ground (arith, u.0.0) in
        let gone = amend_absent c (has_client_in c expected) f rs (λ x h. ground arith) alone in
        rw (← it, same) (ground (arith, gone))
  ]

  -- The compare-and-set is a plain update where the intent has an expected status, and leaves the
  -- table where it has not.
  pub update_conditional_lem :
      (now c : ℕ) (status : IntentStatus) (expected : IntentStatus → Bool) (broker : Option ℕ)
      (release : Option Bool) (t : Intents F) {r : Intent F}
      → IsUnique t.rows
      → get c t ≡ some r
      → update_conditional now c status expected broker release t
        ≡ (if expected r.status then update now c status broker release t else t)
  unfolding update_conditional update get
  update_conditional_lem now c status expected broker release t {r} u e =
      let same = amend_cas c expected (written now status broker release) t.rows r u e in
      elim (Bool-cases (expected r.status)) [
        | inl hit ↦ rw (same, hit)
        | inr miss ↦ rw (same, miss)
      ]

  any-of_select :
      (p q : Intent F → Bool) (rs : List (Intent F)) (r : Intent F)
      → select p rs ≡ some r
      → q r ≡ true
      → any q rs ≡ true
  unfolding select
  any-of_select p q [] r e h = absurd (ground arith)
  any-of_select p q (s ∷ rs) r e h = elim (Bool-cases (p s)) [
    | inl first ↦ let it : s ≡ r = ground arith in rw (it, h) refl
    | inr other ↦ ground (arith, any-of_select p q rs r (ground arith) h)
  ]

  any-amend :
      (c k : ℕ) (f : Intent F → Intent F) (rs : List (Intent F)) (r : Intent F)
      → IsUnique rs
      → select (has_client c) rs ≡ some r
      → ((x : Intent F) → ((f x).active_key ≡ x.active_key) ⊎ ((f x).active_key ≡ none))
      → any (has_key k) (amend (has_client c) f rs)
        ≡ (if holds_value r.active_key k then has_key k (f r) else any (has_key k) rs)
  unfolding amend select
  any-amend c k f [] r u e tame = absurd (ground arith)
  any-amend c k f (s ∷ rs) r u e tame = elim (Bool-cases (s.client_id == c)) [
    | inl same ↦ let it : s ≡ r = ground arith in rw (← it, same) (ground (arith, u.0, tame s))
    | inr other ↦
        let here : select (has_client c) rs ≡ some r = ground arith in
        rw other (
          ground (
            arith,
            u.0,
            any-amend c k f rs r u.1 here tame,
            any-of_select (has_client c) (has_key k) rs r here,
          ))
  ]

  written-active_key :
      (now : ℕ) (status : IntentStatus) (broker : Option ℕ) (release : Option Bool) (x : Intent F)
      → ((written now status broker release x).active_key ≡ x.active_key)
        ⊎ ((written now status broker release x).active_key ≡ none)
  unfolding written
  written-active_key now status broker release x = ground arith

  -- An update of an intent that holds the lock of a ticker releases that lock exactly when it is
  -- told to or, if it is told nothing, when the new status is ack or rejected; the locks of other
  -- tickers stay as they are.
  pub update-locks :
      (now c k : ℕ) (status : IntentStatus) (broker : Option ℕ) (release : Option Bool)
      (t : Intents F) (r : Intent F)
      → IsUnique t.rows
      → get c t ≡ some r
      → is_locked k (update now c status broker release t) ≡ (
          if holds_value r.active_key k
          then not (or_else release (is_final status))
          else is_locked k t)
  unfolding update get
  update-locks now c k status broker release t r u e =
      let f = written now status broker release in
      any-amend c k f t.rows r u e (written-active_key now status broker release)
      ∙ (unfold written in ground arith)

  -- An intent can be created exactly where its client id is new and its ticker is not locked, and
  -- afterwards the ticker is locked, unless it was not and the client id was taken.
  pub create-locks :
      (now c k : ℕ) (side : OrderSide) (q : F) (type : OrderType) (price stop : Option F)
      (db : Option ℕ) (snapshot : SnapshotText F) (t : Intents F)
      → let created = create now c k side q type price stop db snapshot t in
        (is_some created ≡ (not (any (has_client c) t.rows) && not (is_locked k t)))
        × (is_locked k (or_else created t) ≡ (is_locked k t || not (any (has_client c) t.rows)))
  unfolding create
  create-locks now c k side q type price stop db snapshot t =
      elim (Bool-cases (any (has_client c) t.rows || any (has_key k) t.rows)) [
        | inl e ↦ rw e (ground arith, ground arith)
        | inr e ↦ rw (e, any-append_one) (ground arith, ground arith)
      ]

  any_key-amend :
      (k : ℕ) (p : Intent F → Bool) (f : Intent F → Intent F) (rs : List (Intent F))
      → ((x : Intent F) → (f x).active_key ≡ x.active_key)
      → any (has_key k) (amend p f rs) ≡ any (has_key k) rs
  unfolding amend
  any_key-amend k p f [] same = refl
  any_key-amend k p f (r ∷ rs) same = ground (arith, same r, any_key-amend k p f rs same)

  -- An update that keeps the lock keeps all of them.
  pub update-keeps :
      (now c k : ℕ) (status : IntentStatus) (broker : Option ℕ) (release : Option Bool)
      (t : Intents F)
      → or_else release (is_final status) ≡ false
      → is_locked k (update now c status broker release t) ≡ is_locked k t
  unfolding update written
  update-keeps now c k status broker release t h = any_key-amend k _ _ t.rows λ x. rw h refl

  pub update_conditional-keeps :
      (now c k : ℕ) (status : IntentStatus) (expected : IntentStatus → Bool) (broker : Option ℕ)
      (t : Intents F)
      → is_locked k (update_conditional now c status expected broker (some false) t) ≡ is_locked k t
  unfolding update_conditional written
  update_conditional-keeps now c k status expected broker t = any_key-amend k _ _ t.rows λ x. refl
