-- ===== src/Execution/Algolab/Requests.antt =====
-- How often an order is posted (`_request` of execution/algolab_broker.py in the mode for orders).
use bist_bot.Common.{
  ℕ, suc, ◌+◌, ◌≤◌, ◌≡◌, refl, ◌⊎◌, inl, inr, Bool, true, false, none, List, [], ◌∷◌, ◌++◌, arith,
  Bool-cases, leb, ◌==◌,
}
use bist_bot.Execution.Raises.{Error, Result, ok, err, ◌>>=◌}
use bist_bot.Execution.Algolab.{Response, Endpoint, AlgoLabBroker}
use bist_bot.Execution.Algolab.Http.{
  with_tokens, RetryMode, Verdict, judge, send, request_loop, attempts, json, authenticate,
  authorised, request, json_request,
}
use bist_bot.Execution.Algolab.Observe.{authenticate-Leaves}

-- The posts of an order among the requests.
abbrev pub posts : List Endpoint → ℕ
posts [] = 0
posts (Endpoint.orders ∷ es) = suc (posts es)
posts (e ∷ es) = posts es

-- The venue answered that the token is not valid.
abbrev pub is_unauthorised : {F : Type 0} → Result (Response F) → Bool
is_unauthorised (ok r) = r.status_code == 401
is_unauthorised (err _) = false

posts-append : (es ds : List Endpoint) → posts (es ++ ds) ≡ posts es + posts ds
posts-append [] ds = ground arith
posts-append (Endpoint.orders ∷ es) ds = ground (arith, posts-append es ds)
posts-append (Endpoint.login ∷ es) ds = ground (arith, posts-append es ds)
posts-append (Endpoint.verify_otp ∷ es) ds = ground (arith, posts-append es ds)
posts-append (Endpoint.cancel_order ∷ es) ds = ground (arith, posts-append es ds)
posts-append (Endpoint.order_history ∷ es) ds = ground (arith, posts-append es ds)

-- In the mode for orders the loop goes on only after a token that was refused at first.
judge-place :
    {F : Type 0} (first : Bool) (r : Result (Response F))
    → ((a : Response F) × (judge RetryMode.place true first r ≡ Verdict.finish a))
      ⊎ ((e : Error) × (judge RetryMode.place true first r ≡ Verdict.fail e))
      ⊎ ((judge RetryMode.place true first r ≡ Verdict.stale)
          × (first ≡ true)
          × (is_unauthorised r ≡ true))
unfolding judge
judge-place first (err e) = inr (inl (e, ground arith))
judge-place first (ok r) = elim (Bool-cases (r.status_code == 401)) [
  | inl e ↦ elim (Bool-cases first) [
    | inl f ↦ inr (inr (rw (e, f) refl, f, e))
    | inr f ↦ elim (Bool-cases (leb 400 r.status_code)) [
      | inl g ↦ inr (inl (Error.request_exception, rw (e, f, g) refl))
      | inr g ↦ inl (r, rw (e, f, g) refl)
    ]
  ]
  | inr e ↦ elim (Bool-cases (leb 400 r.status_code)) [
    | inl g ↦ inr (inl (Error.request_exception, rw (e, g) refl))
    | inr g ↦ inl (r, rw (e, g) refl)
  ]
]

module _ {F S : Type 0} where
  abbrev pub posted : AlgoLabBroker F S → ℕ
  posted w = posts w.requests

  send-posted :
      (e : Endpoint) (w : AlgoLabBroker F S) → posted (send e w).1 ≡ posted w + posts (e ∷ [])
  unfolding send
  send-posted e w = ground (arith, posts-append w.requests (e ∷ []))

  authenticate-posted : (w : AlgoLabBroker F S) → posted (authenticate w).1 ≡ posted w
  authenticate-posted w =
      (authenticate-Leaves posted (λ a b v. refl)
          (record { leaves = λ v. ground (arith, send-posted Endpoint.login v) })
          (record { leaves = λ v. ground (arith, send-posted Endpoint.verify_otp v) })).leaves
        w

  sent-posted :
      (r : Result Bool) (w : AlgoLabBroker F S)
      → posted (((λ (_ : AlgoLabBroker F S). (r, w)) >>= λ _. send Endpoint.orders) w).1
        ≤ suc (posted w)
  sent-posted (ok a) w = ground (arith, send-posted Endpoint.orders w)
  sent-posted (err e) w = ground arith

  -- One attempt posts the order at most once.
  authorised-posted :
      (w : AlgoLabBroker F S) → posted (authorised Endpoint.orders w).1 ≤ suc (posted w)
  unfolding authorised
  authorised-posted w =
      ground (arith, sent-posted (authenticate w).0 (authenticate w).1, authenticate-posted w)

  last-posted :
      (w : AlgoLabBroker F S)
      → posted (request_loop 1 false RetryMode.place true (authorised Endpoint.orders) w).1
        ≤ suc (posted w)
  unfolding request_loop
  last-posted w = elim (judge-place false (authorised Endpoint.orders w).0) [
    | inl (a, e) ↦ rw (request_loop, e) (authorised-posted w)
    | inr (inl (x, e)) ↦ rw (request_loop, e) (authorised-posted w)
    | inr (inr (e, f, u)) ↦ absurd (ground (arith, f))
  ]

  both-posted :
      (w : AlgoLabBroker F S)
      → let first = authorised Endpoint.orders w in
        let after = request_loop 2 true RetryMode.place true (authorised Endpoint.orders) w in
        (posted after.1 ≤ suc (posted w))
        ⊎ ((posted after.1 ≤ posted w + 2) × (is_unauthorised first.0 ≡ true))
  unfolding request_loop
  both-posted w =
      let first = authorised Endpoint.orders w in
      let fresh = with_tokens none none first.1 in
      elim (judge-place true first.0) [
        | inl (a, e) ↦ inl (rw (request_loop, e) (authorised-posted w))
        | inr (inl (x, e)) ↦ inl (rw (request_loop, e) (authorised-posted w))
        | inr (inr (e, f, u)) ↦
            inr (rw (request_loop, e) (ground (arith, last-posted fresh, authorised-posted w)), u)
      ]

  decoded-posted :
      (r : Result (Response F)) (w : AlgoLabBroker F S)
      → posted (((λ (_ : AlgoLabBroker F S). (r, w)) >>= json Error.runtime_error) w).1 ≡ posted w
  unfolding json
  decoded-posted (ok a) w = refl
  decoded-posted (err e) w = refl

  json_request-request :
      (w : AlgoLabBroker F S)
      → posted (json_request Endpoint.orders RetryMode.place w).1
        ≡ posted (request Endpoint.orders RetryMode.place w).1
  unfolding json_request
  json_request-request w =
      let read = request Endpoint.orders RetryMode.place w in decoded-posted read.0 read.1

  -- Submitting an order posts it at most once, or at most twice where the venue answered the first
  -- attempt that the session token is not valid.
  pub json_request-posts :
      (w : AlgoLabBroker F S)
      → let first = authorised Endpoint.orders w in
        let after = json_request Endpoint.orders RetryMode.place w in
        (posted after.1 ≤ suc (posted w))
        ⊎ ((posted after.1 ≤ posted w + 2) × (is_unauthorised first.0 ≡ true))
  unfolding request attempts
  json_request-posts w =
      let same : posted (json_request Endpoint.orders RetryMode.place w).1
          ≡ posted (request Endpoint.orders RetryMode.place w).1 =
        json_request-request w in
      elim (Bool-cases (w.is_configured Endpoint.orders)) [
        | inl e ↦ ground (arith, same, e, both-posted w)
        | inr e ↦ ground (arith, same, e)
      ]
