-- ===== src/Execution/Algolab/Observe.antt =====
-- An observation of the broker of execution/algolab_broker.py across its requests.
use bist_bot.Common.{
  ℕ, zero, suc, ◌≡◌, refl, ◌∙◌, Bool, true, false, Option, none, arith, is_some, ◌||◌,
}
use bist_bot.Execution.Raises.{Error, Result, ok, err, pure, modify, ◌>>=◌, ◌>>◌}
use bist_bot.Execution.Algolab.{Response, Endpoint, AlgoLabBroker, Payload}
use bist_bot.Execution.Algolab.Http.{
  Call, with_tokens, RetryMode, send, request_loop, attempts, json, open_request, login_and_verify,
  authenticate, authorised, request,
}

module _ {F S X : Type 0} (obs : AlgoLabBroker F S → X) where
  -- The call leaves the observation.
  pub record Leaves {A : Type 0} (m : Call F S A) : Type 0 where
    pub leaves : (w : AlgoLabBroker F S) → obs (m w).1 ≡ obs w

  branch-Leaves :
      {A B : Type 0} (r : Result A) (w : AlgoLabBroker F S) (f : A → Call F S B)
      → ((a : A) → Leaves (f a))
      → obs (((λ (_ : AlgoLabBroker F S). (r, w)) >>= f) w).1 ≡ obs w
  branch-Leaves (ok a) w f k = (k a).leaves w
  branch-Leaves (err e) w f k = refl

  pub >>=-Leaves :
      {A B : Type 0} {m : Call F S A} {f : A → Call F S B}
      → Leaves m
      → ((a : A) → Leaves (f a))
      → Leaves (m >>= f)
  >>=-Leaves {m = m} {f = f} h k = record {
    leaves = λ w. branch-Leaves (m w).0 (m w).1 f k ∙ h.leaves w;
  }

  pub json-Leaves : (e : Error) (r : Response F) → Leaves (json e r)
  unfolding json
  json-Leaves e r = record { leaves = λ w. refl }

  pub pure-Leaves : {A : Type 0} (a : A) → Leaves (pure a)
  pure-Leaves a = record { leaves = λ w. refl }

-- The observation does not read the tokens.
abbrev pub IsSteady : {F S X : Type 0} → (AlgoLabBroker F S → X) → Type 0
IsSteady {F = F} {S = S} obs =
    (a b : Option ℕ) (w : AlgoLabBroker F S) → obs (with_tokens a b w) ≡ obs w

module _ {F S X : Type 0} (obs : AlgoLabBroker F S → X) (steady : IsSteady obs) where
  request_loop-Leaves :
      (n : ℕ) (first : Bool) (mode : RetryMode) (auth : Bool) (attempt : Call F S (Response F))
      → Leaves obs attempt
      → (w : AlgoLabBroker F S) → obs (request_loop n first mode auth attempt w).1 ≡ obs w
  unfolding request_loop
  request_loop-Leaves zero first mode auth attempt a w = refl
  request_loop-Leaves (suc n) first mode auth attempt a w =
      let w1 = (attempt w).1 in
      let w2 = with_tokens none none w1 in
      ground (
        arith,
        a.leaves w,
        steady none none w1,
        request_loop-Leaves n false mode auth attempt a w1,
        request_loop-Leaves n false mode auth attempt a w2,
      )

  open_request-Leaves : (e : Endpoint) → Leaves obs (send e) → Leaves obs (open_request e)
  unfolding open_request
  open_request-Leaves e h = record {
    leaves = λ w.
        request_loop-Leaves (attempts RetryMode.by_default w) true RetryMode.by_default false
          (send e) h w;
  }

  verified-Leaves :
      (p : Payload F)
      → Leaves obs (
          modify (with_tokens p.session_token p.encrypted_session)
          >> pure (is_some p.session_token || is_some p.encrypted_session))
  verified-Leaves p = record { leaves = steady p.session_token p.encrypted_session }

  login_and_verify-Leaves :
      Leaves obs (send Endpoint.login)
      → Leaves obs (send Endpoint.verify_otp)
      → Leaves obs login_and_verify
  unfolding login_and_verify
  login_and_verify-Leaves l v = >>=-Leaves obs (open_request-Leaves Endpoint.login l) λ a.
      >>=-Leaves obs (json-Leaves obs Error.other a) λ _.
        >>=-Leaves obs (open_request-Leaves Endpoint.verify_otp v)
          λ b. >>=-Leaves obs (json-Leaves obs Error.other b) verified-Leaves

  pub authenticate-Leaves :
      Leaves obs (send Endpoint.login)
      → Leaves obs (send Endpoint.verify_otp)
      → Leaves obs authenticate
  unfolding authenticate
  authenticate-Leaves l v = record {
    leaves = λ w. ground (arith, (login_and_verify-Leaves l v).leaves w);
  }

  -- A request of an endpoint that the observation does not count.
  pub request-Leaves :
      (e : Endpoint) (mode : RetryMode)
      → ((d : Endpoint) → Leaves obs (send d))
      → Leaves obs (request e mode)
  unfolding request authorised
  request-Leaves e mode h = record {
    leaves = λ w. ground (
      arith,
      request_loop-Leaves (attempts mode w) true mode true (authorised e)
          (>>=-Leaves obs (authenticate-Leaves (h Endpoint.login) (h Endpoint.verify_otp)) λ _. h e)
          w,
    );
  }
