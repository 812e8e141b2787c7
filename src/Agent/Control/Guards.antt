-- ===== src/Agent/Control/Guards.antt =====
-- What the agent of agent/trading_agent.py still sends while it is halted or paused.
use bist_bot.Common.{
  ℕ, ◌≡◌, refl, inl, inr, Bool, true, Option, none, some, List, [], ◌∷◌, not, ◌||◌, Bool-cases,
  arith,
}
use bist_bot.Common.Floats.{Floats, Decimals}
use bist_bot.Execution.Raises.{Result, ok, err, Action, is_err, Result-cases}
use bist_bot.Execution.Order.{OrderType, OrderSide, OrderResult}
use bist_bot.Agent.Positions.{LivePosition, ExitReason, get_open_positions}
use bist_bot.Agent.Exits.{Market, Trigger, check_exit_conditions}
use bist_bot.Agent.Desk.{
  Exchange, Purpose, Desk, create_order, track_exit, settle_exit, place_exit, exit_position,
  update_order,
}
use bist_bot.Agent.Service.{AgentSignal, ExecutionAttempt}
use bist_bot.Agent.Trading.{
  AgentOperationalState, is_halted, is_paused, is_monitoring, AgentSettings, TradingAgent,
}
use bist_bot.Agent.Control.{
  leave, leave_all, is_empty, tickers_of, check_open, check_exits, rested, on_scan_completed,
}

module _ {F B : Type 0} ⦃fl : Floats F⦄ where
  create_order-broker :
      (ticker : ℕ) (side : OrderSide) (q : F) (type : OrderType) (price : Option F) (why : Purpose)
      (d : Desk F B)
      → (create_order ticker side q type price why d).1.broker ≡ d.broker
  unfolding create_order
  create_order-broker ticker side q type price why d = ground arith

module _ {F B : Type 0} where
  track_exit-broker :
      (row broker_order_id : Option ℕ) (d : Desk F B)
      → (track_exit row broker_order_id d).broker ≡ d.broker
  unfolding track_exit update_order
  track_exit-broker none broker_order_id d = refl
  track_exit-broker (some id) none d = refl
  track_exit-broker (some id) (some b) d = ground arith

  settle_exit-broker :
      (r : Result OrderResult) (row : Option ℕ) (d : Desk F B)
      → (settle_exit r row d).1.broker ≡ d.broker
  unfolding settle_exit
  settle_exit-broker (err e) row d = refl
  settle_exit-broker (ok result) row d =
      ground (arith, track_exit-broker row result.broker_order_id d)

-- A property of the broker that a login and any sale keep.
pub record SellsOnly {F B : Type 0} (ex : Exchange F B) (P : B → Type 0) : Type 0 where
  pub login : (b : B) → P b → P (ex.authenticate b).1
  pub sale :
      (ticker : ℕ) (quantity : F) (type : OrderType) (price : Option F) (b : B)
      → P b
      → P (ex.place_order ticker OrderSide.sell quantity type price b).1

module _ {F B : Type 0} (ex : Exchange F B) ⦃fl : Floats F⦄ (P : B → Type 0)
    (only : SellsOnly ex P) where
  place_exit-keeps :
      (type : OrderType) (position_id ticker : ℕ) (quantity : F) (reason : ExitReason) (price : F)
      (d : Desk F B)
      → P d.broker
      → P (place_exit ex type position_id ticker quantity reason price d).1.broker
  unfolding place_exit
  place_exit-keeps type position_id ticker quantity reason price d h =
      let made =
        create_order ticker OrderSide.sell quantity type (some price)
          (Purpose.exit position_id reason) d in
      let same =
        create_order-broker ticker OrderSide.sell quantity type (some price)
          (Purpose.exit position_id reason) d in
      let before : P made.1.broker = rw same h in
      rw (settle_exit-broker _ _ _)
        (only.sale ticker quantity type (some price) made.1.broker before)

  exit_position-keeps :
      (type : Option OrderType) (position_id ticker : ℕ) (quantity : F) (reason : ExitReason)
      (price : F) (d : Desk F B)
      → P d.broker
      → P (exit_position ex type position_id ticker quantity reason price d).1.broker
  unfolding exit_position
  exit_position-keeps type position_id ticker quantity reason price d h =
      let after = only.login d.broker h in
      let d1 = record d { broker = (ex.authenticate d.broker).1 } in
      elim (Result-cases (ex.authenticate d.broker).0) [
        | inr (failure, e) ↦ rw (exit_position, e) after
        | inl (granted, e) ↦ elim (Bool-cases granted) [
          | inl f ↦
              rw (exit_position, e, f)
                (place_exit-keeps _ position_id ticker quantity reason price d1 after)
          | inr f ↦ rw (exit_position, e, f) after
        ]
      ]

module _ {F B : Type 0} (ex : Exchange F B) ⦃fl : Floats F⦄ ⦃dc : Decimals F⦄ (P : B → Type 0)
    (only : SellsOnly ex P) (settings : AgentSettings F) (now : ℕ) where
  leave-keeps :
      (reason : ExitReason) (position_id ticker : ℕ) (quantity price : F) (d : Desk F B)
      → P d.broker
      → P (leave ex settings now reason position_id ticker quantity price d).1.broker
  unfolding leave
  leave-keeps reason position_id ticker quantity price d h =
      let sent =
        exit_position ex settings.exit_order_type position_id ticker quantity reason price d in
      let after =
        exit_position-keeps ex P only settings.exit_order_type position_id ticker quantity reason
          price d h in
      elim (Result-cases sent.0) [
        | inr (failure, e) ↦ rw (leave, e) after
        | inl (accepted, e) ↦ elim (Bool-cases accepted) [
          | inl f ↦ rw (leave, e, f) after
          | inr f ↦ rw (leave, e, f) after
        ]
      ]

  leave_all-keeps :
      (ts : List (Trigger F)) (d : Desk F B)
      → P d.broker
      → P (leave_all ex settings now ts d).broker
  unfolding leave_all
  leave_all-keeps [] d h = h
  leave_all-keeps (t ∷ ts) d h =
      let left =
        leave ex settings now t.exit_reason t.position_id t.ticker t.quantity t.current_price d in
      let after = leave-keeps t.exit_reason t.position_id t.ticker t.quantity t.current_price d h in
      elim (Bool-cases (is_err left.0)) [
        | inl e ↦ rw (leave_all, e) after
        | inr e ↦ rw (leave_all, e) (leave_all-keeps ts left.1 after)
      ]

  check_open-keeps :
      (fetch : List ℕ → Market F) (rs : List (LivePosition F)) (d : Desk F B)
      → P d.broker
      → P (check_open ex settings now fetch rs d).broker
  unfolding check_open
  check_open-keeps fetch [] d h = h
  check_open-keeps fetch (r ∷ rs) d h =
      let market = fetch (tickers_of (r ∷ rs)) in
      let checked = check_exit_conditions settings.exits market now d.positions in
      elim (Bool-cases (is_empty market.prices)) [
        | inl e ↦ rw e h
        | inr e ↦ rw e (leave_all-keeps checked.0 (record d { positions = checked.1 }) h)
      ]

  check_exits-keeps :
      (fetch : List ℕ → Market F) (d : Desk F B)
      → P d.broker
      → P (check_exits ex settings now fetch d).broker
  unfolding check_exits
  check_exits-keeps fetch d h =
      let found = get_open_positions d.positions in
      check_open-keeps fetch found.0 (record d { positions = found.1 }) h

  rested-keeps : (a : TradingAgent F B) → P a.desk.broker → P (rested ex a).desk.broker
  rested-keeps a h = elim (Bool-cases (not (is_monitoring a.state))) [
    | inl e ↦ rw e h
    | inr e ↦ rw e h
  ]

  -- While the agent is halted or paused, a scan makes it do no more with the broker than log in and
  -- sell: whatever a login and any sale keep true of the broker is still true after the scan,
  -- whatever the signals, the market, the execution service and the database answer.
  pub on_scan_completed-guard :
      (execute : AgentSignal F → Bool → Action (Desk F B) (Option (ExecutionAttempt F))) (clock : F)
      (fetch : List ℕ → Market F) (signals : List (AgentSignal F)) (a : TradingAgent F B)
      → (is_halted a.state || is_paused a.state) ≡ true
      → P a.desk.broker
      → P (on_scan_completed ex execute settings now clock fetch signals a).1.desk.broker
  unfolding on_scan_completed
  on_scan_completed-guard execute clock fetch signals a held h =
      elim (Bool-cases (not settings.agent_enabled || is_halted a.state)) [
        | inl e ↦ rw (on_scan_completed, e) h
        | inr e ↦
            let paused : is_paused a.state ≡ true = ground (arith, e, held) in
            let a1 = record a {
              state = AgentOperationalState.paused;
              desk = check_exits ex settings now fetch a.desk;
            } in
            rw (on_scan_completed, e, paused) (rested-keeps a1 (check_exits-keeps fetch a.desk h))
      ]
