-- ===== src/Agent/Control/Closing.antt =====
-- What the exits of agent/trading_agent.py close, with the positions of agent/position_manager.py
-- and the exit service of agent/exit_service.py.
use bist_bot.Common.{
  ℕ, ◌≡◌, refl, ap, ◌∙◌, ◌⊎◌, inl, inr, true, false, Option, none, some, List, [], ◌∷◌, ◌++◌, ◌==◌,
  any, Dict, lookup, or_else, Bool-cases, Option-cases, arith,
}
use bist_bot.Common.Floats.{Floats, Decimals, IsOrdered}
use bist_bot.Execution.Raises.{ok, is_err}
use bist_bot.Execution.Order.{OrderType, OrderSide, OrderResult}
use bist_bot.Risk.Money.{sell_cost}
use bist_bot.Agent.Positions.{
  LivePosition, Positions, ExitReason, close_position, get_open_positions, update_stop_loss,
}
use bist_bot.Agent.Positions.Closed.{
  is_open_id, close_position-closes, close_position-keeps, close_position-calm,
}
use bist_bot.Agent.Positions.Counts.{get_open_positions-again}
use bist_bot.Agent.Positions.Listed.{Listed-middle}
use bist_bot.Agent.Exits.{
  ExitSettings, Market, Trigger, trail_of, persist, check_positions, check_exit_conditions, is_for,
  check_positions-stop,
}
use bist_bot.Agent.Desk.{
  Exchange, Purpose, Desk, create_order, update_order, track_exit, settle_exit, place_exit,
  exit_position, row_of,
}
use bist_bot.Agent.Trading.{AgentSettings}
use bist_bot.Agent.Control.{leave, leave_all, is_empty, tickers_of, check_open, check_exits}

-- A broker that lets the agent in and takes every sale.
pub record TakesSales {F B : Type 0} (ex : Exchange F B) : Type 0 where
  pub login : (b : B) → (ex.authenticate b).0 ≡ ok true
  pub sale :
      (ticker : ℕ) (quantity : F) (type : OrderType) (price : Option F) (b : B)
      → (result : OrderResult) × ((ex.place_order ticker OrderSide.sell quantity type price b).0
          ≡ ok result)
        × (result.accepted ≡ true)

module _ {F B : Type 0} where
  track_exit-positions :
      (row broker_order_id : Option ℕ) (d : Desk F B)
      → (track_exit row broker_order_id d).positions ≡ d.positions
  unfolding track_exit update_order
  track_exit-positions none broker_order_id d = refl
  track_exit-positions (some id) none d = refl
  track_exit-positions (some id) (some b) d = ground arith

module _ {F B : Type 0} (ex : Exchange F B) (takes : TakesSales ex) ⦃fl : Floats F⦄ where
  create_order-positions :
      (ticker : ℕ) (side : OrderSide) (q : F) (type : OrderType) (price : Option F) (why : Purpose)
      (d : Desk F B)
      → (create_order ticker side q type price why d).1.positions ≡ d.positions
  unfolding create_order
  create_order-positions ticker side q type price why d = ground arith

  exit_position-accepted :
      (type : Option OrderType) (position_id ticker : ℕ) (quantity : F) (reason : ExitReason)
      (price : F) (d : Desk F B)
      → let after = exit_position ex type position_id ticker quantity reason price d in
        (after.0 ≡ ok true) × (after.1.positions ≡ d.positions)
  unfolding exit_position place_exit settle_exit
  exit_position-accepted type position_id ticker quantity reason price d =
      let kind = or_else type OrderType.market in
      let d1 = record d { broker = (ex.authenticate d.broker).1 } in
      let why = Purpose.exit position_id reason in
      let made = create_order ticker OrderSide.sell quantity kind (some price) why d1 in
      let kept = create_order-positions ticker OrderSide.sell quantity kind (some price) why d1 in
      let (result, placed, accepted) = takes.sale ticker quantity kind (some price) made.1.broker in
      rw (exit_position, takes.login d.broker, placed, accepted)
        (refl, track_exit-positions (row_of made.0) result.broker_order_id _ ∙ kept)

module _ {F B : Type 0} (ex : Exchange F B) (takes : TakesSales ex) ⦃fl : Floats F⦄
    ⦃dc : Decimals F⦄ (settings : AgentSettings F) (now : ℕ) where
  leave-closes :
      (reason : ExitReason) (position_id ticker : ℕ) (quantity price : F) (d : Desk F B)
      → let after = leave ex settings now reason position_id ticker quantity price d in
        (after.0 ≡ ok true)
        × (after.1.positions
            ≡ close_position now position_id price reason none
                (sell_cost settings.costs (fl.mul price quantity))
                d.positions)
  unfolding leave
  leave-closes reason position_id ticker quantity price d =
      let (sent, same) =
        exit_position-accepted ex takes settings.exit_order_type position_id ticker quantity reason
          price d in
      rw (leave, sent)
        (
          refl,
          ap
              (close_position now position_id price reason none
                (sell_cost settings.costs (fl.mul price quantity)))
              same,
        )

  -- The loop closes every position that has a trigger, and opens none.
  leave_all-closes :
      (id : ℕ) (ts : List (Trigger F)) (d : Desk F B)
      → d.positions.faults ≡ []
      → (any (is_for id) ts ≡ true) ⊎ (any (is_open_id id) d.positions.rows ≡ false)
      → any (is_open_id id) (leave_all ex settings now ts d).positions.rows ≡ false
  unfolding leave_all
  leave_all-closes id [] d calm (inl h) = cc
  leave_all-closes id [] d calm (inr h) = h
  leave_all-closes id (t ∷ ts) d calm before =
      let price = t.current_price in
      let fees = sell_cost settings.costs (fl.mul price t.quantity) in
      let after = leave ex settings now t.exit_reason t.position_id t.ticker t.quantity price d in
      let (sent, closed) = leave-closes t.exit_reason t.position_id t.ticker t.quantity price d in
      let quiet : is_err after.0 ≡ false = rw sent refl in
      let calm1 : after.1.positions.faults ≡ [] =
        rw closed
          (close_position-calm now price t.exit_reason none fees t.position_id d.positions calm) in
      let next : (any (is_for id) ts ≡ true)
          ⊎ (any (is_open_id id) after.1.positions.rows ≡ false) =
        elim before [
          | inr h ↦ inr (
              rw closed (
                close_position-keeps now price t.exit_reason none fees id t.position_id d.positions
                  calm h))
          | inl h ↦ elim (Bool-cases (t.position_id == id)) [
            | inl e ↦
                let same : t.position_id ≡ id = ground (arith, e) in
                inr (
                  rw (closed, ← same)
                    (close_position-closes now price t.exit_reason none fees t.position_id
                      d.positions calm))
            | inr e ↦ inl (ground (arith, e, h))
          ]
        ] in
      rw (leave_all, quiet) (leave_all-closes id ts after.1 calm1 next)

module _ {F : Type 0} ⦃fl : Floats F⦄ where
  persist-calm :
      (now : ℕ) (trail : Option F) (r : LivePosition F) (p : Positions F)
      → p.faults ≡ []
      → (persist now trail r p).faults ≡ []
  unfolding update_stop_loss
  persist-calm now none r p calm = calm
  persist-calm now (some trail) r p calm = ground (arith, calm)

  check_positions-calm :
      (settings : ExitSettings F) (market : Market F) (now : ℕ) (rs : List (LivePosition F))
      (p : Positions F)
      → p.faults ≡ []
      → (check_positions settings market now rs p).1.faults ≡ []
  unfolding check_positions
  check_positions-calm settings market now [] p calm = calm
  check_positions-calm settings market now (r ∷ rs) p calm =
      elim (Option-cases (lookup r.ticker market.prices)) [
        | inl e ↦ rw (check_positions, e) (check_positions-calm settings market now rs p calm)
        | inr (price, e) ↦
            let trail = trail_of settings market price r in
            rw (check_positions, e)
              (check_positions-calm settings market now rs (persist now trail r p)
                (persist-calm now trail r p calm))
      ]

  check_exit_conditions_lem :
      (settings : ExitSettings F) (market : Market F) (now : ℕ) (p : Positions F)
      (rs : List (LivePosition F))
      → (get_open_positions p).0 ≡ rs
      → check_exit_conditions settings market now p
        ≡ check_positions settings market now rs (get_open_positions p).1
  unfolding check_exit_conditions
  check_exit_conditions_lem settings market now p rs held = rw held refl

module _ {F : Type 0} where
  any-middle :
      (id : ℕ) (rs ss : List (LivePosition F)) (r : LivePosition F)
      → r.id ≡ id
      → any (λ s. s.id == id) (rs ++ (r ∷ ss)) ≡ true
  any-middle id [] ss r same = ground arith
  any-middle id (s ∷ rs) ss r same = ground (arith, any-middle id rs ss r)

  is_empty-lookup :
      (ticker : ℕ) {price : F} (prices : Dict F)
      → lookup ticker prices ≡ some price
      → is_empty prices ≡ false
  is_empty-lookup ticker [] h = cc
  is_empty-lookup ticker (e ∷ rest) h = refl

module _ {F B : Type 0} (ex : Exchange F B) (takes : TakesSales ex) ⦃fl : Floats F⦄
    ⦃dc : Decimals F⦄ (o : IsOrdered F) (settings : AgentSettings F) (now : ℕ) where
  check_open-closes :
      (fetch : List ℕ → Market F) (id : ℕ) (rs : List (LivePosition F)) (d : Desk F B)
      → d.positions.faults ≡ []
      → any (λ r. r.id == id) rs ≡ true
      → is_empty (fetch (tickers_of rs)).prices ≡ false
      → let checked =
          check_exit_conditions settings.exits (fetch (tickers_of rs)) now d.positions in
        (any (is_for id) checked.0 ≡ true)
        → (checked.1.faults ≡ [])
        → any (is_open_id id) (check_open ex settings now fetch rs d).positions.rows ≡ false
  unfolding check_open
  check_open-closes fetch id [] d calm there prices triggered quiet = cc
  check_open-closes fetch id (r ∷ rs) d calm there prices triggered quiet =
      let checked =
        check_exit_conditions settings.exits (fetch (tickers_of (r ∷ rs))) now d.positions in
      rw prices (
        leave_all-closes ex takes settings now id checked.0 (record d { positions = checked.1 })
          quiet (inl triggered))

  -- Where the database answers and the broker lets the agent in and takes every sale, `_check_exits`
  -- closes every position that is at its stop: an open position `r`, among any others, whose price
  -- is known and not above its stored stop, has no open row afterwards.
  pub check_exits-closes :
      (fetch : List ℕ → Market F) (rs ss : List (LivePosition F)) (r : LivePosition F) (price : F)
      (d : Desk F B)
      → d.positions.faults ≡ []
      → (get_open_positions d.positions).0 ≡ rs ++ (r ∷ ss)
      → lookup r.ticker (fetch (tickers_of (rs ++ (r ∷ ss)))).prices ≡ some price
      → fl.le price r.stop_loss ≡ true
      → any (is_open_id r.id) (check_exits ex settings now fetch d).positions.rows ≡ false
  unfolding check_exits
  check_exits-closes fetch rs ss r price d calm held known hit =
      let found = get_open_positions d.positions in
      let (again, calm1) = get_open_positions-again d.positions calm in
      let market = fetch (tickers_of (rs ++ (r ∷ ss))) in
      let p2 = (get_open_positions found.1).1 in
      let calm2 = (get_open_positions-again found.1 calm1).1 in
      let same =
        check_exit_conditions_lem settings.exits market now found.1 (rs ++ (r ∷ ss))
          (again ∙ held) in
      let triggered =
        check_positions-stop o settings.exits market now r price p2 known hit
          (Listed-middle r rs ss) in
      let checked : any (is_for r.id) (check_exit_conditions settings.exits market now found.1).0
          ≡ true =
        rw same triggered in
      let quiet : (check_exit_conditions settings.exits market now found.1).1.faults ≡ [] =
        rw same (check_positions-calm settings.exits market now (rs ++ (r ∷ ss)) p2 calm2) in
      rw held (
        check_open-closes fetch r.id (rs ++ (r ∷ ss)) (record d { positions = found.1 }) calm1
          (any-middle r.id rs ss r refl) (is_empty-lookup r.ticker market.prices known) checked
          quiet)
