-- ===== src/Agent/Control.antt =====
-- src/bist_bot/agent/trading_agent.py, continued: the exits, the cycle after a scan, the operator's
-- commands with the timer that ends a pause, and the monitor; and what
-- src/bist_bot/agent/command_handler.py makes of /close.
mod Guards
mod Timers
mod Closing
mod Tests
use bist_bot.Common.{
  ℕ, zero, suc, ◌+◌, Bool, true, false, Option, none, some, List, [], ◌∷◌, map, if◌then◌else◌, ◌==◌,
  not, ◌&&◌, ◌||◌, Dict, lookup, is_some, or_else, any,
}
use bist_bot.Common.Floats.{Floats, Decimals, nought}
use bist_bot.Execution.Raises.{Error, Result, ok, err, Action, is_err}
use bist_bot.Risk.Money.{sell_cost}
use bist_bot.Agent.Positions.{
  LivePosition, Positions, ExitReason, get_position, get_open_positions, get_daily_trade_count,
  close_position,
}
use bist_bot.Agent.Exits.{Market, Trigger, check_exit_conditions}
use bist_bot.Agent.Desk.{Exchange, Desk, exit_position, process_pending_exits}
use bist_bot.Agent.Service.{AgentSignal, ExecutionAttempt}
use bist_bot.Agent.Trading.{
  AgentOperationalState, is_halted, is_paused, is_monitoring, is_market_closed, AgentSettings,
  TradingAgent, check_entries,
}

abbrev pub tickers_of : {F : Type 0} → List (LivePosition F) → List ℕ
tickers_of rs = map (λ r. r.ticker) rs

abbrev pub is_empty : {F : Type 0} → Dict F → Bool
is_empty [] = true
is_empty (e ∷ rest) = false

module _ {F B : Type 0} (ex : Exchange F B) ⦃fl : Floats F⦄ ⦃dc : Decimals F⦄ where
  open fl use {mul, eq}

  -- `exit_position`, and `close_position` where the broker accepted the exit.
  unfoldable pub leave :
      AgentSettings F → ℕ → ExitReason → ℕ → ℕ → F → F → Desk F B → Result Bool × Desk F B
  unfolding exit_position close_position sell_cost
  leave settings now reason position_id ticker quantity price d =
      let (r, d1) =
        exit_position ex settings.exit_order_type position_id ticker quantity reason price d in
      elim r [
        | err e ↦ (err e, d1)
        | ok accepted ↦
            if accepted
            then (
              ok true,
              record d1 {
                positions =
                    close_position now position_id price reason none
                      (sell_cost settings.costs (mul price quantity)) d1.positions;
              },
            )
            else (ok false, d1)
      ]

  -- The loop of `_check_exits`; an exception ends it.
  unfoldable pub leave_all : AgentSettings F → ℕ → List (Trigger F) → Desk F B → Desk F B
  unfolding leave
  leave_all settings now [] d = d
  leave_all settings now (t ∷ ts) d =
      let (r, d1) =
        leave settings now t.exit_reason t.position_id t.ticker t.quantity t.current_price d in
      let rest = leave_all settings now ts d1 in if is_err r then d1 else rest

  -- The checks of the open positions; `fetch` is `_fetch_exit_data`.
  unfoldable pub check_open :
      AgentSettings F → ℕ → (List ℕ → Market F) → List (LivePosition F) → Desk F B → Desk F B
  unfolding check_exit_conditions leave_all
  check_open settings now fetch [] d = d
  check_open settings now fetch (r ∷ rs) d =
      let market = fetch (tickers_of (r ∷ rs)) in
      let (triggers, p) = check_exit_conditions settings.exits market now d.positions in
      if is_empty market.prices
      then d
      else leave_all settings now triggers (record d { positions = p })

  unfoldable pub check_exits : AgentSettings F → ℕ → (List ℕ → Market F) → Desk F B → Desk F B
  unfolding get_open_positions check_open
  check_exits settings now fetch d =
      let (open_positions, p) = get_open_positions d.positions in
      check_open settings now fetch open_positions (record d { positions = p })

  -- The state after the cycle.
  abbrev pub rested : TradingAgent F B → TradingAgent F B
  rested a =
      if not (is_monitoring a.state)
      then a
      else (let (open_positions, p) = get_open_positions a.desk.positions in
          record a {
            state = elim open_positions [
              | [] ↦ AgentOperationalState.idle
              | r ∷ rs ↦ AgentOperationalState.monitoring
            ];
            desk = record a.desk { positions = p };
          })

  -- An exception of the entries ends the cycle.
  abbrev pub after_entries :
      Result (Unit {0}) → TradingAgent F B → Result (Unit {0}) × TradingAgent F B
  after_entries (err e) a = (err e, a)
  after_entries (ok done) a = (ok tt, rested a)

  unfoldable pub on_scan_completed :
      (AgentSignal F → Bool → Action (Desk F B) (Option (ExecutionAttempt F)))
      → AgentSettings F
      → ℕ
      → F
      → (List ℕ → Market F)
      → List (AgentSignal F)
      → TradingAgent F B
      → Result (Unit {0}) × TradingAgent F B
  on_scan_completed execute settings now clock fetch signals a =
      if not settings.agent_enabled || is_halted a.state
      then (ok tt, a)
      else (let a1 = record a {
        state =
            if is_paused a.state
            then AgentOperationalState.paused
            else AgentOperationalState.monitoring;
        desk = check_exits settings now fetch a.desk;
      } in
          if is_paused a1.state
          then (ok tt, rested a1)
          else (let (r, a2) = check_entries execute settings now clock signals a1 in
              after_entries r a2))

  -- The exits of an emergency; `prices` is `_fetch_prices`, and a position without a price stays.
  unfoldable pub abandon_all :
      AgentSettings F → ℕ → Dict F → List (LivePosition F) → Desk F B → Desk F B
  unfolding leave
  abandon_all settings now prices [] d = d
  abandon_all settings now prices (r ∷ rs) d =
      let (left, d1) : Result Bool × Desk F B = elim (lookup r.ticker prices) [
        | none ↦ (ok false, d)
        | some price ↦ leave settings now ExitReason.emergency r.id r.ticker r.quantity price d
      ] in
      let rest = abandon_all settings now prices rs d1 in if is_err left then d1 else rest

  unfoldable pub emergency_stop :
      AgentSettings F → ℕ → (List ℕ → Dict F) → TradingAgent F B → TradingAgent F B
  unfolding abandon_all get_open_positions
  emergency_stop settings now fetch a =
      let (open_positions, p) = get_open_positions a.desk.positions in
      let d = record a.desk { positions = p } in
      record a {
        state = AgentOperationalState.halted;
        monitor_running = false;
        resume_generation = a.resume_generation + 1;
        desk =
            if settings.emergency_close_on_halt
            then abandon_all settings now (fetch (tickers_of open_positions)) open_positions d
            else a.desk;
      }

  -- One round of `_monitor_loop`, which ends the thread when it is told to stop.
  unfoldable pub monitor_cycle :
      AgentSettings F → ℕ → (List ℕ → Market F) → TradingAgent F B → TradingAgent F B
  unfolding check_exits process_pending_exits
  monitor_cycle settings now fetch a =
      if not a.monitor_running
      then record a { monitor_alive = false }
      else (if is_halted a.state || is_market_closed a.state then a else record a {
        desk = process_pending_exits ex now (check_exits settings now fetch a.desk);
      })

  -- `_cmd_close` on a position, with the price that was fetched for it: whether the answer
  -- of `exit_position` came back, which is all that it reports.
  unfoldable pub close_held :
      AgentSettings F → Option F → LivePosition F → Desk F B → Bool × Desk F B
  unfolding exit_position
  close_held settings fetched r d =
      let price = or_else fetched r.entry_price in
      let (answer, d1) =
        exit_position ex settings.exit_order_type r.id r.ticker r.quantity ExitReason.manual
          (if eq price nought then r.entry_price else price) d in
      (not (is_err answer), d1)

  -- `_cmd_close`: whether it reports success. The list of `status` comes first.
  unfoldable pub close_command : AgentSettings F → ℕ → ℕ → Option F → Desk F B → Bool × Desk F B
  unfolding get_open_positions get_daily_trade_count get_position close_held
  close_command settings now ticker fetched d =
      let (open_positions, p1) = get_open_positions d.positions in
      let p2 = (get_daily_trade_count now p1).1 in
      let (held, p3) = get_position ticker p2 in
      let d1 = record d { positions = p3 } in
      if not (any (λ r. r.ticker == ticker) open_positions)
      then (false, record d { positions = p2 })
      else elim held [ none ↦ (false, d1) | some r ↦ close_held settings fetched r d1 ]

-- The agent, and how many timers have passed their test and have not resumed it yet.
pub record Timed (F B : Type 0) : Type 0 where
  pub agent : TradingAgent F B
  pub due : ℕ

module _ {F B : Type 0} where
  -- `pause`, whose timer keeps the new generation.
  unfoldable pub pause : TradingAgent F B → TradingAgent F B
  pause a = record a {
    state = AgentOperationalState.paused;
    resume_generation = a.resume_generation + 1;
  }

  -- `_ensure_monitor_running`
  unfoldable pub ensure_monitor_running : AgentSettings F → TradingAgent F B → TradingAgent F B
  ensure_monitor_running settings a =
      if not settings.position_monitor_enabled || a.monitor_alive
      then a
      else record a { monitor_running = true; monitor_alive = true }

  unfoldable pub resume : AgentSettings F → TradingAgent F B → TradingAgent F B
  unfolding ensure_monitor_running
  resume settings a =
      ensure_monitor_running settings (record a {
        state = AgentOperationalState.idle;
        resume_generation = a.resume_generation + 1;
      })

  -- The test of a pause's timer, under the lock.
  unfoldable pub timer_passes : ℕ → TradingAgent F B → Bool
  timer_passes generation a = (generation == a.resume_generation) && is_paused a.state

  -- The timer of a pause when its time is up. It lets go of the lock after its test, so that other calls
  -- may come before it resumes the agent.
  unfoldable pub timer_tests : ℕ → Timed F B → Timed F B
  unfolding timer_passes
  timer_tests generation w =
      if timer_passes generation w.agent then record w { due = w.due + 1 } else w

  unfoldable pub timer_resumes : AgentSettings F → Timed F B → Timed F B
  unfolding resume
  timer_resumes settings w = elim w.due [
    | zero ↦ w
    | suc left ↦ record { agent = resume settings w.agent; due = left }
  ]
