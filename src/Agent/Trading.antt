-- ===== src/Agent/Trading.antt =====
-- src/bist_bot/agent/trading_agent.py: the agent that watches the open positions after each scan and
-- enters new ones. What the data fetcher answers and the clock are arguments; the audit log and the
-- daily report are left out, and a thread is the sequence of its calls.
pub mod Limits
pub mod Deaf
use bist_bot.Common.{
  ℕ, zero, suc, ◌+◌, ◌-◌, Bool, true, false, Option, none, some, List, [], ◌∷◌, map, if◌then◌else◌,
  ◌==◌, leb, not, ◌&&◌, keep, length, Dict, lookup, is_some, or_else,
}
use bist_bot.Common.Floats.{Floats, Decimals, nought}
use bist_bot.Execution.Raises.{Error, Result, ok, err, Action, is_err}
use bist_bot.Execution.Order.{OrderType}
use bist_bot.Risk.Money.{TradingCosts, sell_cost}
use bist_bot.Risk.Breaker.{CircuitBreaker, allow_request}
use bist_bot.Agent.Positions.{
  LivePosition, Positions, ExitReason, get_position, get_open_positions, get_daily_trade_count,
  open_position, close_position,
}
use bist_bot.Agent.Exits.{ExitSettings, Market, Trigger, check_exit_conditions}
use bist_bot.Agent.Desk.{Exchange, Desk, exit_position, process_pending_exits}
use bist_bot.Agent.Service.{TypeValue, AgentSignal, ExecutionAttempt}

pub data AgentOperationalState : Type 0 where
  idle scanning monitoring market_closed halted paused : AgentOperationalState

abbrev pub is_halted : AgentOperationalState → Bool
is_halted AgentOperationalState.halted = true
is_halted _ = false

abbrev pub is_paused : AgentOperationalState → Bool
is_paused AgentOperationalState.paused = true
is_paused _ = false

abbrev pub is_monitoring : AgentOperationalState → Bool
is_monitoring AgentOperationalState.monitoring = true
is_monitoring _ = false

abbrev pub is_market_closed : AgentOperationalState → Bool
is_market_closed AgentOperationalState.market_closed = true
is_market_closed _ = false

pub record AgentSettings (F : Type 0) : Type 0 where
  pub agent_enabled : Bool
  pub long_only : Bool
  pub max_daily_trades : ℕ
  pub max_open_positions : ℕ
  pub min_score_threshold : F
  pub require_fill : Bool
  pub emergency_close_on_halt : Bool
  pub position_monitor_enabled : Bool
  pub exit_order_type : Option OrderType
  pub exits : ExitSettings F
  pub costs : TradingCosts F

-- `monitor_alive` says whether the thread of the monitor has not ended.
pub record TradingAgent (F B : Type 0) : Type 0 where
  pub state : AgentOperationalState
  pub breaker : CircuitBreaker F
  pub desk : Desk F B
  pub monitor_running : Bool
  pub monitor_alive : Bool
  pub resume_generation : ℕ

-- `str(signal_type) in self._entry_signal_types()`: the text of a member is "SignalType." and its
-- name, which is in neither set.
abbrev pub is_entry_type : Bool → TypeValue → Bool
is_entry_type long_only (TypeValue.member type) = false
is_entry_type long_only TypeValue.strong_buy_text = true
is_entry_type long_only TypeValue.strong_sell_text = not long_only
is_entry_type long_only TypeValue.other_text = false

abbrev pub min_ℕ : ℕ → ℕ → ℕ
min_ℕ a b = if leb a b then a else b

module _ {F B : Type 0} ⦃fl : Floats F⦄ where
  unfoldable pub can_trade : F → TradingAgent F B → Bool × TradingAgent F B
  unfolding allow_request
  can_trade now a =
      if is_halted a.state
      then (false, a)
      else (if is_paused a.state
          then (false, a)
          else (let (breaker, allowed) = allow_request now a.breaker in
              (allowed, record a { breaker = breaker })))

module _ {F : Type 0} ⦃fl : Floats F⦄ where
  open fl use {eq, le}

  abbrev pub wanted : AgentSettings F → AgentSignal F → Bool
  wanted settings s =
      is_entry_type settings.long_only s.signal_type && le settings.min_score_threshold s.score

  -- The signals whose ticker has no open position.
  unfoldable pub untaken : List (AgentSignal F) → Positions F → List (AgentSignal F) × Positions F
  unfolding get_position
  untaken [] p = ([], p)
  untaken (s ∷ ss) p =
      let (held, p1) = get_position s.ticker p in
      let (rest, p2) = untaken ss p1 in (if is_some held then rest else s ∷ rest, p2)

  abbrev pub given : Option F → F
  given o = or_else o nought

  -- The position of an accepted attempt, where the signal has both levels.
  unfoldable pub open_attempt : ℕ → AgentSignal F → ExecutionAttempt F → Positions F → Positions F
  unfolding open_position
  open_attempt now s attempt p =
      if not (eq (given s.stop_loss) nought) && not (eq (given s.target_price) nought)
      then (open_position now s.ticker (or_else attempt.order_db_id 0)
          (or_else attempt.fill_price s.price) (given s.position_size) (given s.stop_loss)
          (given s.target_price) p).1
      else p

-- An accepted signal takes its slot.
abbrev pub slots_after : Result Bool → ℕ → ℕ
slots_after (ok true) slots = slots
slots_after _ slots = suc slots

-- The execution service is a parameter, as the constructor takes it.
module _ {F B : Type 0} ⦃fl : Floats F⦄
    (execute : AgentSignal F → Bool → Action (Desk F B) (Option (ExecutionAttempt F))) where
  open fl use {le}

  -- One signal of the loop: whether it took a slot.
  unfoldable pub enter : AgentSettings F → ℕ → AgentSignal F → Desk F B → Result Bool × Desk F B
  unfolding open_attempt
  enter settings now s d =
      if le (given s.position_size) nought
      then (ok false, d)
      else (let (r, d1) = execute s settings.require_fill d in
          elim r [
            | err e ↦ (err e, d1)
            | ok answer ↦ elim answer [
              | none ↦ (ok false, d1)
              | some attempt ↦
                  if attempt.accepted
                  then (ok true, record d1 { positions = open_attempt now s attempt d1.positions })
                  else (ok false, d1)
            ]
          ])

  unfoldable pub enter_all :
      AgentSettings F → ℕ → ℕ → List (AgentSignal F) → Desk F B → Result (Unit {0}) × Desk F B
  unfolding enter
  enter_all settings now slots [] d = (ok tt, d)
  enter_all settings now zero (s ∷ ss) d = (ok tt, d)
  enter_all settings now (suc slots) (s ∷ ss) d =
      let (r, d1) = enter settings now s d in
      let rest = enter_all settings now (slots_after r slots) ss d1 in
      elim r [ err e ↦ (err e, d1) | ok took ↦ rest ]

  -- `_check_entries` once the agent may trade.
  unfoldable pub enter_within :
      AgentSettings F → ℕ → List (AgentSignal F) → Desk F B → Result (Unit {0}) × Desk F B
  unfolding get_daily_trade_count get_open_positions untaken enter_all
  enter_within settings now signals d =
      let (daily_trades, p1) = get_daily_trade_count now d.positions in
      let (open_positions, p2) = get_open_positions p1 in
      let d1 = record d { positions = p2 } in
      if leb settings.max_daily_trades daily_trades
      then (ok tt, d1)
      else (if leb settings.max_open_positions (length open_positions)
          then (ok tt, d1)
          else (let slots =
                min_ℕ (settings.max_daily_trades - daily_trades)
                  (settings.max_open_positions - length open_positions) in
              let (chosen, p3) = untaken (keep (wanted settings) signals) p2 in
              enter_all settings now slots chosen (record d { positions = p3 })))

  -- `now` is the time in seconds, and `clock` the reading of the breaker's clock.
  unfoldable pub check_entries :
      AgentSettings F
      → ℕ
      → F
      → List (AgentSignal F)
      → TradingAgent F B
      → Result (Unit {0}) × TradingAgent F B
  unfolding can_trade enter_within
  check_entries settings now clock signals a =
      let (allowed, a1) = can_trade clock a in
      let (r, d) = enter_within settings now signals a1.desk in
      if allowed then (r, record a1 { desk = d }) else (ok tt, a1)
