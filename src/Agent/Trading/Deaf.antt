-- ===== src/Agent/Trading/Deaf.antt =====
-- What the agent of agent/trading_agent.py enters through services/execution_service.py.
use bist_bot.Common.{
  ℕ, zero, suc, ◌≡◌, refl, ap, inl, inr, Bool, true, false, Option, none, List, [], ◌∷◌, keep, All,
  is_some, leb, length, Bool-cases, arith,
}
use bist_bot.Common.Floats.{Floats, nought}
use bist_bot.Execution.Raises.{Result, ok}
use bist_bot.Agent.Positions.{Positions, get_position, get_open_positions, get_daily_trade_count}
use bist_bot.Agent.Desk.{Exchange, Desk}
use bist_bot.Agent.Service.{TypeValue, AgentSignal, ExecutionAttempt, is_strong, execute_signal}
use bist_bot.Agent.Trading.Limits.{can_trade-desk}
use bist_bot.Agent.Trading.{
  AgentSettings, TradingAgent, can_trade, given, is_entry_type, wanted, untaken, enter, enter_all,
  enter_within, check_entries,
}

-- `execute_signal` as the agent calls it.
abbrev pub service :
    {F B : Type 0} (ex : Exchange F B) ⦃fl : Floats F⦄
    → Bool
    → AgentSignal F
    → Bool
    → Desk F B
    → Result (Option (ExecutionAttempt F)) × Desk F B
service ex auto_execute s require_fill d = execute_signal ex auto_execute true s require_fill d

-- The broker, the orders and the rows of the positions are as they were.
abbrev pub SameDesk : {F B : Type 0} → Desk F B → Desk F B → Type 0
SameDesk d e = (e.broker ≡ d.broker) × (e.orders ≡ d.orders) × (e.positions.rows ≡ d.positions.rows)

abbrev Weak : {F : Type 0} → AgentSignal F → Type 0
Weak s = is_strong s.signal_type ≡ false

is_entry_type-is_strong :
    (long_only : Bool) (type : TypeValue)
    → is_entry_type long_only type ≡ true
    → is_strong type ≡ false
is_entry_type-is_strong long_only (TypeValue.member type) h = cc
is_entry_type-is_strong long_only TypeValue.strong_buy_text h = refl
is_entry_type-is_strong long_only TypeValue.strong_sell_text h = refl
is_entry_type-is_strong long_only TypeValue.other_text h = refl

module _ {F : Type 0} ⦃fl : Floats F⦄ where
  keep-Weak :
      (settings : AgentSettings F) (ss : List (AgentSignal F))
      → All Weak (keep (wanted settings) ss)
  keep-Weak settings [] = tt
  keep-Weak settings (s ∷ ss) = elim (Bool-cases (wanted settings s)) [
    | inl e ↦
        let entry : is_entry_type settings.long_only s.signal_type ≡ true = ground (arith, e) in
        rw e (is_entry_type-is_strong settings.long_only s.signal_type entry, keep-Weak settings ss)
    | inr e ↦ rw e (keep-Weak settings ss)
  ]

  untaken-Weak :
      (ss : List (AgentSignal F)) (p : Positions F)
      → All Weak ss
      → All Weak (untaken ss p).0 × ((untaken ss p).1.rows ≡ p.rows)
  unfolding untaken get_position
  untaken-Weak [] p h = (tt, refl)
  untaken-Weak (s ∷ ss) p (h, hs) =
      let (rest, same) = untaken-Weak ss (get_position s.ticker p).1 hs in
      elim (Bool-cases (is_some (get_position s.ticker p).0)) [
        | inl e ↦ rw e (rest, same)
        | inr e ↦ rw e ((h, rest), same)
      ]

module _ {F B : Type 0} (ex : Exchange F B) ⦃fl : Floats F⦄ (auto_execute : Bool)
    (settings : AgentSettings F) (now : ℕ) where
  service-Weak :
      (s : AgentSignal F) (require_fill : Bool) (d : Desk F B)
      → Weak s
      → service ex auto_execute s require_fill d ≡ (ok none, d)
  unfolding execute_signal
  service-Weak s require_fill d h = rw (execute_signal, h) refl

  enter-Weak :
      (s : AgentSignal F) (d : Desk F B)
      → Weak s
      → enter (service ex auto_execute) settings now s d ≡ (ok false, d)
  unfolding enter
  enter-Weak s d h = elim (Bool-cases (fl.le (given s.position_size) nought)) [
    | inl e ↦ rw (enter, e) refl
    | inr e ↦
        let idle = service-Weak s settings.require_fill d h in rw (enter, e, idle) (rw idle refl)
  ]

  enter_all-Weak :
      (slots : ℕ) (ss : List (AgentSignal F)) (d : Desk F B)
      → All Weak ss
      → enter_all (service ex auto_execute) settings now slots ss d ≡ (ok tt, d)
  unfolding enter_all
  enter_all-Weak slots [] d h = refl
  enter_all-Weak zero (s ∷ ss) d h = refl
  enter_all-Weak (suc slots) (s ∷ ss) d (h, hs) =
      let entered = enter-Weak s d h in
      let took = ap (λ x. x.0) entered in
      let desk = ap (λ x. x.1) entered in
      rw (enter_all, took) (rw (took, desk) (enter_all-Weak (suc slots) ss d hs))

  enter_within-SameDesk :
      (signals : List (AgentSignal F)) (d : Desk F B)
      → SameDesk d (enter_within (service ex auto_execute) settings now signals d).1
  unfolding enter_within
  enter_within-SameDesk signals d =
      let p1 = (get_daily_trade_count now d.positions).1 in
      let p2 = (get_open_positions p1).1 in
      let ss = keep (wanted settings) signals in
      let (weak, same) = untaken-Weak ss p2 (keep-Weak settings signals) in
      let e = record d { positions = (untaken ss p2).1 } in
      elim (Bool-cases (leb settings.max_daily_trades (get_daily_trade_count now d.positions).0)) [
        | inl f ↦ rw (enter_within, f) (refl, refl, refl)
        | inr f ↦
            elim (Bool-cases (leb settings.max_open_positions (length (get_open_positions p1).0))) [
              | inl g ↦ rw (enter_within, f, g) (refl, refl, refl)
              | inr g ↦
                  rw (enter_within, f, g)
                    (rw (enter_all-Weak _ (untaken ss p2).0 e weak) (refl, refl, same))
            ]
      ]

module _ {F B : Type 0} (ex : Exchange F B) ⦃fl : Floats F⦄ where
  -- With the execution service of the program, `_check_entries` enters nothing: whatever the signals
  -- are (of any member of `SignalType`, or of any text), whatever the settings, the state of the
  -- agent and the answers of the broker and the database, it asks the broker for nothing, writes no
  -- order, and leaves the rows of the positions as they are. A member's text is in no set that the
  -- agent allows, and a text is no member that the service takes.
  pub check_entries-deaf :
      (auto_execute : Bool) (settings : AgentSettings F) (now : ℕ) (clock : F)
      (signals : List (AgentSignal F)) (a : TradingAgent F B)
      → SameDesk a.desk
          (check_entries (service ex auto_execute) settings now clock signals a).1.desk
  unfolding check_entries
  check_entries-deaf auto_execute settings now clock signals a =
      let same = can_trade-desk clock a in
      elim (Bool-cases (can_trade clock a).0) [
        | inl e ↦
            rw (check_entries, e, same)
              (enter_within-SameDesk ex auto_execute settings now signals a.desk)
        | inr e ↦ rw (check_entries, e, same) (refl, refl, refl)
      ]
