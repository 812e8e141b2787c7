-- ===== src/Agent/Trading/Limits.antt =====
-- How many positions the agent of agent/trading_agent.py enters.
use bist_bot.Common.{
  ℕ, zero, suc, ◌+◌, ◌-◌, ◌/◌, ◌≤◌, ◌≡◌, refl, ap, ◌⊎◌, inl, inr, Bool, false, Option, List, [],
  ◌∷◌, ◌==◌, leb, keep, length, or_else, Bool-cases, Option-cases, arith,
}
use bist_bot.Common.Floats.{Floats, nought}
use bist_bot.Execution.Raises.{Action, Result-cases}
use bist_bot.Agent.Positions.{
  LivePosition, Positions, is_position_open, get_position, get_open_positions,
  get_daily_trade_count,
}
use bist_bot.Agent.Positions.Counts.{
  count, open_count, day_count, length-get_open_positions, get_daily_trade_count_lem,
  count-open_position,
}
use bist_bot.Agent.Desk.{Desk}
use bist_bot.Agent.Service.{AgentSignal, ExecutionAttempt}
use bist_bot.Agent.Trading.{
  AgentSettings, TradingAgent, can_trade, given, open_attempt, untaken, enter, slots_after,
  enter_all, wanted, enter_within, check_entries, min_ℕ,
}

module _ {F B : Type 0} ⦃fl : Floats F⦄ where
  -- An execution service leaves the positions to the agent.
  abbrev pub LeavesPositions :
      (AgentSignal F → Bool → Action (Desk F B) (Option (ExecutionAttempt F))) → Type 0
  LeavesPositions execute =
      (s : AgentSignal F) (require_fill : Bool) (d : Desk F B)
      → (execute s require_fill d).1.positions ≡ d.positions

module _ {F : Type 0} ⦃fl : Floats F⦄ where
  untaken-rows : (ss : List (AgentSignal F)) (p : Positions F) → (untaken ss p).1.rows ≡ p.rows
  unfolding untaken get_position
  untaken-rows [] p = refl
  untaken-rows (s ∷ ss) p = untaken-rows ss (get_position s.ticker p).1

  count-open_attempt :
      (test : LivePosition F → Bool) (now : ℕ) (s : AgentSignal F) (attempt : ExecutionAttempt F)
      (p : Positions F)
      → count test (open_attempt now s attempt p) ≤ count test p + 1
  unfolding open_attempt
  count-open_attempt test now s attempt p = ground (
    arith,
    count-open_position test now s.ticker (or_else attempt.order_db_id 0)
        (or_else attempt.fill_price s.price) (given s.position_size) (given s.stop_loss)
        (given s.target_price) p,
  )

module _ {F B : Type 0} ⦃fl : Floats F⦄
    (execute : AgentSignal F → Bool → Action (Desk F B) (Option (ExecutionAttempt F)))
    (leaves : LeavesPositions execute) (test : LivePosition F → Bool) (settings : AgentSettings F)
    (now : ℕ) where
  open fl use {le}

  -- A signal adds one row at most, and only with a slot.
  count-enter :
      (s : AgentSignal F) (slots : ℕ) (d : Desk F B)
      → let after = enter execute settings now s d in
        count test after.1.positions + slots_after after.0 slots
        ≤ count test d.positions + suc slots
  unfolding enter
  count-enter s slots d = elim (Bool-cases (le (given s.position_size) nought)) [
    | inl e ↦ rw (enter, e) (omega arith)
    | inr e ↦
        let same = leaves s settings.require_fill d in
        let (r, d1) = execute s settings.require_fill d in
        elim (Result-cases r) [
          | inr (failure, f) ↦ rw (enter, e, f, same) (omega arith)
          | inl (answer, f) ↦ elim (Option-cases answer) [
            | inl g ↦ rw (enter, e, f, g, same) (omega arith)
            | inr (attempt, g) ↦ elim (Bool-cases attempt.accepted) [
              | inl h ↦
                  let one = count-open_attempt test now s attempt d.positions in
                  rw (enter, e, f, g, h, same) (omega (arith, one))
              | inr h ↦ rw (enter, e, f, g, h, same) (omega arith)
            ]
          ]
        ]
  ]

  count-enter_all :
      (slots : ℕ) (ss : List (AgentSignal F)) (d : Desk F B)
      → count test (enter_all execute settings now slots ss d).1.positions
        ≤ count test d.positions + slots
  unfolding enter_all
  count-enter_all slots [] d = omega arith
  count-enter_all zero (s ∷ ss) d = omega arith
  count-enter_all (suc slots) (s ∷ ss) d =
      let entered = enter execute settings now s d in
      let one = count-enter s slots d in
      let rest = count-enter_all (slots_after entered.0 slots) ss entered.1 in
      elim (Result-cases entered.0) [
        | inl (took, e) ↦ rw (enter_all, e) (omega (arith, one, rest))
        | inr (failure, e) ↦ rw (enter_all, e) (omega (arith, one))
      ]

  -- What the entries add, where they are made at all.
  count-enter_within :
      (signals : List (AgentSignal F)) (d : Desk F B)
      → d.positions.faults ≡ []
      → let after = count test (enter_within execute settings now signals d).1.positions in
        let daily = day_count now d.positions in
        let held = open_count d.positions in
        (after ≡ count test d.positions)
        ⊎ ((leb settings.max_daily_trades daily ≡ false)
            × (leb settings.max_open_positions held ≡ false)
            × (after
                ≤ count test d.positions
                  + min_ℕ (settings.max_daily_trades - daily) (settings.max_open_positions - held)))
  unfolding enter_within
  count-enter_within signals d calm =
      let p = d.positions in
      let p1 = (get_daily_trade_count now p).1 in
      let calm1 : p1.faults ≡ [] = rw calm refl in
      let daily = get_daily_trade_count_lem now p calm in
      let held = length-get_open_positions p1 calm1 in
      elim (Bool-cases (leb settings.max_daily_trades (day_count now p))) [
        | inl e ↦ inl (rw (enter_within, daily, e) refl)
        | inr e ↦ elim (Bool-cases (leb settings.max_open_positions (open_count p))) [
          | inl f ↦ inl (rw (enter_within, daily, e, held, f) refl)
          | inr f ↦
              let p2 = (get_open_positions p1).1 in
              let chosen = untaken (keep (wanted settings) signals) p2 in
              let same : count test chosen.1 ≡ count test p =
                ap (λ rs. length (keep test rs))
                  (untaken-rows (keep (wanted settings) signals) p2) in
              let f1 : leb settings.max_open_positions (open_count p1) ≡ false = f in
              let slots =
                min_ℕ (settings.max_daily_trades - day_count now p)
                  (settings.max_open_positions - open_count p) in
              let added = count-enter_all slots chosen.0 (record d { positions = chosen.1 }) in
              inr (e, f, rw (enter_within, daily, e, held, f1) (omega (arith, same, added)))
        ]
      ]

module _ {F B : Type 0} ⦃fl : Floats F⦄ where
  pub can_trade-desk : (clock : F) (a : TradingAgent F B) → (can_trade clock a).1.desk ≡ a.desk
  unfolding can_trade
  can_trade-desk clock a = ground arith

module _ {F B : Type 0} ⦃fl : Floats F⦄
    (execute : AgentSignal F → Bool → Action (Desk F B) (Option (ExecutionAttempt F)))
    (leaves : LeavesPositions execute) where
  -- While the database of the positions answers, and whatever the execution service (which leaves
  -- the positions alone) answers to each order: where the open positions are at most
  -- MAX_OPEN_POSITIONS and those of today at most MAX_DAILY_TRADES, both still hold after any
  -- signals were entered, on every way out of `_check_entries`.
  pub check_entries-limits :
      (settings : AgentSettings F) (now : ℕ) (clock : F) (signals : List (AgentSignal F))
      (a : TradingAgent F B)
      → a.desk.positions.faults ≡ []
      → open_count a.desk.positions ≤ settings.max_open_positions
      → day_count now a.desk.positions ≤ settings.max_daily_trades
      → let p = (check_entries execute settings now clock signals a).1.desk.positions in
        (open_count p ≤ settings.max_open_positions) × (day_count now p ≤ settings.max_daily_trades)
  unfolding check_entries
  check_entries-limits settings now clock signals a calm few rare =
      let open_test = λ (r : LivePosition F). is_position_open r.state in
      let day_test = λ (r : LivePosition F). r.entry_time / 86_400 == now / 86_400 in
      let opened = count-enter_within execute leaves open_test settings now signals a.desk calm in
      let dated = count-enter_within execute leaves day_test settings now signals a.desk calm in
      let same = can_trade-desk clock a in
      elim (Bool-cases (can_trade clock a).0) [
        | inl e ↦ rw (check_entries, e, same) (ground (arith, opened), ground (arith, dated))
        | inr e ↦ rw (check_entries, e, same) (few, rare)
      ]
