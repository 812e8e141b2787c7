-- ===== src/Agent/Control/Timers.antt =====
-- The timers that end the pauses of agent/trading_agent.py, among all that may happen meanwhile.
use bist_bot.Common.{
  ℕ, ◌+◌, ◌≤◌, ◌≡◌, refl, ◌∙◌, inl, inr, Bool, true, false, Option, List, [], ◌∷◌, if◌then◌else◌,
  ◌==◌, not, ◌||◌, any, Dict, Bool-cases, arith,
}
use bist_bot.Common.Floats.{Floats, Decimals}
use bist_bot.Execution.Raises.{Result, ok, err, Action}
use bist_bot.Agent.Exits.{Market}
use bist_bot.Agent.Desk.{Exchange, Desk}
use bist_bot.Agent.Service.{AgentSignal, ExecutionAttempt}
use bist_bot.Agent.Trading.{
  AgentOperationalState, is_halted, is_paused, AgentSettings, TradingAgent, can_trade,
  check_entries,
}
use bist_bot.Agent.Control.{
  check_exits, rested, after_entries, on_scan_completed, emergency_stop, monitor_cycle, pause,
  resume, ensure_monitor_running, timer_passes, Timed, timer_tests, timer_resumes,
}

-- What happens to the agent: a command, whose writes to the state are under its lock, a scan, a round of
-- the monitor, anything else that they do meanwhile to the agent, which never counts the resumes, the test
-- of the timer of some generation, or the resume of a timer that has passed its test.
pub data Happening (F B : Type 0) : Type 0 where
  stopped : ℕ → (List ℕ → Dict F) → Happening F B
  paused : Happening F B
  resumed : Happening F B
  scanned : ℕ → F → (List ℕ → Market F) → List (AgentSignal F) → Happening F B
  monitored : ℕ → (List ℕ → Market F) → Happening F B
  meanwhile : (TradingAgent F B → TradingAgent F B) → Happening F B
  tested : ℕ → Happening F B
  fired : Happening F B

abbrev pub is_command : {F B : Type 0} → Happening F B → Bool
is_command (Happening.stopped now fetch) = true
is_command Happening.paused = true
is_command Happening.resumed = true
is_command _ = false

module _ {F B : Type 0} (ex : Exchange F B) ⦃fl : Floats F⦄ ⦃dc : Decimals F⦄
    (execute : AgentSignal F → Bool → Action (Desk F B) (Option (ExecutionAttempt F)))
    (settings : AgentSettings F) where
  pub happen : Happening F B → Timed F B → Timed F B
  unfolding emergency_stop pause resume on_scan_completed monitor_cycle timer_tests timer_resumes
  happen (Happening.stopped now fetch) w = record w {
    agent = emergency_stop ex settings now fetch w.agent;
  }
  happen Happening.paused w = record w { agent = pause w.agent }
  happen Happening.resumed w = record w { agent = resume settings w.agent }
  happen (Happening.scanned now clock fetch signals) w = record w {
    agent = (on_scan_completed ex execute settings now clock fetch signals w.agent).1;
  }
  happen (Happening.monitored now fetch) w = record w {
    agent = monitor_cycle ex settings now fetch w.agent;
  }
  happen (Happening.meanwhile change) w = record w {
    agent = record (change w.agent) { resume_generation = w.agent.resume_generation };
  }
  happen (Happening.tested generation) w = timer_tests generation w
  happen Happening.fired w = timer_resumes settings w

  pub happen_all : List (Happening F B) → Timed F B → Timed F B
  unfolding happen
  happen_all [] w = w
  happen_all (h ∷ hs) w = happen_all hs (happen h w)

  check_entries-generation :
      (now : ℕ) (clock : F) (signals : List (AgentSignal F)) (a : TradingAgent F B)
      → (check_entries execute settings now clock signals a).1.resume_generation
        ≡ a.resume_generation
  unfolding check_entries can_trade
  check_entries-generation now clock signals a = ground arith

  rested-generation : (a : TradingAgent F B) → (rested ex a).resume_generation ≡ a.resume_generation
  rested-generation a = ground arith

  after_entries-generation :
      (r : Result (Unit {0})) (a : TradingAgent F B)
      → (after_entries ex r a).1.resume_generation ≡ a.resume_generation
  after_entries-generation (err e) a = refl
  after_entries-generation (ok done) a = rested-generation a

  resume-generation :
      (a : TradingAgent F B) → (resume settings a).resume_generation ≡ a.resume_generation + 1
  unfolding resume ensure_monitor_running
  resume-generation a = ground arith

  on_scan_completed-generation :
      (now : ℕ) (clock : F) (fetch : List ℕ → Market F) (signals : List (AgentSignal F))
      (a : TradingAgent F B)
      → (on_scan_completed ex execute settings now clock fetch signals a).1.resume_generation
        ≡ a.resume_generation
  unfolding on_scan_completed
  on_scan_completed-generation now clock fetch signals a =
      let state =
        if is_paused a.state
        then AgentOperationalState.paused
        else AgentOperationalState.monitoring in
      let a1 = record a { state = state; desk = check_exits ex settings now fetch a.desk } in
      let entered = check_entries execute settings now clock signals a1 in
      let same = check_entries-generation now clock signals a1 in
      elim (Bool-cases (not settings.agent_enabled || is_halted a.state)) [
        | inl e ↦ rw (on_scan_completed, e) refl
        | inr e ↦ elim (Bool-cases (is_paused a1.state)) [
          | inl f ↦ rw (on_scan_completed, e, f) (rested-generation a1)
          | inr f ↦
              rw (on_scan_completed, e, f) (after_entries-generation entered.0 entered.1 ∙ same)
        ]
      ]

  timer_resumes-generation :
      (w : Timed F B)
      → w.agent.resume_generation ≤ (timer_resumes settings w).agent.resume_generation
  unfolding timer_resumes
  timer_resumes-generation w = ground (arith, resume-generation w.agent)

  -- Nothing takes the generation back, and a command moves it on.
  happen-generation :
      (h : Happening F B) (w : Timed F B)
      → w.agent.resume_generation + (if is_command h then 1 else 0)
        ≤ (happen h w).agent.resume_generation
  unfolding happen
  happen-generation (Happening.stopped now fetch) w = unfold emergency_stop in omega arith
  happen-generation Happening.paused w = unfold pause in omega arith
  happen-generation Happening.resumed w = omega (arith, resume-generation w.agent)
  happen-generation (Happening.scanned now clock fetch signals) w =
      omega (arith, on_scan_completed-generation now clock fetch signals w.agent)
  happen-generation (Happening.monitored now fetch) w = unfold monitor_cycle in ground arith
  happen-generation (Happening.meanwhile change) w = omega arith
  happen-generation (Happening.tested generation) w = unfold timer_tests in ground arith
  happen-generation Happening.fired w = omega (arith, timer_resumes-generation w)

  happen_all-generation :
      (hs : List (Happening F B)) (w : Timed F B)
      → w.agent.resume_generation + (if any is_command hs then 1 else 0)
        ≤ (happen_all hs w).agent.resume_generation
  unfolding happen_all
  happen_all-generation [] w = omega arith
  happen_all-generation (h ∷ hs) w =
      ground (arith, happen-generation h w, happen_all-generation hs (happen h w))

  -- The timer of a pause gives up if the operator has given another command before its test: whatever
  -- scans, rounds of the monitor, other timers and commands came after the pause, in whole or in part, if
  -- a stop, a pause or a resume is among them, the test of the timer leaves everything as it is, and no
  -- resume is due by it.
  pub timer_tests-stale :
      (hs : List (Happening F B)) (a : TradingAgent F B) (due : ℕ)
      → any is_command hs ≡ true
      → let later = happen_all hs (record { agent = pause a; due = due }) in
        timer_tests (pause a).resume_generation later ≡ later
  unfolding timer_tests timer_passes
  timer_tests-stale hs a due given =
      let start : Timed F B = record { agent = pause a; due = due } in
      let moved = happen_all-generation hs start in
      let later = happen_all hs start in
      let past : ((pause a).resume_generation == later.agent.resume_generation) ≡ false =
        ground (arith, moved, given) in
      rw (timer_tests, past) refl

  resume_alive :
      (a : TradingAgent F B)
      → a.monitor_alive ≡ true
      → resume settings a ≡ record a {
        state = AgentOperationalState.idle;
        resume_generation = a.resume_generation + 1;
      }
  unfolding resume ensure_monitor_running
  resume_alive a alive = ground (arith, alive)

  -- A stop and a resume before the next round of the monitor leave the agent without one: where the
  -- thread has not ended yet, `resume` starts none, and the thread ends in its next round, in which
  -- it checks no exits, although the agent trades again.
  pub resume-ends_monitor :
      (now later : ℕ) (prices : List ℕ → Dict F) (fetch : List ℕ → Market F) (a : TradingAgent F B)
      → a.monitor_alive ≡ true
      → let resumed = resume settings (emergency_stop ex settings now prices a) in
        let after = monitor_cycle ex settings later fetch resumed in
        (after.monitor_alive ≡ false)
        × (after.state ≡ AgentOperationalState.idle)
        × (after.desk ≡ resumed.desk)
  unfolding monitor_cycle emergency_stop
  resume-ends_monitor now later prices fetch a alive =
      rw (resume_alive (emergency_stop ex settings now prices a) alive) (refl, refl, refl)
