-- ===== src/Agent/Exits.antt =====
-- The exit conditions of src/bist_bot/agent/position_manager.py.
use bist_bot.Common.{
  ℕ, ◌-◌, ◌/◌, ◌≡◌, refl, ◌∙◌, inl, inr, Bool, true, false, Option, none, some, List, [], ◌∷◌,
  if◌then◌else◌, ◌==◌, leb, ◌&&◌, ◌||◌, is_some, Dict, lookup, any, arith, Option-cases,
}
use bist_bot.Common.Floats.{Floats, IsOrdered, nought}
use bist_bot.Agent.Positions.{
  LivePosition, Positions, ExitReason, fails, is_position_open, get_open_positions,
  update_stop_loss,
}
use bist_bot.Agent.Positions.Listed.{Listed, get_open_positions-Listed}

-- The settings that the check reads.
pub record ExitSettings (F : Type 0) : Type 0 where
  pub trailing_stop_enabled : Bool
  pub trailing_atr_mult : F
  pub max_holding_days : ℕ

-- What the caller knows of the market: the prices, the ranges, and daily closes by date.
pub record Market (F : Type 0) : Type 0 where
  pub prices : Dict F
  pub atr_map : Dict F
  pub closes_map : Dict (List (ℕ × F))

pub record Trigger (F : Type 0) : Type 0 where
  pub position_id : ℕ
  pub ticker : ℕ
  pub exit_reason : ExitReason
  pub current_price : F
  pub entry_price : F
  pub quantity : F
  pub pnl_pct : F

module _ {F : Type 0} ⦃fl : Floats F⦄ where
  open fl use {lit, lt, le, eq, sub, mul, div, round}

  -- The highest of the price and the closes since the entry.
  unfoldable pub peak_of : ℕ → List (ℕ × F) → F → F
  peak_of entry_day [] peak = peak
  peak_of entry_day ((bar_day, close) ∷ bars) peak =
      peak_of entry_day bars (if leb entry_day bar_day && lt peak close then close else peak)

  -- The trailing stop, where there is one and it is above the stored stop.
  unfoldable pub trail_of : ExitSettings F → Market F → F → LivePosition F → Option F
  unfolding peak_of
  trail_of settings market price r = elim (lookup r.ticker market.atr_map) [
    | none ↦ none
    | some atr ↦
        let peak =
          peak_of (r.entry_time / 86_400)
            (elim (lookup r.ticker market.closes_map) [ none ↦ [] | some bars ↦ bars ]) price in
        let trail = sub peak (mul settings.trailing_atr_mult atr) in
        if (settings.trailing_stop_enabled && lt nought settings.trailing_atr_mult)
          && ((elim market.closes_map [ [] ↦ false | e ∷ d ↦ true ])
              && (lt nought atr && lt r.stop_loss trail))
        then some trail
        else none
  ]

  -- The first reason to leave a position, with the stop in force.
  unfoldable pub reason_of : ExitSettings F → ℕ → F → F → LivePosition F → Option ExitReason
  reason_of settings now price stop_loss r =
      if le price stop_loss
      then some (if lt r.stop_loss stop_loss then ExitReason.trailing_stop else ExitReason.stop_hit)
      else (if le r.target_price price
          then some ExitReason.target_hit
          else (if leb r.entry_time now
                && leb settings.max_holding_days ((now - r.entry_time) / 86_400)
              then some ExitReason.max_holding_days
              else none))

  unfoldable pub trigger_of : ExitReason → F → LivePosition F → Trigger F
  trigger_of reason price r = record {
    position_id = r.id;
    ticker = r.ticker;
    exit_reason = reason;
    current_price = price;
    entry_price = r.entry_price;
    quantity = r.quantity;
    pnl_pct =
        if eq r.entry_price nought
        then nought
        else round (mul (div (sub price r.entry_price) r.entry_price) (lit 100 0)) 2;
  }

  abbrev pub add_trigger :
      Option ExitReason → F → LivePosition F → List (Trigger F) → List (Trigger F)
  add_trigger none price r ts = ts
  add_trigger (some reason) price r ts = trigger_of reason price r ∷ ts

  -- The stop in force.
  abbrev pub stop_of : Option F → LivePosition F → F
  stop_of none r = r.stop_loss
  stop_of (some trail) r = trail

  abbrev pub persist : ℕ → Option F → LivePosition F → Positions F → Positions F
  persist now none r p = p
  persist now (some trail) r p = update_stop_loss now r.id trail p

  -- The loop of `check_exit_conditions` over the open positions.
  unfoldable pub check_positions :
      ExitSettings F
      → Market F
      → ℕ
      → List (LivePosition F)
      → Positions F
      → List (Trigger F) × Positions F
  unfolding trail_of reason_of trigger_of update_stop_loss
  check_positions settings market now [] p = ([], p)
  check_positions settings market now (r ∷ rs) p = elim (lookup r.ticker market.prices) [
    | none ↦ check_positions settings market now rs p
    | some price ↦
        let trail = trail_of settings market price r in
        let (ts, p1) = check_positions settings market now rs (persist now trail r p) in
        (add_trigger (reason_of settings now price (stop_of trail r) r) price r ts, p1)
  ]

  unfoldable pub check_exit_conditions :
      ExitSettings F → Market F → ℕ → Positions F → List (Trigger F) × Positions F
  unfolding get_open_positions check_positions
  check_exit_conditions settings market now p =
      let (open_positions, p1) = get_open_positions p in
      check_positions settings market now open_positions p1

  trail_of-above :
      (settings : ExitSettings F) (market : Market F) (price trail : F) (r : LivePosition F)
      → trail_of settings market price r ≡ some trail
      → lt r.stop_loss trail ≡ true
  unfolding trail_of
  trail_of-above settings market price trail r e =
      elim (Option-cases (lookup r.ticker market.atr_map)) [
        | inl g ↦ absurd (ground (arith, e, g))
        | inr (atr, g) ↦ ground (arith, e, g)
      ]

  -- A price at or below the stored stop is a reason to leave, whether or not there is a trailing stop.
  reason_of-stop :
      (o : IsOrdered F) (settings : ExitSettings F) (now : ℕ) (market : Market F) (price : F)
      (r : LivePosition F)
      → le price r.stop_loss ≡ true
      → is_some (reason_of settings now price (stop_of (trail_of settings market price r) r) r)
        ≡ true
  unfolding reason_of
  reason_of-stop o settings now market price r h =
      elim (Option-cases (trail_of settings market price r)) [
        | inl e ↦ rw (e, h) refl
        | inr (trail, e) ↦
            let above = trail_of-above settings market price trail r e in
            let hit = o.le_trans price r.stop_loss trail h (o.le_of_lt r.stop_loss trail above) in
            rw (e, hit) refl
      ]

  abbrev pub is_for : ℕ → Trigger F → Bool
  is_for id t = t.position_id == id

  any-add_trigger :
      (id : ℕ) (reason : Option ExitReason) (price : F) (r : LivePosition F) (ts : List (Trigger F))
      → any (is_for id) (add_trigger reason price r ts)
        ≡ ((is_some reason && (r.id == id)) || any (is_for id) ts)
  unfolding trigger_of
  any-add_trigger id none price r ts = refl
  any-add_trigger id (some reason) price r ts = refl

  pub check_positions-stop :
      (o : IsOrdered F) (settings : ExitSettings F) (market : Market F) (now : ℕ)
      (r : LivePosition F) (price : F) {rs : List (LivePosition F)} (p : Positions F)
      → lookup r.ticker market.prices ≡ some price
      → le price r.stop_loss ≡ true
      → Listed r rs
      → any (is_for r.id) (check_positions settings market now rs p).0 ≡ true
  unfolding check_positions
  check_positions-stop o settings market now r price p known hit (Listed.first ss) =
      let trail = trail_of settings market price r in
      let ts = (check_positions settings market now ss (persist now trail r p)).0 in
      let same : (r.id == r.id) ≡ true = ground arith in
      let sure = reason_of-stop o settings now market price r hit in
      let added =
        any-add_trigger r.id (reason_of settings now price (stop_of trail r) r) price r ts in
      rw (check_positions, known) (added ∙ (rw (sure, same) refl))
  check_positions-stop o settings market now r price p known hit (Listed.later s {rs} listed) =
      elim (Option-cases (lookup s.ticker market.prices)) [
        | inl e ↦
            rw (check_positions, e)
              (check_positions-stop o settings market now r price p known hit listed)
        | inr (q, e) ↦
            let trail = trail_of settings market q s in
            let p1 = persist now trail s p in
            let ts = (check_positions settings market now rs p1).0 in
            let rest = check_positions-stop o settings market now r price p1 known hit listed in
            let added =
              any-add_trigger r.id (reason_of settings now q (stop_of trail s) s) q s ts in
            rw (check_positions, e) (ground (arith, rest, added))
      ]

  -- Where the table of the positions can be read, an open position of the table whose price is known
  -- and not above its stored stop gets a trigger, whatever else is checked and whether or not there is
  -- a trailing stop. The floats are ordered.
  pub check_exit_conditions-stop :
      (o : IsOrdered F) (settings : ExitSettings F) (market : Market F) (now : ℕ) (p : Positions F)
      (r : LivePosition F) (price : F)
      → fails p ≡ false
      → Listed r p.rows
      → is_position_open r.state ≡ true
      → lookup r.ticker market.prices ≡ some price
      → le price r.stop_loss ≡ true
      → any (is_for r.id) (check_exit_conditions settings market now p).0 ≡ true
  unfolding check_exit_conditions
  check_exit_conditions-stop o settings market now p r price read held live known hit =
      check_positions-stop o settings market now r price (get_open_positions p).1 known hit
        (get_open_positions-Listed p r read held live)
