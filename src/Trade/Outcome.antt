-- ===== src/Trade/Outcome.antt =====
-- src/bist_bot/trade_contract.py, with CostSchedule of src/bist_bot/risk/costs.py. Dates are numbers; a
-- ValueError is `none`. The rates are those of a schedule for which no division by zero arises.
use bist_bot.Common.{
  ℕ, zero, suc, ◌+◌, ◌-◌, Bool, true, false, Option, none, some, List, [], ◌∷◌, if◌then◌else◌, ◌==◌,
  ltb, leb, not, ◌&&◌, ◌||◌, or_else, length,
}
use bist_bot.Common.Int.{ℤ, pos, leb_ℤ}
use bist_bot.Common.Floats.{Floats, nought, fmax}

-- (open, high, low, close)
pub record Session (F : Type 0) : Type 0 where
  pub open_p : F
  pub high_p : F
  pub low_p : F
  pub close_p : F

pub data ExitReason : Type 0 where
  stop target stop_gap target_gap same_bar_stop_first max_hold data_end : ExitReason

pub record CostSchedule (F : Type 0) : Type 0 where
  pub commission_bps : F
  pub bsmv_pct : F
  pub exchange_fee_bps : F
  pub half_spread_bps : F
  pub slippage_bps : F
  pub stamp_tax_bps : F
  pub min_commission_tl : F

pub record TradeOutcome (F : Type 0) : Type 0 where
  pub entry_date : Option ℕ
  pub exit_date : Option ℕ
  pub entry_ref_price : F
  pub exit_ref_price : F
  pub entry_fill : F
  pub exit_fill : F
  pub exit_reason : ExitReason
  pub shares : ℤ
  pub holding_sessions : ℕ
  pub notional_tl : F
  pub gross_profit_tl : F
  pub profit_tl : F
  pub profit_pct : F
  pub commission_tl : F
  pub bsmv_tl : F
  pub exchange_fee_tl : F
  pub stamp_tax_tl : F
  pub spread_impact_tl : F
  pub slippage_impact_tl : F
  pub total_cost_tl : F

-- Where a round trip ends: the session's index, the reason, and the reference price.
pub record Exit (F : Type 0) : Type 0 where
  pub index : ℕ
  pub reason : ExitReason
  pub ref_price : F

unfoldable pub at {ℓ} : {A : Type ℓ} → ℕ → List A → Option A
at n [] = none
at zero (x ∷ xs) = some x
at (suc n) (x ∷ xs) = at n xs

abbrev pub smaller : ℕ → ℕ → ℕ
smaller a b = if ltb b a then b else a

abbrev pub has_length : ℕ → Option (List ℕ) → Bool
has_length n none = true
has_length n (some ids) = length ids == n

module _ {F : Type 0} ⦃fl : Floats F⦄ where
  open fl use {lit, lt, le, eq, add, sub, mul, div, trunc, of_int}

  -- A level that is given and positive.
  abbrev pub active : Option F → Bool
  active none = false
  active (some level) = lt nought level

  -- What triggers in a session, gaps first, and the stop before the target.
  unfoldable pub trigger : Option F → Option F → Session F → Option (ExitReason × F)
  trigger stop_price target_price s =
      let stop_level = or_else stop_price nought in
      let target_level = or_else target_price nought in
      let stop_hit = active stop_price && le s.low_p stop_level in
      let target_hit = active target_price && le target_level s.high_p in
      if active stop_price && le s.open_p stop_level
      then some (ExitReason.stop_gap, s.open_p)
      else (if active target_price && le target_level s.open_p
          then some (ExitReason.target_gap, s.open_p)
          else (if stop_hit && target_hit
              then some (ExitReason.same_bar_stop_first, stop_level)
              else (if stop_hit
                  then some (ExitReason.stop, stop_level)
                  else (if target_hit then some (ExitReason.target, target_level) else none))))

  -- The loop over the first sessions: how many are left, and the index of the next.
  unfoldable pub scan : Option F → Option F → ℕ → ℕ → List (Session F) → Option (Exit F)
  unfolding trigger
  scan stop_price target_price zero bar_index sessions = none
  scan stop_price target_price (suc n) bar_index [] = none
  scan stop_price target_price (suc n) bar_index (s ∷ sessions) =
      elim (trigger stop_price target_price s) [
        | some (reason, price) ↦
            some (record { index = bar_index; reason = reason; ref_price = price })
        | none ↦ scan stop_price target_price n (bar_index + 1) sessions
      ]

  abbrev pub close_at : ℕ → List (Session F) → F
  close_at n sessions = elim (at n sessions) [ none ↦ nought | some s ↦ s.close_p ]

  -- The last session that may be held, and why.
  unfoldable pub fallback : ℕ → List (Session F) → Exit F
  unfolding at
  fallback max_hold_sessions sessions =
      if leb max_hold_sessions (length sessions)
      then record {
        index = max_hold_sessions - 1;
        reason = ExitReason.max_hold;
        ref_price = close_at (max_hold_sessions - 1) sessions;
      }
      else record {
        index = length sessions - 1;
        reason = ExitReason.data_end;
        ref_price = close_at (length sessions - 1) sessions;
      }

  unfoldable pub exit_of : Option F → Option F → ℕ → List (Session F) → Exit F
  unfolding scan fallback
  exit_of stop_price target_price max_hold_sessions sessions =
      or_else
        (scan stop_price target_price (smaller (length sessions) max_hold_sessions) 0 sessions)
        (fallback max_hold_sessions sessions)

  abbrev pub bps : F
  bps = lit 10_000 0

  abbrev pub one : F
  one = lit 1 0

  -- The outcome for a number of shares and an exit.
  unfoldable pub outcome_for : F → CostSchedule F → ℤ → Option (List ℕ) → Exit F → TradeOutcome F
  unfolding at
  outcome_for entry_price costs shares session_ids e =
      let half_spread_rate = div costs.half_spread_bps bps in
      let slippage_rate = div costs.slippage_bps bps in
      let execution_rate = add half_spread_rate slippage_rate in
      let n = of_int shares in
      let entry_fill = mul entry_price (add one execution_rate) in
      let entry_deployed = mul n entry_fill in
      let commission_e =
        fmax (div (mul entry_deployed costs.commission_bps) bps) costs.min_commission_tl in
      let bsmv_e = div (mul commission_e costs.bsmv_pct) (lit 100 0) in
      let exchange_e = div (mul entry_deployed costs.exchange_fee_bps) bps in
      let exit_fill = mul e.ref_price (sub one execution_rate) in
      let exit_notional = mul n exit_fill in
      let commission_x =
        fmax (div (mul exit_notional costs.commission_bps) bps) costs.min_commission_tl in
      let bsmv_x = div (mul commission_x costs.bsmv_pct) (lit 100 0) in
      let exchange_x = div (mul exit_notional costs.exchange_fee_bps) bps in
      let stamp_tax_tl = div (mul exit_notional costs.stamp_tax_bps) bps in
      let commission_tl = add commission_e commission_x in
      let bsmv_tl = add bsmv_e bsmv_x in
      let exchange_fee_tl = add exchange_e exchange_x in
      let spread_impact_tl = mul (mul n (add entry_price e.ref_price)) half_spread_rate in
      let slippage_impact_tl = mul (mul n (add entry_price e.ref_price)) slippage_rate in
      let fees = add (add (add commission_tl bsmv_tl) exchange_fee_tl) stamp_tax_tl in
      let profit_tl = sub (mul n (sub exit_fill entry_fill)) fees in
      record {
        entry_date = elim session_ids [ none ↦ none | some ids ↦ at 0 ids ];
        exit_date = elim session_ids [ none ↦ none | some ids ↦ at e.index ids ];
        entry_ref_price = entry_price;
        exit_ref_price = e.ref_price;
        entry_fill = entry_fill;
        exit_fill = exit_fill;
        exit_reason = e.reason;
        shares = shares;
        holding_sessions = e.index + 1;
        notional_tl = entry_deployed;
        gross_profit_tl = mul n (sub e.ref_price entry_price);
        profit_tl = profit_tl;
        profit_pct =
            if eq entry_deployed nought
            then nought
            else mul (div profit_tl entry_deployed) (lit 100 0);
        commission_tl = commission_tl;
        bsmv_tl = bsmv_tl;
        exchange_fee_tl = exchange_fee_tl;
        stamp_tax_tl = stamp_tax_tl;
        spread_impact_tl = spread_impact_tl;
        slippage_impact_tl = slippage_impact_tl;
        total_cost_tl = add (add fees spread_impact_tl) slippage_impact_tl;
      }

  -- `int(notional / sizing_unit)`
  unfoldable pub shares_of : F → F → CostSchedule F → ℤ
  shares_of entry_price notional costs =
      let execution_rate = add (div costs.half_spread_bps bps) (div costs.slippage_bps bps) in
      let entry_fill = mul entry_price (add one execution_rate) in
      trunc (
        div notional
          (mul entry_fill (add one (div (add costs.commission_bps costs.exchange_fee_bps) bps))))

  unfoldable pub calculate_trade_outcome :
      F
      → Option F
      → Option F
      → List (Session F)
      → CostSchedule F
      → F
      → ℕ
      → Option (List ℕ)
      → Option (TradeOutcome F)
  unfolding outcome_for shares_of exit_of
  calculate_trade_outcome entry_price stop_price target_price sessions costs notional
        max_hold_sessions session_ids =
      let shares = shares_of entry_price notional costs in
      if (le entry_price nought || (length sessions == 0))
        || (le notional nought
            || (ltb max_hold_sessions 1 || not (has_length (length sessions) session_ids)))
      then none
      else (if leb_ℤ shares (pos 0)
          then none
          else some (
              outcome_for entry_price costs shares session_ids
                (exit_of stop_price target_price max_hold_sessions sessions)))
