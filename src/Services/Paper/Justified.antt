-- ===== src/Services/Paper/Justified.antt =====
-- Why an update of src/bist_bot/services/paper_trade_service.py closes a trade, written out by the
-- direction of the trade.
use bist_bot.Common.{
  ◌≡◌, ◌⊎◌, refl, inl, inr, Bool, true, false, Option, none, some, List, if◌then◌else◌, not, ◌&&◌,
  ◌||◌, or_else, Dict, lookup, insert, Bool-cases, arith,
}
use bist_bot.Common.Floats.{Floats, nought, fabs}
use bist_bot.Services.Scans.{ScanSignal, is_sell}
use bist_bot.Services.Ledger.{CloseReason}
use bist_bot.Services.Paper.Table.{
  Direction, PaperTrade, PaperSettings, is_buy_type, trade_direction, signal_of,
}
use bist_bot.Services.Paper.Reasons.{
  stop_hit, target_hit, is_opposite, extreme_of, trail_hit, is_trailing, trail_stop_of,
  reason_to_close,
}

Direction-cases : (d : Direction) → (d ≡ Direction.long) ⊎ (d ≡ Direction.short)
Direction-cases Direction.long = inl refl
Direction-cases Direction.short = inr refl

module _ {F : Type 0} ⦃fl : Floats F⦄ where
  open fl use {lit, lt, le, eq, add, sub, mul, div}

  abbrev pub is_set : Option F → Bool
  is_set none = false
  is_set (some level) = not (eq level nought)

  -- The last signal of the ticker is strong, and against the direction.
  abbrev pub opposes : Direction → Option (ScanSignal F) → Bool
  opposes Direction.long none = false
  opposes Direction.short none = false
  opposes Direction.long (some s) = is_sell s.signal_type && le (lit 15 0) (fabs s.score)
  opposes Direction.short (some s) = is_buy_type s.signal_type && le (lit 15 0) (fabs s.score)

  abbrev pub at_stop : Direction → Option F → F → Bool
  at_stop Direction.long stop price = is_set stop && le price (or_else stop nought)
  at_stop Direction.short stop price = is_set stop && le (or_else stop nought) price

  abbrev pub at_target : Direction → Option F → F → Bool
  at_target Direction.long target price = is_set target && le (or_else target nought) price
  at_target Direction.short target price = is_set target && le price (or_else target nought)

  -- A long trade trails under the extreme and above its stop, a short one over it and below its stop.
  abbrev pub at_trail : Direction → Option F → F → F → F → Bool
  at_trail Direction.long stop pct extreme price =
      let trail = mul extreme (sub (lit 1 0) (div pct (lit 100 0))) in
      (not (is_set stop) || lt (or_else stop nought) trail) && le price trail
  at_trail Direction.short stop pct extreme price =
      let trail = mul extreme (add (lit 1 0) (div pct (lit 100 0))) in
      (not (is_set stop) || lt trail (or_else stop nought)) && le trail price

  -- The extreme is the price where it is beyond what was remembered of the ticker, or beyond the price
  -- of the entry where nothing was, and else that.
  abbrev pub IsExtremeFrom : Direction → F → F → F → Type 0
  IsExtremeFrom Direction.long seed price extreme =
      ((lt seed price ≡ true) × (extreme ≡ price)) ⊎ ((lt seed price ≡ false) × (extreme ≡ seed))
  IsExtremeFrom Direction.short seed price extreme =
      ((lt price seed ≡ true) × (extreme ≡ price)) ⊎ ((lt price seed ≡ false) × (extreme ≡ seed))

  abbrev pub IsExtreme : Dict F → PaperTrade F → F → F → Type 0
  IsExtreme extremes r price extreme =
      IsExtremeFrom (trade_direction r) (or_else (lookup r.ticker extremes) r.signal_price) price
        extreme

  -- What is remembered after a trade that stays open.
  abbrev pub remembered : PaperSettings F → PaperTrade F → F → Dict F → Dict F
  remembered settings r extreme extremes =
      if settings.trailing_stop_enabled && lt nought settings.trailing_stop_pct
      then insert r.ticker extreme extremes
      else extremes

  pub extreme_of-IsExtreme :
      (extremes : Dict F) (r : PaperTrade F) (price : F)
      → IsExtreme extremes r price (extreme_of r price extremes)
  unfolding extreme_of
  extreme_of-IsExtreme extremes r price =
      let seed = or_else (lookup r.ticker extremes) r.signal_price in
      elim (Direction-cases (trade_direction r)) [
        | inl e ↦ elim (Bool-cases (lt seed price)) [
          | inl beyond_it ↦ rw (extreme_of, e, beyond_it) (inl (refl, refl))
          | inr within ↦ rw (extreme_of, e, within) (inr (refl, refl))
        ]
        | inr e ↦ elim (Bool-cases (lt price seed)) [
          | inl beyond_it ↦ rw (extreme_of, e, beyond_it) (inl (refl, refl))
          | inr within ↦ rw (extreme_of, e, within) (inr (refl, refl))
        ]
      ]

  module _ (settings : PaperSettings F) (signals : List (ScanSignal F)) (eod : Bool) where
    abbrev pub opposed : PaperTrade F → Bool
    opposed r = opposes (trade_direction r) (signal_of r.ticker signals)

    abbrev pub stopped : PaperTrade F → F → Bool
    stopped r price = at_stop (trade_direction r) r.stop_loss price

    abbrev pub trailed : PaperTrade F → F → F → Bool
    trailed r price extreme =
        (settings.trailing_stop_enabled && lt nought settings.trailing_stop_pct)
        && at_trail (trade_direction r) r.stop_loss settings.trailing_stop_pct extreme price

    abbrev pub reached : PaperTrade F → F → Bool
    reached r price = at_target (trade_direction r) r.target_price price

    -- Nothing closes a trade at its price.
    abbrev pub IsQuiet : PaperTrade F → F → F → Type 0
    IsQuiet r price extreme =
        (opposed r ≡ false)
        × (stopped r price ≡ false)
        × (trailed r price extreme ≡ false)
        × (reached r price ≡ false)
        × (eod ≡ false)

    -- The first of the reasons that there are.
    abbrev pub IsReason : PaperTrade F → F → F → CloseReason → Type 0
    IsReason r price extreme CloseReason.opposite_signal = opposed r ≡ true
    IsReason r price extreme CloseReason.stop = (opposed r ≡ false) × (stopped r price ≡ true)
    IsReason r price extreme CloseReason.trail_stop =
        (opposed r ≡ false) × (stopped r price ≡ false) × (trailed r price extreme ≡ true)
    IsReason r price extreme CloseReason.target =
        (opposed r ≡ false)
        × (stopped r price ≡ false)
        × (trailed r price extreme ≡ false)
        × (reached r price ≡ true)
    IsReason r price extreme CloseReason.eod =
        (opposed r ≡ false)
        × (stopped r price ≡ false)
        × (trailed r price extreme ≡ false)
        × (reached r price ≡ false)
        × (eod ≡ true)
    IsReason r price extreme CloseReason.timeout = ⊥

    abbrev pub Justified : PaperTrade F → F → F → Option CloseReason → Type 0
    Justified r price extreme none = IsQuiet r price extreme
    Justified r price extreme (some reason) = IsReason r price extreme reason

    same_tests :
        (r : PaperTrade F) (price extreme : F)
        → (is_opposite r (signal_of r.ticker signals) ≡ opposed r)
          × (stop_hit r price ≡ stopped r price)
          × ((is_trailing settings && trail_hit r (trail_stop_of settings r extreme) price)
              ≡ trailed r price extreme)
          × (target_hit r price ≡ reached r price)
    unfolding trail_stop_of
    same_tests r price extreme = elim (Direction-cases (trade_direction r)) [
      | inl e ↦ (ground (arith, e), ground (arith, e), ground (arith, e), ground (arith, e))
      | inr e ↦ (ground (arith, e), ground (arith, e), ground (arith, e), ground (arith, e))
    ]

    -- The code gives the first reason that there is, or none where there is none.
    pub reason_to_close-Justified :
        (r : PaperTrade F) (price extreme : F)
        → Justified r price extreme (reason_to_close settings signals eod r price extreme)
    unfolding reason_to_close
    reason_to_close-Justified r price extreme =
        let (opposite, stop, trail, target) = same_tests r price extreme in
        elim (Bool-cases (opposed r)) [
          | inl a ↦ rw (reason_to_close, opposite, a) a
          | inr a ↦ elim (Bool-cases (stopped r price)) [
            | inl b ↦ rw (reason_to_close, opposite, a, stop, b) (a, b)
            | inr b ↦ elim (Bool-cases (trailed r price extreme)) [
              | inl c ↦ rw (reason_to_close, opposite, a, stop, b, trail, c) (a, b, c)
              | inr c ↦ elim (Bool-cases (reached r price)) [
                | inl d ↦
                    rw (reason_to_close, opposite, a, stop, b, trail, c, target, d) (a, b, c, d)
                | inr d ↦ elim (Bool-cases eod) [
                  | inl over ↦
                      rw (reason_to_close, opposite, a, stop, b, trail, c, target, d, over)
                        (a, b, c, d, refl)
                  | inr on ↦
                      rw (reason_to_close, opposite, a, stop, b, trail, c, target, d, on)
                        (a, b, c, d, refl)
                ]
              ]
            ]
          ]
        ]
