-- ===== src/Services/Paper/Reasons.antt =====
-- The reasons to close a trade in src/bist_bot/services/paper_trade_service.py.
use bist_bot.Common.{
  Bool, false, Option, none, some, List, if◌then◌else◌, not, ◌&&◌, ◌||◌, or_else, Dict, lookup,
}
use bist_bot.Common.Floats.{Floats, nought, fmax, fmin, fabs}
use bist_bot.Services.Scans.{ScanSignal, is_sell}
use bist_bot.Services.Ledger.{CloseReason}
use bist_bot.Services.Paper.Table.{
  Direction, PaperTrade, PaperSettings, is_buy_type, is_short, trade_direction, signal_of,
}

module _ {F : Type 0} ⦃fl : Floats F⦄ where
  open fl use {lit, lt, le, eq, add, sub, mul, div, round, trunc}

  abbrev pub hundred : F
  hundred = lit 100 0

  abbrev pub is_level : Option F → Bool
  is_level none = false
  is_level (some level) = not (eq level nought)

  abbrev pub level_of : Option F → F
  level_of level = or_else level nought

  -- A price that is at a stop, or at a target.
  abbrev pub beyond : Direction → F → F → Bool
  beyond Direction.long level price = le price level
  beyond Direction.short level price = le level price

  abbrev pub stop_hit : PaperTrade F → F → Bool
  stop_hit r price = is_level r.stop_loss && beyond (trade_direction r) (level_of r.stop_loss) price

  abbrev pub target_hit : PaperTrade F → F → Bool
  target_hit r price =
      is_level r.target_price
      && (if is_short (trade_direction r)
          then le price (level_of r.target_price)
          else le (level_of r.target_price) price)

  -- A strong signal against the position.
  abbrev pub is_opposite : PaperTrade F → Option (ScanSignal F) → Bool
  is_opposite r none = false
  is_opposite r (some s) =
      (if is_short (trade_direction r) then is_buy_type s.signal_type else is_sell s.signal_type)
      && le (lit 15 0) (fabs s.score)

  -- The trailing extreme of the ticker, seeded with the entry's price.
  unfoldable pub extreme_of : PaperTrade F → F → Dict F → F
  extreme_of r price extremes =
      let seeded = or_else (lookup r.ticker extremes) r.signal_price in
      if is_short (trade_direction r) then fmin seeded price else fmax seeded price

  unfoldable pub trail_stop_of : PaperSettings F → PaperTrade F → F → F
  trail_stop_of settings r extreme =
      let step = div settings.trailing_stop_pct hundred in
      if is_short (trade_direction r)
      then mul extreme (add (lit 1 0) step)
      else mul extreme (sub (lit 1 0) step)

  -- The trail is tighter than the stop, and the price is at it.
  abbrev pub trail_hit : PaperTrade F → F → F → Bool
  trail_hit r trail price =
      (not (is_level r.stop_loss)
        || (if is_short (trade_direction r)
            then lt trail (level_of r.stop_loss)
            else lt (level_of r.stop_loss) trail))
      && beyond (trade_direction r) trail price

  abbrev pub is_trailing : PaperSettings F → Bool
  is_trailing settings = settings.trailing_stop_enabled && lt nought settings.trailing_stop_pct

  -- In this order: the opposite signal, the stop, the trail, the target, the end of the session.
  unfoldable pub reason_to_close :
      PaperSettings F → List (ScanSignal F) → Bool → PaperTrade F → F → F → Option CloseReason
  reason_to_close settings signals eod r price extreme =
      if is_opposite r (signal_of r.ticker signals)
      then some CloseReason.opposite_signal
      else (if stop_hit r price
          then some CloseReason.stop
          else (if is_trailing settings && trail_hit r (trail_stop_of settings r extreme) price
              then some CloseReason.trail_stop
              else (if target_hit r price
                  then some CloseReason.target
                  else (if eod then some CloseReason.eod else none))))

  unfoldable pub gross_pct : Direction → F → F → F
  gross_pct Direction.short entry price = mul (div (sub entry price) entry) hundred
  gross_pct Direction.long entry price = mul (div (sub price entry) entry) hundred
