-- ===== src/Services/Outcomes/Hits.antt =====
-- How a tracked position of src/bist_bot/services/signal_outcome_tracker.py moves and ends.
use bist_bot.Common.{
  ℕ, ◌+◌, ◌*◌, Bool, Option, none, some, [], ◌∷◌, if◌then◌else◌, leb, not, ◌&&◌, ◌||◌, Dict, lookup,
}
use bist_bot.Common.Int.{pos, pos_part, leb_ℤ}
use bist_bot.Common.Floats.{Floats, nought, fmax, fmin}
use bist_bot.Execution.Executor.{SignalType}
use bist_bot.Services.Scans.{ScanSignal, is_sell}
use bist_bot.Services.Paper.Table.{is_buy_type}
use bist_bot.Services.Outcomes.Files.{
  SignalCategory, SignalOutcome, OutcomeSettings, Tracked, Frame, is_hold, is_radar, first_of_hits,
}

module _ {F : Type 0} ⦃fl : Floats F⦄ where
  open fl use {lit, lt, le, sub, mul, div, round}

  unfoldable pub categorize : SignalType → F → F → F → SignalCategory
  categorize type score buy_threshold highest =
      let effective_score = fmin score highest in
      let positive =
        if lt nought effective_score then SignalCategory.radar else SignalCategory.hold in
      if is_sell type
      then SignalCategory.sat
      else (if is_hold type
          then SignalCategory.hold
          else (if is_radar type
              then positive
              else (if is_buy_type type
                  then (if le buy_threshold effective_score then SignalCategory.al else positive)
                  else SignalCategory.hold)))

  unfoldable pub tracked_from_signal : ScanSignal F → Tracked F
  tracked_from_signal s = record {
    signal_id = s.record_id;
    score = s.score;
    entry_ts = s.timestamp;
    entry_price = s.price;
    stop = s.stop_loss;
    target = s.target_price;
    quantity = if lt nought s.price then div (lit 10_000 0) s.price else nought;
    agreement_ratio = s.agreement_ratio;
    mfe_pct = nought;
    mae_pct = nought;
    max_high = s.price;
    min_low = s.price;
  }

  abbrev pub frame_of : ℕ → Dict (Frame F) → Option (F × F)
  frame_of ticker frames = elim (lookup ticker frames) [ none ↦ none | some f ↦ f.high_low ]

  -- The part of a move from the entry, in percent.
  unfoldable pub excursion : F → F → F
  excursion entry extreme =
      if lt nought entry then round (mul (div (sub extreme entry) entry) (lit 100 0)) 2 else nought

  unfoldable pub widened : Option (F × F) → Tracked F → Tracked F
  unfolding excursion
  widened none p = p
  widened (some (high, low)) p =
      let highest = fmax p.max_high high in
      let lowest = fmin p.min_low low in
      record p {
        max_high = highest;
        min_low = lowest;
        mfe_pct = excursion p.entry_price highest;
        mae_pct = excursion p.entry_price lowest;
      }

  unfoldable pub update_mfe_mae : Dict (Frame F) → Dict (Tracked F) → Dict (Tracked F)
  unfolding widened
  update_mfe_mae frames [] = []
  update_mfe_mae frames ((ticker, p) ∷ positions) =
      (ticker, widened (frame_of ticker frames) p) ∷ update_mfe_mae frames positions

  -- By the close alone.
  unfoldable pub hit_at_close : Tracked F → F → Option SignalOutcome
  hit_at_close p price =
      if lt nought p.stop && le price p.stop
      then some SignalOutcome.stop_hit
      else (if lt nought p.target && le p.target price then some SignalOutcome.target_hit else none)

  -- By the bar's low and high where they are known and both levels are set; the stop wins.
  unfoldable pub hit_in_bar : Tracked F → Option (F × F) → F → Option SignalOutcome
  unfolding hit_at_close
  hit_in_bar p none price = hit_at_close p price
  hit_in_bar p (some (high, low)) price =
      if lt nought p.stop && lt nought p.target
      then (if (le low p.stop && le p.target high) || le low p.stop
          then some SignalOutcome.stop_hit
          else (if le p.target high then some SignalOutcome.target_hit else none))
      else hit_at_close p price

  unfoldable pub signal_outcome_of :
      OutcomeSettings F → Tracked F → Option (F × F) → F → ℕ → Bool → Option SignalOutcome
  unfolding hit_in_bar hit_at_close
  signal_outcome_of settings p high_low price now eod =
      first_of_hits (hit_in_bar p high_low price) (
        first_of_hits (hit_at_close p price) (
          if eod
          then some SignalOutcome.eod_close
          else (if not (leb_ℤ settings.outcome_max_hold_days (pos 0))
                && leb (p.entry_ts + pos_part settings.outcome_max_hold_days * 86_400) now
              then some SignalOutcome.max_hold
              else none)))

  -- A fill is at the level or beyond it.
  unfoldable pub exit_price_of : SignalOutcome → Tracked F → F → F
  exit_price_of SignalOutcome.stop_hit p price =
      if lt nought p.stop then fmin price p.stop else price
  exit_price_of SignalOutcome.target_hit p price =
      if lt nought p.target then fmax price p.target else price
  exit_price_of _ p price = price
