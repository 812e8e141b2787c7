-- ===== src/Services/Paper/Update.antt =====
-- The rounds over the open trades in src/bist_bot/services/paper_trade_service.py.
use bist_bot.Common.{
  ℕ, Bool, Option, none, some, List, [], ◌∷◌, if◌then◌else◌, ◌==◌, not, keep, insert, erase,
}
use bist_bot.Common.Floats.{Floats, Decimals, nought}
use bist_bot.Risk.Money.{TradingCosts, round_trip_cost}
use bist_bot.Market.Calendar.{Calendar, Moment}
use bist_bot.Services.Scans.{ScanSignal}
use bist_bot.Services.Ledger.{Kind, CloseReason, Closing, Target, close_entry}
use bist_bot.Services.Paper.Table.{
  Direction, PaperTrade, PaperSettings, PaperTrades, Fetched, is_short, is_eod, trade_direction,
  get_open_paper_trades, closed_trade, close_paper_trade, price_of, record_price_skip,
}
use bist_bot.Services.Paper.Reasons.{hundred, extreme_of, is_trailing, reason_to_close, gross_pct}

module _ {F : Type 0} ⦃fl : Floats F⦄ ⦃dc : Decimals F⦄ where
  open fl use {lt, le, sub, mul, div, round}

  unfoldable pub net_profit_pct : TradingCosts F → Direction → F → F → F
  unfolding gross_pct
  net_profit_pct costs direction entry price =
      if le entry nought
      then nought
      else (let total_fees =
            if is_short direction
            then round_trip_cost costs price entry
            else round_trip_cost costs entry price in
          round (sub (gross_pct direction entry price) (mul (div total_fees entry) hundred)) 4)

  abbrev pub paper_closing : ℕ → PaperTrade F → F → CloseReason → Direction → F → Closing F
  paper_closing now r price reason direction net_pct = record {
    exit_price = price;
    exit_time = now;
    close_reason = reason;
    gross_pnl_pct =
        if lt nought r.signal_price
        then some (round (gross_pct direction r.signal_price price) 6)
        else none;
    net_pnl_pct = some net_pct;
  }

  -- `_close_trade`; `writes` says for which trades the database takes the ledger's row.
  unfoldable pub close_trade :
      PaperSettings F
      → (ℕ → Bool)
      → ℕ
      → PaperTrade F
      → F
      → CloseReason
      → PaperTrades F
      → PaperTrades F
  unfolding net_profit_pct
  close_trade settings writes now r price reason s =
      let direction = trade_direction r in
      let profit_pct = net_profit_pct settings.costs direction r.signal_price price in
      record s {
        trades = close_paper_trade r.id (closed_trade now price reason profit_pct) s.trades;
        ledger =
            if writes r.id
            then (close_entry Kind.paper (Target.by_paper_trade r.id)
                (paper_closing now r price reason direction profit_pct) s.ledger).1
            else s.ledger;
      }

  -- A trade with a price and a reason to close it, or none: what is left of the round.
  unfoldable pub settle_trade :
      PaperSettings F
      → (ℕ → Bool)
      → ℕ
      → PaperTrade F
      → F
      → Option CloseReason
      → PaperTrades F
      → PaperTrades F
  settle_trade settings writes now r current (some reason) s =
      close_trade settings writes now r current reason
        (record s { trail_extremes = erase r.ticker s.trail_extremes })
  settle_trade settings writes now r current none s =
      if is_trailing settings
      then record s {
        trail_extremes = insert r.ticker (extreme_of r current s.trail_extremes) s.trail_extremes;
      }
      else s

  -- A price ends the count of the rounds without one.
  abbrev pub price_seen : ℕ → PaperTrades F → PaperTrades F
  price_seen ticker s = record s {
    price_skip_counts = erase ticker s.price_skip_counts;
    price_skip_warned = keep (λ t. not (t == ticker)) s.price_skip_warned;
  }

  -- One round of the loop over the open trades.
  unfoldable pub update_trade :
      PaperSettings F
      → (ℕ → Bool)
      → List (ScanSignal F)
      → Bool
      → ℕ
      → PaperTrade F
      → Option F
      → PaperTrades F
      → PaperTrades F
  update_trade settings writes signals eod now r none s = record_price_skip settings r.ticker s
  update_trade settings writes signals eod now r (some current) s =
      settle_trade settings writes now r current
        (reason_to_close settings signals eod r current (extreme_of r current s.trail_extremes))
        (price_seen r.ticker s)

  unfoldable pub update_trades :
      PaperSettings F
      → (ℕ → Bool)
      → (ℕ → Option F)
      → List (ScanSignal F)
      → Bool
      → ℕ
      → List (PaperTrade F)
      → PaperTrades F
      → PaperTrades F
  update_trades settings writes price signals eod now [] s = s
  update_trades settings writes price signals eod now (r ∷ rs) s =
      update_trades settings writes price signals eod now rs
        (update_trade settings writes signals eod now r (price r.ticker) s)

  -- `at` is the time of the exchange that the end of the session is read from, `now` the clock.
  unfoldable pub update_open_trades :
      Calendar
      → PaperSettings F
      → (ℕ → Bool)
      → Fetched F
      → List (ScanSignal F)
      → Moment
      → ℕ
      → PaperTrades F
      → PaperTrades F
  update_open_trades c settings writes fetched signals at now s =
      if settings.paper_mode
      then update_trades settings writes (price_of signals fetched) signals (is_eod c at) now
          (get_open_paper_trades s.trades) s
      else s
