-- ===== src/Services/Paper/Table.antt =====
-- The table of src/bist_bot/db/repositories/portfolio_repository.py and the fields of
-- src/bist_bot/services/paper_trade_service.py. The table keeps its rows in the order of their ids, in
-- which the code asks for them. What the fetcher answers is an argument: the regime of a ticker, its
-- last close by itself, and in a batch.
use bist_bot.Common.{
  ℕ, ◌+◌, Bool, true, false, Option, none, some, List, [], ◌∷◌, ◌++◌, if◌then◌else◌, ◌==◌, leb, not,
  ◌&&◌, any, keep, is_some, or_else, Dict, lookup, insert,
}
use bist_bot.Common.Int.{ℤ, pos, pos_part, leb_ℤ}
use bist_bot.Execution.Executor.{SignalType}
use bist_bot.Risk.Money.{TradingCosts}
use bist_bot.Market.Calendar.{Calendar, Moment, is_bist_holiday, bist_close_time}
use bist_bot.Services.Scans.{ScanSignal, is_sell}
use bist_bot.Services.Ledger.{CloseReason, Ledger}

pub data Direction : Type 0 where
  long short : Direction

-- A row of the paper trades. `signal_type` is `none` for a text that is no SignalType, and
-- `direction` for a row from before there was the column.
pub record PaperTrade (F : Type 0) : Type 0 where
  pub id : ℕ
  pub ticker : ℕ
  pub signal_type : Option SignalType
  pub signal_price : F
  pub signal_time : ℕ
  pub stop_loss : Option F
  pub target_price : Option F
  pub score : ℤ
  pub regime : ℕ
  pub direction : Option Direction
  pub is_closed : Bool
  pub actual_profit_pct : Option F
  pub exit_price : Option F
  pub close_reason : Option CloseReason
  pub close_time : Option ℕ

pub record PaperSettings (F : Type 0) : Type 0 where
  pub paper_mode : Bool
  pub paper_cooldown_days : ℤ
  pub trailing_stop_enabled : Bool
  pub trailing_stop_pct : F
  pub paper_close_skip_warn_threshold : ℤ
  pub costs : TradingCosts F

-- The service's fields, the table and the ledger; `alerts` are the tickers and counts it told.
pub record PaperTrades (F : Type 0) : Type 0 where
  pub trades : List (PaperTrade F)
  pub next_id : ℕ
  pub ledger : Ledger F
  pub trail_extremes : Dict F
  pub price_skip_counts : Dict ℕ
  pub price_skip_warned : List ℕ
  pub alerts : List (ℕ × ℕ)

-- The fetcher's last closes.
pub record Fetched (F : Type 0) : Type 0 where
  pub fetch_single : ℕ → Option F
  pub fetch_all : ℕ → Option F

abbrev pub is_buy_type : SignalType → Bool
is_buy_type SignalType.strong_buy = true
is_buy_type SignalType.buy = true
is_buy_type SignalType.weak_buy = true
is_buy_type _ = false

abbrev pub is_short : Direction → Bool
is_short Direction.short = true
is_short Direction.long = false

-- `paper_direction_from_signal_type`
abbrev pub direction_of_type : Option SignalType → Direction
direction_of_type none = Direction.long
direction_of_type (some type) = if is_sell type then Direction.short else Direction.long

abbrev pub was_warned : ℕ → List ℕ → Bool
was_warned ticker warned = any (λ t. t == ticker) warned

unfoldable pub is_eod : Calendar → Moment → Bool
is_eod c now =
    if is_bist_holiday c now.date then false else leb (bist_close_time c now.date) now.time

module _ {F : Type 0} where
  abbrev pub trade_direction : PaperTrade F → Direction
  trade_direction r = or_else r.direction (direction_of_type r.signal_type)

  unfoldable pub get_open_paper_trades : List (PaperTrade F) → List (PaperTrade F)
  get_open_paper_trades rows = keep (λ r. not r.is_closed) rows

  abbrev pub closed_trade : ℕ → F → CloseReason → F → PaperTrade F → PaperTrade F
  closed_trade now exit_price reason profit_pct r = record r {
    exit_price = some exit_price;
    close_reason = some reason;
    close_time = some now;
    is_closed = true;
    actual_profit_pct = some profit_pct;
  }

  -- `close_paper_trade` with the id of the trade.
  unfoldable pub close_paper_trade :
      ℕ → (PaperTrade F → PaperTrade F) → List (PaperTrade F) → List (PaperTrade F)
  close_paper_trade id f [] = []
  close_paper_trade id f (r ∷ rs) =
      if r.id == id && not r.is_closed then f r ∷ rs else r ∷ close_paper_trade id f rs

  -- The last signal of a ticker wins.
  unfoldable pub signal_of : ℕ → List (ScanSignal F) → Option (ScanSignal F)
  signal_of ticker [] = none
  signal_of ticker (s ∷ signals) =
      let later = signal_of ticker signals in
      if is_some later then later else (if s.ticker == ticker then some s else none)

  -- The price of the scan, else that of the ticker, else that of the batch.
  unfoldable pub price_of : List (ScanSignal F) → Fetched F → ℕ → Option F
  unfolding signal_of
  price_of signals fetched ticker = elim (signal_of ticker signals) [
    | some s ↦ some s.price
    | none ↦ elim (fetched.fetch_single ticker) [
      | some price ↦ some price
      | none ↦ fetched.fetch_all ticker
    ]
  ]

  unfoldable pub record_price_skip : PaperSettings F → ℕ → PaperTrades F → PaperTrades F
  record_price_skip settings ticker s =
      let count = or_else (lookup ticker s.price_skip_counts) 0 + 1 in
      let threshold =
        if leb_ℤ settings.paper_close_skip_warn_threshold (pos 1)
        then 1
        else pos_part settings.paper_close_skip_warn_threshold in
      let counted = record s { price_skip_counts = insert ticker count s.price_skip_counts } in
      if leb threshold count && not (was_warned ticker s.price_skip_warned)
      then record counted {
        price_skip_warned = ticker ∷ s.price_skip_warned;
        alerts = s.alerts ++ ((ticker, count) ∷ []);
      }
      else counted
