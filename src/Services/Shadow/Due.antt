-- ===== src/Services/Shadow/Due.antt =====
-- The positions that are due, in src/bist_bot/services/shadow_trade_service.py. A ZeroDivisionError
-- leaves the loop before anything is written.
use bist_bot.Common.{
  ℕ, ◌+◌, ◌*◌, Bool, Option, none, some, List, [], ◌∷◌, if◌then◌else◌, ◌==◌, leb, ◌&&◌, any, Dict,
  lookup, erase,
}
use bist_bot.Common.Floats.{Floats, nought}
use bist_bot.Services.Scans.{ScanSignal, is_sell}
use bist_bot.Services.Ledger.{CloseReason}
use bist_bot.Services.Shadow.Files.{ShadowPosition, ClosedRow, Fate, stays, raises, closes}

module _ {F : Type 0} ⦃fl : Floats F⦄ where
  open fl use {lit, lt, le, eq, add, sub, mul, div, round, of_int}

  -- The first condition that holds, the stop before the target.
  unfoldable pub hit_of : ShadowPosition F → F → Bool → ℕ → Option CloseReason
  hit_of p price opposite_signal now =
      if lt nought p.stop && le price p.stop
      then some CloseReason.stop
      else (if lt nought p.target && le p.target price
          then some CloseReason.target
          else (if opposite_signal
              then some CloseReason.opposite_signal
              else (if leb (p.entry_time + p.holding_days * 86_400) now
                  then some CloseReason.timeout
                  else none)))

  unfoldable pub due_row : ℕ → ShadowPosition F → F → ℕ → CloseReason → ClosedRow F
  due_row ticker p price now hit = record {
    ticker = ticker;
    entry_time = p.entry_time;
    entry_price = p.entry_price;
    exit_time = now;
    exit_price = price;
    score = p.score;
    agreement_ratio = p.agreement_ratio;
    pnl_pct = round (mul (sub (div price p.entry_price) (lit 1 0)) (lit 100 0)) 6;
    pnl_tl = round (mul (sub price p.entry_price) p.quantity) 2;
    hit = hit;
    reasons = p.reasons;
  }

  abbrev pub has_opposite : ℕ → List (ScanSignal F) → Bool
  has_opposite ticker signals = any (λ s. s.ticker == ticker && is_sell s.signal_type) signals

  unfoldable pub fate_of : Dict F → ℕ → List (ScanSignal F) → ℕ → ShadowPosition F → Fate F
  unfolding hit_of due_row
  fate_of prices now signals ticker p = elim (lookup ticker prices) [
    | none ↦ stays
    | some price ↦
        if le price nought then stays else elim (hit_of p price (has_opposite ticker signals) now) [
          | none ↦ stays
          | some hit ↦
              if eq p.entry_price nought then raises else closes (due_row ticker p price now hit)
        ]
  ]

  -- The loop over a snapshot of the items, with the dictionary that it deletes from.
  unfoldable pub close_due :
      (ℕ → ShadowPosition F → Fate F)
      → Dict (ShadowPosition F)
      → Dict (ShadowPosition F)
      → Option (List (ClosedRow F) × Dict (ShadowPosition F))
  close_due fate [] positions = some ([], positions)
  close_due fate ((ticker, p) ∷ items) positions = elim (fate ticker p) [
    | stays ↦ close_due fate items positions
    | raises ↦ none
    | closes row ↦ elim (close_due fate items (erase ticker positions)) [
      | none ↦ none
      | some (rows, left) ↦ some (row ∷ rows, left)
    ]
  ]

  unfoldable pub close_due_positions :
      Dict (ShadowPosition F)
      → Dict F
      → ℕ
      → List (ScanSignal F)
      → Option (List (ClosedRow F) × Dict (ShadowPosition F))
  unfolding close_due fate_of
  close_due_positions positions prices now signals =
      close_due (fate_of prices now signals) positions positions
