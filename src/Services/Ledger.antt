-- ===== src/Services/Ledger.antt =====
-- src/bist_bot/db/repositories/ledger_repository.py: the table of paper and shadow trades. The columns
-- that no modelled call reads (the regime, the agreement, the signal's id, the source) are left out.
pub mod Rows
pub mod RoundTrip
use bist_bot.Common.{
  ℕ, ◌+◌, Bool, true, false, Option, none, some, List, [], ◌∷◌, ◌++◌, if◌then◌else◌, ◌==◌, ltb, leb,
  not, ◌&&◌, keep, is_some, or_else,
}
use bist_bot.Execution.Executor.{SignalType}

pub data Kind : Type 0 where
  paper shadow : Kind

pub data Status : Type 0 where
  open_trade closed_trade : Status

-- Why a trade was closed: the reasons of the paper trades and the hits of the shadow trades.
pub data CloseReason : Type 0 where
  stop target opposite_signal timeout trail_stop eod : CloseReason

abbrev pub same_kind : Kind → Kind → Bool
same_kind Kind.paper Kind.paper = true
same_kind Kind.shadow Kind.shadow = true
same_kind _ _ = false

abbrev pub is_open : Status → Bool
is_open Status.open_trade = true
is_open Status.closed_trade = false

pub record TradeLedgerRecord (F : Type 0) : Type 0 where
  pub id : ℕ
  pub kind : Kind
  pub ticker : ℕ
  pub signal_type : SignalType
  pub score : Option F
  pub entry_price : F
  pub entry_time : ℕ
  pub stop_loss : Option F
  pub target_price : Option F
  pub status : Status
  pub exit_price : Option F
  pub exit_time : Option ℕ
  pub close_reason : Option CloseReason
  pub gross_pnl_pct : Option F
  pub net_pnl_pct : Option F
  pub paper_trade_id : Option ℕ

pub record Ledger (F : Type 0) : Type 0 where
  pub rows : List (TradeLedgerRecord F)
  pub next_id : ℕ

-- The arguments of `record_open`.
pub record Opening (F : Type 0) : Type 0 where
  pub kind : Kind
  pub ticker : ℕ
  pub signal_type : SignalType
  pub score : Option F
  pub entry_price : F
  pub entry_time : ℕ
  pub stop_loss : Option F
  pub target_price : Option F
  pub paper_trade_id : Option ℕ

-- What `close_entry` writes.
pub record Closing (F : Type 0) : Type 0 where
  pub exit_price : F
  pub exit_time : ℕ
  pub close_reason : CloseReason
  pub gross_pnl_pct : Option F
  pub net_pnl_pct : Option F

-- Which row `close_entry` looks for; a call with neither raises a ValueError.
pub data Target : Type 0 where
  by_paper_trade by_ticker : ℕ → Target

module _ {F : Type 0} where
  abbrev pub opened_row : Opening F → ℕ → TradeLedgerRecord F
  opened_row o id = record {
    id = id;
    kind = o.kind;
    ticker = o.ticker;
    signal_type = o.signal_type;
    score = o.score;
    entry_price = o.entry_price;
    entry_time = o.entry_time;
    stop_loss = o.stop_loss;
    target_price = o.target_price;
    status = Status.open_trade;
    exit_price = none;
    exit_time = none;
    close_reason = none;
    gross_pnl_pct = none;
    net_pnl_pct = none;
    paper_trade_id = o.paper_trade_id;
  }

  unfoldable pub record_open : Opening F → Ledger F → ℕ × Ledger F
  record_open o l = (
    l.next_id,
    record { rows = l.rows ++ (opened_row o l.next_id ∷ []); next_id = l.next_id + 1 },
  )

  abbrev pub is_target : Target → TradeLedgerRecord F → Bool
  is_target (Target.by_paper_trade id) r = elim r.paper_trade_id [ none ↦ false | some j ↦ j == id ]
  is_target (Target.by_ticker ticker) r = r.ticker == ticker

  abbrev pub is_match : Kind → Target → TradeLedgerRecord F → Bool
  is_match kind sought r = same_kind r.kind kind && (is_open r.status && is_target sought r)

  -- `ORDER BY id DESC LIMIT 1`
  unfoldable pub newest : (TradeLedgerRecord F → Bool) → List (TradeLedgerRecord F) → Option ℕ
  newest test [] = none
  newest test (r ∷ rs) =
      let rest = newest test rs in
      if test r
      then some (elim rest [ none ↦ r.id | some id ↦ if ltb id r.id then r.id else id ])
      else rest

  abbrev pub closed_entry : Closing F → TradeLedgerRecord F → TradeLedgerRecord F
  closed_entry c r = record r {
    exit_price = some c.exit_price;
    exit_time = some c.exit_time;
    close_reason = some c.close_reason;
    gross_pnl_pct = c.gross_pnl_pct;
    net_pnl_pct = c.net_pnl_pct;
    status = Status.closed_trade;
  }

  unfoldable pub write_entry :
      ℕ
      → (TradeLedgerRecord F → TradeLedgerRecord F)
      → List (TradeLedgerRecord F)
      → List (TradeLedgerRecord F)
  write_entry id f [] = []
  write_entry id f (r ∷ rs) = if r.id == id then f r ∷ rs else r ∷ write_entry id f rs

  unfoldable pub close_entry : Kind → Target → Closing F → Ledger F → Bool × Ledger F
  unfolding newest write_entry
  close_entry kind sought c l = elim (newest (is_match kind sought) l.rows) [
    | none ↦ (false, l)
    | some id ↦ (true, record l { rows = write_entry id (closed_entry c) l.rows })
  ]

  insert_by_id : TradeLedgerRecord F → List (TradeLedgerRecord F) → List (TradeLedgerRecord F)
  insert_by_id r [] = r ∷ []
  insert_by_id r (s ∷ ss) = if leb r.id s.id then r ∷ s ∷ ss else s ∷ insert_by_id r ss

  -- `ORDER BY id ASC`
  sort_by_id : List (TradeLedgerRecord F) → List (TradeLedgerRecord F)
  unfolding insert_by_id
  sort_by_id [] = []
  sort_by_id (r ∷ rs) = insert_by_id r (sort_by_id rs)

  -- `_query`; `since` is compared with the exit time.
  unfoldable pub query : Bool → Option Kind → Option ℕ → Ledger F → List (TradeLedgerRecord F)
  unfolding sort_by_id
  query wants_open kind since l = sort_by_id (
      keep
        (λ r.
          (if is_open r.status then wants_open else not wants_open)
          && ((elim kind [ none ↦ true | some k ↦ same_kind r.kind k ]) && (elim since [
            | none ↦ true
            | some t ↦ elim r.exit_time [ none ↦ false | some e ↦ leb t e ]
          ])))
        l.rows)

  unfoldable pub get_open : Option Kind → Ledger F → List (TradeLedgerRecord F)
  unfolding query
  get_open kind l = query true kind none l

  unfoldable pub get_closed : Option Kind → Option ℕ → Ledger F → List (TradeLedgerRecord F)
  unfolding query
  get_closed kind since l = query false kind since l
