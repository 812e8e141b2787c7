-- ===== src/Services/Ledger/RoundTrip.antt =====
-- What opening and closing make of the table of db/repositories/ledger_repository.py.
use bist_bot.Common.{◌≡◌, refl, ap, true, Option, [], ◌∷◌, ◌++◌, arith}
use bist_bot.Services.Ledger.Rows.{
  IsKeyed, same_kind_self, Ascends-below, newest-append, write_entry-append, keep-drop_last,
}
use bist_bot.Services.Ledger.{
  Kind, Ledger, Opening, Closing, Target, opened_row, record_open, is_match, closed_entry,
  close_entry, sort_by_id, get_open,
}

module _ {F : Type 0} where
  -- Opening a trade and closing the newest open trade of its kind and ticker is a round trip: with
  -- fresh ids, the close finds the row that was just opened, whatever else is open on the ticker, the
  -- open trades (of every kind, or of any one) are those of before, and the table has gained
  -- exactly that row, closed as the call says.
  pub close_entry-record_open :
      (o : Opening F) (c : Closing F) (kind : Option Kind) (l : Ledger F)
      → IsKeyed l
      → let (id, opened) = record_open o l in
        let (done, after) = close_entry o.kind (Target.by_ticker o.ticker) c opened in
        (done ≡ true)
        × (get_open kind after ≡ get_open kind l)
        × (after.rows ≡ l.rows ++ (closed_entry c (opened_row o id) ∷ []))
  unfolding record_open close_entry get_open
  close_entry-record_open o c kind l keyed =
      let r = opened_row o l.next_id in
      let below = (Ascends-below 0 l.next_id l.rows keyed).0 in
      let matches : is_match o.kind (Target.by_ticker o.ticker) r ≡ true =
        rw (same_kind_self o.kind) (ground arith) in
      let found =
        newest-append (is_match o.kind (Target.by_ticker o.ticker)) l.rows r below matches in
      let written = write_entry-append (closed_entry c) l.rows r below in
      (
        rw (close_entry, found) refl,
        rw (close_entry, found)
            (rw written (ap sort_by_id (keep-drop_last _ l.rows (closed_entry c r) refl))),
        rw (close_entry, found) written,
      )
