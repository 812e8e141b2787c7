-- ===== src/Agent/Positions/Listed.antt =====
-- What get_open_positions of agent/position_manager.py lists.
use bist_bot.Common.{◌≡◌, inl, inr, Bool, true, false, List, [], ◌∷◌, ◌++◌, leb, keep, Bool-cases}
use bist_bot.Agent.Positions.{
  LivePosition, Positions, is_position_open, fails, insert_by_entry, sort_by_entry,
  get_open_positions,
}

module _ {F : Type 0} where
  -- The position stands in the list.
  pub data Listed (r : LivePosition F) : List (LivePosition F) → Type 0 where
    first : (rs : List (LivePosition F)) → Listed r (r ∷ rs)
    later : (s : LivePosition F) {rs : List (LivePosition F)} → Listed r rs → Listed r (s ∷ rs)

  pub Listed-middle :
      (r : LivePosition F) (rs ss : List (LivePosition F)) → Listed r (rs ++ (r ∷ ss))
  Listed-middle r [] ss = Listed.first ss
  Listed-middle r (s ∷ rs) ss = Listed.later s (Listed-middle r rs ss)

  keep-Listed :
      (test : LivePosition F → Bool) (r : LivePosition F) {rs : List (LivePosition F)}
      → test r ≡ true
      → Listed r rs
      → Listed r (keep test rs)
  keep-Listed test r on (Listed.first rs) = rw on (Listed.first (keep test rs))
  keep-Listed test r on (Listed.later s h) = elim (Bool-cases (test s)) [
    | inl e ↦ rw e (Listed.later s (keep-Listed test r on h))
    | inr e ↦ rw e (keep-Listed test r on h)
  ]

  insert-Listed_self :
      (r : LivePosition F) (rs : List (LivePosition F)) → Listed r (insert_by_entry r rs)
  unfolding insert_by_entry
  insert-Listed_self r [] = Listed.first []
  insert-Listed_self r (s ∷ rs) = elim (Bool-cases (leb s.entry_time r.entry_time)) [
    | inl e ↦ rw e (Listed.first (s ∷ rs))
    | inr e ↦ rw e (Listed.later s (insert-Listed_self r rs))
  ]

  insert-Listed :
      (q r : LivePosition F) {rs : List (LivePosition F)}
      → Listed r rs
      → Listed r (insert_by_entry q rs)
  unfolding insert_by_entry
  insert-Listed q r (Listed.first rs) = elim (Bool-cases (leb r.entry_time q.entry_time)) [
    | inl e ↦ rw e (Listed.later q (Listed.first rs))
    | inr e ↦ rw e (Listed.first (insert_by_entry q rs))
  ]
  insert-Listed q r (Listed.later s {rs} h) = elim (Bool-cases (leb s.entry_time q.entry_time)) [
    | inl e ↦ rw e (Listed.later q (Listed.later s h))
    | inr e ↦ rw e (Listed.later s (insert-Listed q r h))
  ]

  sort-Listed :
      (r : LivePosition F) {rs : List (LivePosition F)} → Listed r rs → Listed r (sort_by_entry rs)
  unfolding sort_by_entry
  sort-Listed r (Listed.first rs) = insert-Listed_self r (sort_by_entry rs)
  sort-Listed r (Listed.later s h) = insert-Listed s r (sort-Listed r h)

  -- An open position of the table is listed where the table can be read.
  pub get_open_positions-Listed :
      (p : Positions F) (r : LivePosition F)
      → fails p ≡ false
      → Listed r p.rows
      → is_position_open r.state ≡ true
      → Listed r (get_open_positions p).0
  unfolding get_open_positions
  get_open_positions-Listed p r read held live =
      rw (get_open_positions, read)
        (sort-Listed r (keep-Listed (λ s. is_position_open s.state) r live held))
