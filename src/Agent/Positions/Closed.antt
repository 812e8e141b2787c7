-- ===== src/Agent/Positions/Closed.antt =====
-- Which rows of agent/position_manager.py are open after a position was closed.
use bist_bot.Common.{
  ℕ, ◌≡◌, refl, inl, inr, Bool, false, Option, none, List, [], ◌∷◌, ◌==◌, ◌&&◌, any, Bool-cases,
  Option-cases, arith,
}
use bist_bot.Common.Floats.{Floats, Decimals}
use bist_bot.Agent.Positions.{
  LivePosition, Positions, ExitReason, is_position_open, fails, find, amend, closed_row,
  close_position,
}

-- An open row of this id.
abbrev pub is_open_id : {F : Type 0} → ℕ → LivePosition F → Bool
is_open_id id r = (r.id == id) && is_position_open r.state

module _ {F : Type 0} ⦃fl : Floats F⦄ ⦃dc : Decimals F⦄ (now : ℕ) (price : F) (reason : ExitReason)
    (order : Option ℕ) (fees : F) where
  any-find_missing :
      (id : ℕ) (rs : List (LivePosition F))
      → find (λ r. r.id == id) rs ≡ none
      → any (is_open_id id) rs ≡ false
  unfolding find
  any-find_missing id [] h = refl
  any-find_missing id (r ∷ rs) h = ground (arith, h, any-find_missing id rs)

  any-amend_self :
      (id : ℕ) (read : LivePosition F) (rs : List (LivePosition F))
      → any
          (is_open_id id)
          (amend (λ r. r.id == id) (closed_row now price reason order fees read) rs)
        ≡ false
  unfolding amend closed_row
  any-amend_self id read [] = refl
  any-amend_self id read (r ∷ rs) = elim (Bool-cases (r.id == id)) [
    | inl e ↦ rw (amend, e) (ground (arith, any-amend_self id read rs))
    | inr e ↦ rw (amend, e) (ground (arith, e, any-amend_self id read rs))
  ]

  any-amend_closed :
      (id other : ℕ) (read : LivePosition F) (rs : List (LivePosition F))
      → any (is_open_id id) rs ≡ false
      → any
          (is_open_id id)
          (amend (λ r. r.id == other) (closed_row now price reason order fees read) rs)
        ≡ false
  unfolding amend closed_row
  any-amend_closed id other read [] h = refl
  any-amend_closed id other read (r ∷ rs) h = elim (Bool-cases (r.id == other)) [
    | inl e ↦ rw (amend, e) (ground (arith, h, any-amend_closed id other read rs))
    | inr e ↦ rw (amend, e) (ground (arith, e, h, any-amend_closed id other read rs))
  ]

  pub close_position-closes :
      (id : ℕ) (p : Positions F)
      → p.faults ≡ []
      → any (is_open_id id) (close_position now id price reason order fees p).rows ≡ false
  unfolding close_position
  close_position-closes id p calm =
      let quiet : fails p ≡ false = rw calm refl in
      elim (Option-cases (find (λ r. r.id == id) p.rows)) [
        | inl e ↦ rw (close_position, quiet, e) (any-find_missing id p.rows e)
        | inr (read, e) ↦ rw (close_position, quiet, e) (any-amend_self id read p.rows)
      ]

  pub close_position-keeps :
      (id other : ℕ) (p : Positions F)
      → p.faults ≡ []
      → any (is_open_id id) p.rows ≡ false
      → any (is_open_id id) (close_position now other price reason order fees p).rows ≡ false
  unfolding close_position
  close_position-keeps id other p calm h =
      let quiet : fails p ≡ false = rw calm refl in
      elim (Option-cases (find (λ r. r.id == other) p.rows)) [
        | inl e ↦ rw (close_position, quiet, e) h
        | inr (read, e) ↦ rw (close_position, quiet, e) (any-amend_closed id other read p.rows h)
      ]

  pub close_position-calm :
      (id : ℕ) (p : Positions F)
      → p.faults ≡ []
      → (close_position now id price reason order fees p).faults ≡ []
  unfolding close_position
  close_position-calm id p calm =
      let quiet : fails p ≡ false = rw calm refl in
      elim (Option-cases (find (λ r. r.id == id) p.rows)) [
        | inl e ↦ rw (close_position, quiet, e) (rw calm refl)
        | inr (read, e) ↦ rw (close_position, quiet, e) (rw calm refl)
      ]
