-- ===== src/Agent/Sold/Rows.antt =====
-- One row of the positions (agent/position_manager.py) among the others, when it is amended.
use bist_bot.Common.{
  ◌≡◌, refl, ◌⊎◌, inl, inr, Bool, true, false, none, some, List, [], ◌∷◌, arith, Bool-cases, keep,
}
use bist_bot.Agent.Positions.{LivePosition, find, amend}

module _ {F : Type 0} where
  pub find-none :
      (p : LivePosition F → Bool) (rs : List (LivePosition F)) → keep p rs ≡ [] → find p rs ≡ none
  unfolding find
  find-none p [] h = refl
  find-none p (s ∷ rs) h = elim (Bool-cases (p s)) [
    | inl e ↦ absurd (ground (arith, e, h))
    | inr e ↦ rw e (find-none p rs (ground (arith, e, h)))
  ]

  pub find-one :
      (p : LivePosition F → Bool) (rs : List (LivePosition F)) (r : LivePosition F)
      → keep p rs ≡ r ∷ []
      → find p rs ≡ some r
  unfolding find
  find-one p [] r h = absurd (ground arith)
  find-one p (s ∷ rs) r h = elim (Bool-cases (p s)) [
    | inl e ↦ let it : s ≡ r = ground (arith, e, h) in rw (e, it) refl
    | inr e ↦ rw e (find-one p rs r (ground (arith, e, h)))
  ]

  module _ (p q : LivePosition F → Bool) (f : LivePosition F → LivePosition F) where
    -- What is changed no longer counts, and what counts is changed.
    pub keep-amend_gone :
        (rs : List (LivePosition F)) (r : LivePosition F)
        → ((x : LivePosition F) → p (f x) ≡ false)
        → q r ≡ true
        → (keep p rs ≡ []) ⊎ (keep p rs ≡ r ∷ [])
        → keep p (amend q f rs) ≡ []
    unfolding amend
    keep-amend_gone [] r off own h = refl
    keep-amend_gone (s ∷ rs) r off own h = elim (Bool-cases (p s)) [
      | inl e ↦
          let it : (s ≡ r) × (keep p rs ≡ []) = ground (arith, e, h) in
          let mine : q s ≡ true = rw it.0 own in
          rw (mine, off s) (keep-amend_gone rs r off own (inl it.1))
      | inr e ↦
          let rest : (keep p rs ≡ []) ⊎ (keep p rs ≡ r ∷ []) = ground (arith, e, h) in
          let later = keep-amend_gone rs r off own rest in
          elim (Bool-cases (q s)) [ inl g ↦ rw (g, off s) later | inr g ↦ rw (g, e) later ]
    ]

    pub keep-amend_none :
        (rs : List (LivePosition F)) → keep p rs ≡ [] → keep q rs ≡ [] → keep p (amend q f rs) ≡ []
    unfolding amend
    keep-amend_none [] h g = refl
    keep-amend_none (s ∷ rs) h g = elim (Bool-cases (p s)) [
      | inl e ↦ absurd (ground (arith, e, h))
      | inr e ↦ elim (Bool-cases (q s)) [
        | inl d ↦ absurd (ground (arith, d, g))
        | inr d ↦ rw (d, e) (keep-amend_none rs (ground (arith, e, h)) (ground (arith, d, g)))
      ]
    ]

    -- The one row that is changed is the only one that counts.
    pub keep-amend_one :
        (rs : List (LivePosition F)) (r : LivePosition F)
        → ((x : LivePosition F) → p (f x) ≡ true)
        → keep p rs ≡ []
        → keep q rs ≡ r ∷ []
        → keep p (amend q f rs) ≡ f r ∷ []
    unfolding amend
    keep-amend_one [] r on h g = absurd (ground arith)
    keep-amend_one (s ∷ rs) r on h g = elim (Bool-cases (p s)) [
      | inl e ↦ absurd (ground (arith, e, h))
      | inr e ↦
          let before : keep p rs ≡ [] = ground (arith, e, h) in
          elim (Bool-cases (q s)) [
            | inl d ↦
                let it : (s ≡ r) × (keep q rs ≡ []) = ground (arith, d, g) in
                rw (d, on s, keep-amend_none rs before it.1, it.0) refl
            | inr d ↦ rw (d, e) (keep-amend_one rs r on before (ground (arith, d, g)))
          ]
    ]
