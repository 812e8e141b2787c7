-- ===== src/Execution/Intents/Unique.antt =====
-- The unique columns of the table of db/repositories/order_intents_repository.py.
use bist_bot.Common.{
  ℕ, ◌≡◌, refl, ◌⊎◌, inl, inr, Bool, false, Option, none, some, List, [], ◌∷◌, ◌++◌, arith,
  Bool-cases, any, ◌||◌, or_else,
}
use bist_bot.Execution.Order.{OrderType, OrderSide}
use bist_bot.Execution.Intents.{
  Intent, Intents, IntentStatus, SnapshotText, has_client, has_client_in, has_key, create, amend,
  written, update, update_conditional,
}

module _ {F : Type 0} where
  -- The row holds no lock, or that of its own ticker, which none of the rows holds.
  abbrev pub IsFreeIn : Intent F → List (Intent F) → Type 0
  IsFreeIn r rs =
      (any (has_client r.client_id) rs ≡ false)
      × ((r.active_key ≡ none)
          ⊎ ((r.active_key ≡ some r.ticker) × (any (has_key r.ticker) rs ≡ false)))

  -- No two rows have the same client id, or the lock of the same ticker.
  abbrev pub IsUnique : List (Intent F) → Type 0
  IsUnique [] = Unit
  IsUnique (r ∷ rs) = IsFreeIn r rs × IsUnique rs

  -- A change of a row that keeps its ids and never takes a lock.
  abbrev IsTame : (Intent F → Intent F) → Type 0
  IsTame f =
      (r : Intent F)
      → ((f r).client_id ≡ r.client_id)
        × ((f r).ticker ≡ r.ticker)
        × (((f r).active_key ≡ r.active_key) ⊎ ((f r).active_key ≡ none))

  any_client-amend :
      (p : Intent F → Bool) (f : Intent F → Intent F) (k : ℕ) (rs : List (Intent F))
      → IsTame f
      → any (has_client k) (amend p f rs) ≡ any (has_client k) rs
  unfolding amend
  any_client-amend p f k [] tame = refl
  any_client-amend p f k (r ∷ rs) tame = ground (arith, tame r, any_client-amend p f k rs tame)

  any_key-amend :
      (p : Intent F → Bool) (f : Intent F → Intent F) (k : ℕ) (rs : List (Intent F))
      → IsTame f
      → any (has_key k) rs ≡ false
      → any (has_key k) (amend p f rs) ≡ false
  unfolding amend
  any_key-amend p f k [] tame h = refl
  any_key-amend p f k (r ∷ rs) tame h = ground (arith, tame r, any_key-amend p f k rs tame)

  amend-IsUnique :
      (p : Intent F → Bool) (f : Intent F → Intent F) (rs : List (Intent F))
      → IsTame f
      → IsUnique rs
      → IsUnique (amend p f rs)
  unfolding amend
  amend-IsUnique p f [] tame u = tt
  amend-IsUnique p f (r ∷ rs) tame u = elim (Bool-cases (p r)) [
    | inl e ↦ rw e (ground (arith, tame r), u.1)
    | inr e ↦ rw e (
      ground (arith, any_client-amend p f r.client_id rs tame, any_key-amend p f r.ticker rs tame),
      amend-IsUnique p f rs tame u.1,
    )
  ]

  written-IsTame :
      (now : ℕ) (status : IntentStatus) (broker : Option ℕ) (release : Option Bool)
      → IsTame (written now status broker release)
  unfolding written
  written-IsTame now status broker release r = ground arith

  pub any-append_one :
      (p : Intent F → Bool) (rs : List (Intent F)) (r : Intent F)
      → any p (rs ++ (r ∷ [])) ≡ (any p rs || p r)
  any-append_one p [] r = ground arith
  any-append_one p (s ∷ rs) r = ground (arith, any-append_one p rs r)

  append-IsUnique :
      (rs : List (Intent F)) (r : Intent F)
      → any (has_client r.client_id) rs ≡ false
      → any (has_key r.ticker) rs ≡ false
      → r.active_key ≡ some r.ticker
      → IsUnique rs
      → IsUnique (rs ++ (r ∷ []))
  append-IsUnique [] r c k own u = ((refl, inr (own, refl)), tt)
  append-IsUnique (s ∷ rs) r c k own u = (
    ground (
      arith,
      u.0,
      any-append_one (has_client s.client_id) rs r,
      any-append_one (has_key s.ticker) rs r,
    ),
    append-IsUnique rs r (ground arith) (ground arith) own u.1,
  )

-- The calls that write, with the clock readings that they take.
pub data Write (F : Type 0) : Type 0 where
  insert_row :
      ℕ
      → ℕ
      → ℕ
      → OrderSide
      → F
      → OrderType
      → Option F
      → Option F
      → Option ℕ
      → SnapshotText F
      → Write F
  set_row : ℕ → ℕ → IntentStatus → Option ℕ → Option Bool → Write F
  compare_and_set : ℕ → ℕ → IntentStatus → (IntentStatus → Bool) → Option ℕ → Option Bool → Write F

module _ {F : Type 0} where
  -- A write that a unique column refuses leaves the table.
  abbrev pub write : Write F → Intents F → Intents F
  write (insert_row now c k side q type price stop db snapshot) t =
      or_else (create now c k side q type price stop db snapshot t) t
  write (set_row now c status broker release) t = update now c status broker release t
  write (compare_and_set now c status expected broker release) t =
      update_conditional now c status expected broker release t

  abbrev pub write_all : List (Write F) → Intents F → Intents F
  write_all [] t = t
  write_all (w ∷ ws) t = write_all ws (write w t)

  write-IsUnique : (w : Write F) (t : Intents F) → IsUnique t.rows → IsUnique (write w t).rows
  write-IsUnique (insert_row now c k side q type price stop db snapshot) t u =
      unfold create in
      elim (Bool-cases (any (has_client c) t.rows || any (has_key k) t.rows)) [
        | inl e ↦ rw e u
        | inr e ↦ rw e (append-IsUnique t.rows _ (ground arith) (ground arith) refl u)
      ]
  write-IsUnique (set_row now c status broker release) t u =
      unfold update in
      amend-IsUnique (has_client c) (written now status broker release) t.rows
        (written-IsTame now status broker release) u
  write-IsUnique (compare_and_set now c status expected broker release) t u =
      unfold update_conditional in
      amend-IsUnique (has_client_in c expected) (written now status broker release) t.rows
        (written-IsTame now status broker release) u

  -- Whatever is written to a table with unique client ids and locks, they stay unique: no two
  -- intents share a client id, at most one holds the lock of a ticker, and it is one for that ticker.
  pub write_all-IsUnique :
      (ws : List (Write F)) (t : Intents F) → IsUnique t.rows → IsUnique (write_all ws t).rows
  write_all-IsUnique [] t u = u
  write_all-IsUnique (w ∷ ws) t u = write_all-IsUnique ws (write w t) (write-IsUnique w t u)
