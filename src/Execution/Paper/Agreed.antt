-- ===== src/Execution/Paper/Agreed.antt =====
-- The rows that the executor of src/bist_bot/execution/order_executor.py writes, and the book of the
-- simulated broker of src/bist_bot/execution/paper_broker.py that it sends to.
use bist_bot.Common.{
  ℕ, suc, ◌+◌, ◌≤◌, ◌≢◌, ◌≡◌, ◌⊎◌, refl, sym, ap, ◌∙◌, inl, inr, Bool, true, false, Option, none,
  some, List, [], ◌∷◌, ◌++◌, All, if◌then◌else◌, ◌==◌, not, ◌||◌, is_some, arith, Bool-cases,
  Option-cases, Dict, Each, Each-lookup, lookup,
}
use mathlib.Core.Path.{subst}
use bist_bot.Common.Floats.{Floats, Decimals}
use bist_bot.Execution.Raises.{Result, ok}
use bist_bot.Execution.Order.{OrderType, OrderState, OrderResult, Order}
use bist_bot.Execution.Executor.{
  is_executable, side_of, Signal, Entry, OrderExecutor, head_of, tail_of, set_state, create_order,
  update_order, enabled, settle_result, submit_signal, admitted, authenticated, resolve_quantity,
  execute_signal, execute_signals,
}
use bist_bot.Execution.Paper.{place_order}
use bist_bot.Execution.Paper.Routed.{Simulated, paper_broker, place_order-stores}

abbrev pub IsOk {ℓ} : {A : Type ℓ} → Result A → Type ℓ
IsOk {A = A} r = (a : A) × (r ≡ ok a)

module _ {F : Type 0} ⦃fl : Floats F⦄ ⦃dc : Decimals F⦄ where
  -- A row that was never updated, or one whose order in the book has its terms and its state.
  abbrev pub Reports : Dict (Order F) → Entry F → Type 0
  Reports book r =
      ((r.broker_order_id ≡ none) × (r.state ≡ OrderState.created))
      ⊎ ((id : ℕ) × (o : Order F) × (r.broker_order_id ≡ some id)
          × (lookup id book ≡ some o)
          × (o.ticker ≡ r.ticker)
          × (o.side ≡ r.side)
          × (o.quantity ≡ r.qty)
          × (o.order_type ≡ r.order_type)
          × (o.state ≡ r.state))

  abbrev pub RowFits : ℕ → Dict (Order F) → Entry F → Type 0
  RowFits next_id book r = (suc r.id ≤ next_id) × Reports book r

  -- Every row reports its order, and the ids still to come are new on both sides.
  pub record IsAgreed (x : OrderExecutor F (Simulated F)) : Type 0 where
    pub rows : All (RowFits x.next_id x.broker.broker.orders) x.orders
    pub ids : Each (λ id o. suc id ≤ x.broker.drawn) x.broker.broker.orders

  set_state-last :
      (state : OrderState) (given : ℕ) (rs : List (Entry F)) (e : Entry F) (book : Dict (Order F))
      → All (RowFits e.id book) rs
      → set_state e.id state (some given) (rs ++ (e ∷ []))
        ≡ rs ++ (record e { state = state; broker_order_id = some given } ∷ [])
  unfolding set_state
  set_state-last state given [] e book all =
      let same : e.id == e.id ≡ true = ground arith in rw same refl
  set_state-last state given (r ∷ rs) e book (fits, all) =
      let other : r.id == e.id ≡ false = ground (arith, fits) in
      rw other (ap (λ ys. r ∷ ys) (set_state-last state given rs e book all))

  All-last :
      (n : ℕ) (book : Dict (Order F)) (rs : List (Entry F)) (e : Entry F)
      → All (RowFits n book) rs
      → RowFits n book e
      → All (RowFits n book) (rs ++ (e ∷ []))
  All-last n book [] e all h = (h, tt)
  All-last n book (r ∷ rs) e all h = (all.0, All-last n book rs e all.1 h)

  -- Rows fit a later book that has the orders of the earlier one.
  All-later :
      (n n' drawn : ℕ) (book book' : Dict (Order F)) (rs : List (Entry F))
      → n ≤ n'
      → Each (λ id o. suc id ≤ drawn) book
      → ((j : ℕ) → j ≢ drawn → lookup j book' ≡ lookup j book)
      → All (RowFits n book) rs
      → All (RowFits n' book') rs
  All-later n n' drawn book book' [] le ids same all = tt
  All-later n n' drawn book book' (r ∷ rs) le ids same (fits, all) = (
    (
      omega (arith, fits.0, le),
      elim fits.1 [
        | inl untouched ↦ inl untouched
        | inr (id, o, known, found, t, d, q, y, state) ↦
            let earlier = Each-lookup (λ j p. suc j ≤ drawn) id book ids found in
            inr (id, o, known, same id (ground (arith, earlier)) ∙ found, t, d, q, y, state)
      ],
    ),
    All-later n n' drawn book book' rs le ids same all,
  )

  Each-later :
      (n : ℕ) (book : Dict (Order F))
      → Each (λ id o. suc id ≤ n) book
      → Each (λ id o. suc id ≤ n + 1) book
  Each-later n [] all = tt
  Each-later n (e ∷ book) all = (omega (arith, all.0), Each-later n book all.1)

  abbrev Agrees : {A : Type 0} → Result A × OrderExecutor F (Simulated F) → Type 0
  Agrees out = IsOk out.0 × IsAgreed out.1

  submit_signal-IsAgreed :
      (signal : Signal F) (q : F) (type : OrderType) (price : Option F)
      (x : OrderExecutor F (Simulated F))
      → IsAgreed x
      → Agrees (submit_signal paper_broker signal q type price x)
  unfolding submit_signal create_order settle_result update_order
  submit_signal-IsAgreed signal q type price x a =
      let s = x.broker in
      let side = side_of signal.signal_type in
      let at = if is_some price then price else signal.price in
      let (b, r) =
        place_order (s.clock s.drawn) s.drawn signal.ticker side q type at none s.broker in
      let (stored, named, others, numbered) =
        place_order-stores (s.clock s.drawn) s.drawn signal.ticker side q type at none s.broker in
      let ids = numbered (s.drawn + 1) (omega arith) (Each-later s.drawn s.broker.orders a.ids) in
      let s1 : Simulated F = record s { broker = b; drawn = s.drawn + 1 } in
      let kept : (n : ℕ) → x.next_id ≤ n → All (RowFits n b.orders) x.orders = λ n le.
        All-later x.next_id n s.drawn s.broker.orders b.orders x.orders le a.ids others a.rows in
      let run = submit_signal paper_broker signal q type price x in
      let answer : Result (Option OrderResult) = ok (some r) in
      let unwritten : (faults : List Bool)
          → Agrees (answer, record x { broker = s1; faults = faults }) =
        λ faults. ((some r, refl), record { rows = kept x.next_id (omega arith); ids = ids }) in
      elim (Bool-cases x.has_db) [
        | inr none_there ↦
            let same : run ≡ (answer, record x { broker = s1 }) =
              rw (none_there, submit_signal) refl in
            subst Agrees (sym same) (unwritten x.faults)
        | inl there ↦ elim (Bool-cases (head_of x.faults)) [
          | inl failed ↦
              let left = tail_of x.faults in
              let same : run ≡ (answer, record x { broker = s1; faults = left }) =
                rw (there, failed, submit_signal) refl in
              subst Agrees (sym same) (unwritten left)
          | inr made ↦
              let e : Entry F = record {
                id = x.next_id;
                ticker = signal.ticker;
                side = side;
                qty = q;
                order_type = type;
                price = price;
                state = OrderState.created;
                broker_order_id = none;
              } in
              let le : suc x.next_id ≤ x.next_id + 1 = omega arith in
              let add = λ (row : Entry F) (fits : RowFits (x.next_id + 1) b.orders row).
                All-last (x.next_id + 1) b.orders x.orders row (kept (x.next_id + 1) (omega arith))
                  fits in
              let left = tail_of (tail_of x.faults) in
              let recorded : List (Entry F) → OrderExecutor F (Simulated F) = λ rows. record x {
                broker = s1;
                orders = rows;
                next_id = x.next_id + 1;
                faults = left;
              } in
              elim (Bool-cases (head_of (tail_of x.faults))) [
                | inl lost ↦
                    let same : run ≡ (answer, recorded (x.orders ++ (e ∷ []))) =
                      rw (there, made, lost, submit_signal) refl in
                    subst Agrees (sym same)
                      ((some r, refl), record { rows = add e (le, inl (refl, refl)); ids = ids })
                | inr written ↦
                    let told = record e { state = r.state; broker_order_id = some s.drawn } in
                    let row = set_state-last r.state s.drawn x.orders e s.broker.orders a.rows in
                    let same : run ≡ (answer, recorded (x.orders ++ (told ∷ []))) =
                      rw (there, made, written, submit_signal, named, row) refl in
                    let (o, found, t, d, amount, y, state) = stored in
                    subst Agrees (sym same) (
                      (some r, refl),
                      record {
                        rows = add told (le, inr (s.drawn, o, refl, found, t, d, amount, y, state));
                        ids = ids;
                      },
                    )
              ]
        ]
      ]

  execute_signal-IsAgreed :
      (signal : Signal F) (quantity : Option F) (type : OrderType) (price : Option F) (force : Bool)
      (x : OrderExecutor F (Simulated F))
      → IsAgreed x
      → Agrees (execute_signal paper_broker signal quantity type price force x)
  unfolding execute_signal authenticated admitted
  execute_signal-IsAgreed signal quantity type price force x a =
      elim (Bool-cases (not (enabled force x) || not (is_executable signal.signal_type))) [
        | inl e ↦ rw (execute_signal, e) ((none, refl), a)
        | inr e ↦ elim (Option-cases (resolve_quantity paper_broker signal quantity)) [
          | inl g ↦ rw (execute_signal, e, g) ((none, refl), a)
          | inr (q, g) ↦ rw (execute_signal, e, g) (submit_signal-IsAgreed signal q type price x a)
        ]
      ]

  -- With the simulated broker, executing signals always returns its results, and keeps the two sides in
  -- agreement, whichever sessions of the database fail: every row of the orders is as it was created, with no
  -- order id, or it names an order of the broker's book that has its ticker, side, quantity, type and
  -- state.
  pub execute_signals-IsAgreed :
      (signals : List (Signal F)) (force : Bool) (x : OrderExecutor F (Simulated F))
      → IsAgreed x
      → let (r, after) = execute_signals paper_broker signals force x in IsOk r × IsAgreed after
  unfolding execute_signals
  execute_signals-IsAgreed [] force x a = (([], refl), a)
  execute_signals-IsAgreed (s ∷ ss) force x a =
      let ((o, done), agreed) = execute_signal-IsAgreed s none OrderType.market none force x a in
      let x1 = (execute_signal paper_broker s none OrderType.market none force x).1 in
      let ((rs, rest), after) = execute_signals-IsAgreed ss force x1 agreed in
      let run = execute_signals paper_broker (s ∷ ss) force x in
      let results : List OrderResult = elim o [ none ↦ rs | some result ↦ result ∷ rs ] in
      let same : run ≡ (ok results, (execute_signals paper_broker ss force x1).1) =
        rw (execute_signals, done, rest) refl in
      subst Agrees (sym same) ((results, refl), after)
