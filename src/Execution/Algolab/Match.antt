-- ===== src/Execution/Algolab/Match.antt =====
-- Reading the venue's order  (execution/algolab_broker.py): which order is the one that was
-- submitted, and what was filled of it.
use bist_bot.Common.{
  ℕ, ◌+◌, ◌-◌, ◌/◌, Bool, true, false, Option, none, some, List, [], ◌∷◌, if◌then◌else◌, ◌==◌, leb,
  ◌&&◌, ◌||◌, not, keep,
}
use bist_bot.Common.Floats.{Floats, nought, fabs}
use bist_bot.Execution.Order.{
  OrderType, OrderSide, OrderState, is_filled, is_working, is_created, is_buy, Order,
}
use bist_bot.Execution.Intents.{Intents, holds_value, is_broker_order_bound}
use bist_bot.Execution.Algolab.{Terms}

-- A reading of the fill of an order: sound, an error, or FILLED with a partial quantity.
pub data FillProblem : Type 0 where
  sound invalid partial_quantity : FillProblem

abbrev pub is_invalid : FillProblem → Bool
is_invalid FillProblem.invalid = true
is_invalid _ = false

abbrev pub is_sound : FillProblem → Bool
is_sound FillProblem.sound = true
is_sound _ = false

pub record Fill (F : Type 0) : Type 0 where
  pub filled : F
  pub average : Option F
  pub problem : FillProblem

abbrev pub same_side : OrderSide → OrderSide → Bool
same_side a b = if is_buy a then is_buy b else not (is_buy b)

abbrev pub same_type : OrderType → OrderType → Bool
same_type OrderType.market OrderType.market = true
same_type OrderType.limit OrderType.limit = true
same_type OrderType.stop OrderType.stop = true
same_type _ _ = false

-- The state is SENT, CREATED or PARTIAL.
abbrev pub is_live : OrderState → Bool
is_live s = is_working s || is_created s

-- The date in Istanbul, three hours ahead of UTC, of a time in seconds.
abbrev pub trading_day : ℕ → ℕ
trading_day t = (t + 10_800) / 86_400

-- `sorted({a, b, c})` of three days in order.
abbrev pub distinct : ℕ → ℕ → ℕ → List ℕ
distinct a b c =
    if a == b
    then (if b == c then a ∷ [] else a ∷ c ∷ [])
    else (if b == c then a ∷ b ∷ [] else a ∷ b ∷ c ∷ [])

abbrev pub trading_days : ℕ → ℕ → List ℕ
trading_days window submitted_at =
    distinct (trading_day (submitted_at - window)) (trading_day submitted_at)
      (trading_day (submitted_at + window))

abbrev pub apart : ℕ → ℕ → ℕ
apart a b = a - b + (b - a)

module _ {F : Type 0} ⦃fl : Floats F⦄ where
  open fl use {lit, sub, lt, le, eq, is_finite}

  -- `_same_optional_number`
  unfoldable pub same_optional_number : Option F → Option F → Bool
  same_optional_number none none = true
  same_optional_number none (some _) = false
  same_optional_number (some _) none = false
  same_optional_number (some a) (some b) = lt (fabs (sub a b)) (lit 1 9)

  -- The average price, where it is a positive number.
  unfoldable pub usable_average : Option F → Option F
  usable_average none = none
  usable_average (some a) = if is_finite a && lt nought a then some a else none

  -- `_validate_history_fill`, for quantities that are not NaN: on a NaN the comparisons of the code raise
  -- InvalidOperation.
  unfoldable pub validate_history_fill : F → Option F → F → OrderState → Fill F
  validate_history_fill filled average submitted state =
      let usable = usable_average average in
      if lt filled nought
      then record { filled = nought; average = none; problem = FillProblem.invalid }
      else (if lt nought submitted && lt submitted filled
          then record { filled = nought; average = none; problem = FillProblem.invalid }
          else record {
            filled = filled;
            average = usable;
            problem =
                if is_filled state && (lt nought submitted && not (eq filled submitted))
                then FillProblem.partial_quantity
                else FillProblem.sound;
          })

  -- The order is not bound to another intent.
  unfoldable pub is_eligible : ℕ → Option (Intents F) → Order F → Bool
  is_eligible client_id intents o = elim o.broker_order_id [
    | none ↦ true
    | some b ↦ elim intents [ none ↦ true | some t ↦ not (is_broker_order_bound b client_id t) ]
  ]

  -- The order has the terms that were submitted, about when they were.
  unfoldable pub is_alike : ℕ → ℕ → Terms F → Order F → Bool
  is_alike window submitted_at terms o =
      (o.ticker == terms.ticker)
      && (same_side o.side terms.side
          && (same_type o.order_type terms.order_type
              && (lt (fabs (sub o.quantity terms.quantity)) (lit 1 9)
                  && (same_optional_number o.price terms.price
                      && (same_optional_number o.stop_price terms.stop_price
                          && leb (apart o.created_at submitted_at) window)))))

  abbrev pub or_list : List (Order F) → List (Order F) → List (Order F)
  or_list [] ys = ys
  or_list (x ∷ xs) ys = x ∷ xs

  -- `matches`: the eligible orders that carry the client id, or else those that are alike.
  unfoldable pub matches_of :
      Bool → ℕ → ℕ → Terms F → ℕ → Option (Intents F) → List (Order F) → List (Order F)
  matches_of send_client_id window submitted_at terms client_id intents orders =
      let eligible = keep (is_eligible client_id intents) orders in
      let by_id =
        if send_client_id
        then keep (λ o. holds_value o.client_order_id client_id) eligible
        else [] in
      or_list by_id (keep (is_alike window submitted_at terms) eligible)
