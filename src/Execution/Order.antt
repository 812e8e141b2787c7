-- ===== src/Execution/Order.antt =====
-- The order models of src/bist_bot/execution/base.py. Tickers, order ids and texts are only
-- compared, and stand as numbers; a text that may be empty is an option. Times are seconds.
use bist_bot.Common.{ℕ, ◌≡◌, refl, ◌⊎◌, inl, inr, Bool, true, false, Option, if◌then◌else◌, ◌||◌}
use bist_bot.Common.Floats.{Floats, nought, fmax, fabs}
use bist_bot.Risk.Money.{qty_eps}

pub data OrderType : Type 0 where
  market limit stop : OrderType

pub data OrderSide : Type 0 where
  buy sell : OrderSide

pub data OrderState : Type 0 where
  created sent partial filled cancelled rejected : OrderState

-- `==` on the enums.
abbrev pub is_market : OrderType → Bool
is_market OrderType.market = true
is_market _ = false

abbrev pub is_buy : OrderSide → Bool
is_buy OrderSide.buy = true
is_buy OrderSide.sell = false

abbrev pub is_created : OrderState → Bool
is_created OrderState.created = true
is_created _ = false

abbrev pub is_filled : OrderState → Bool
is_filled OrderState.filled = true
is_filled _ = false

-- `state in {SENT, PARTIAL}`
abbrev pub is_working : OrderState → Bool
is_working OrderState.sent = true
is_working OrderState.partial = true
is_working _ = false

-- `state in {CANCELLED, REJECTED}`
abbrev pub is_dropped : OrderState → Bool
is_dropped OrderState.cancelled = true
is_dropped OrderState.rejected = true
is_dropped _ = false

-- `state in {FILLED, CANCELLED, REJECTED}`
abbrev pub is_terminal : OrderState → Bool
is_terminal s = is_filled s || is_dropped s

pub record Position (F : Type 0) : Type 0 where
  pub ticker : ℕ
  pub quantity : F
  pub average_price : F
  pub market_value : F
  pub unrealized_pnl : F
  pub updated_at : ℕ

-- `reason`, `client_order_id` and `state_known` are the entries that `metadata` may hold.
pub record Order (F : Type 0) : Type 0 where
  pub ticker : ℕ
  pub side : OrderSide
  pub quantity : F
  pub order_type : OrderType
  pub price : Option F
  pub stop_price : Option F
  pub order_id : ℕ
  pub broker_order_id : Option ℕ
  pub state : OrderState
  pub filled_quantity : F
  pub average_fill_price : Option F
  pub created_at : ℕ
  pub updated_at : ℕ
  pub reason : Option ℕ
  pub client_order_id : Option ℕ
  pub state_known : Bool

pub record OrderStatus (F : Type 0) : Type 0 where
  pub order_id : ℕ
  pub state : OrderState
  pub filled_quantity : F
  pub average_fill_price : Option F
  pub broker_order_id : Option ℕ

pub record OrderResult : Type 0 where
  pub accepted : Bool
  pub order_id : ℕ
  pub state : OrderState
  pub broker_order_id : Option ℕ

pub record AccountInfo (F : Type 0) : Type 0 where
  pub cash_balance : F
  pub buying_power : F
  pub equity : F

-- What remains of this quantity when so much is filled: dust below 1e-9 is no remainder.
unfoldable pub remainder : {F : Type 0} ⦃fl : Floats F⦄ → F → F → F
remainder ⦃fl⦄ quantity filled_quantity =
    let remaining = fl.sub quantity filled_quantity in
    if fl.lt (fabs remaining) qty_eps then nought else fmax remaining nought

abbrev pub remaining_quantity : {F : Type 0} ⦃fl : Floats F⦄ → Order F → F
remaining_quantity o = remainder o.quantity o.filled_quantity

pub OrderSide-cases : (s : OrderSide) → (s ≡ OrderSide.buy) ⊎ (s ≡ OrderSide.sell)
OrderSide-cases OrderSide.buy = inl refl
OrderSide-cases OrderSide.sell = inr refl
