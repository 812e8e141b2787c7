-- ===== src/Execution/Paper/Product.antt =====
-- The two older calls of PaperBroker (execution/paper_broker.py), with the helpers of
-- execution/base.py that they use.
use bist_bot.Common.{ℕ, Option, none, some}
use bist_bot.Common.Floats.{Floats, Decimals}
use bist_bot.Execution.Order.{OrderType, OrderSide, OrderResult, AccountInfo}
use bist_bot.Execution.Paper.{PaperBroker, place_order, get_account_info}

-- A member of an enumeration, or a text in capitals with the member that it names, if any.
pub data OrText (A : Type 0) : Type 0 where
  member : A → OrText A
  spelled : Option A → OrText A

-- `coerce_side` and `coerce_order_type`; `none` is a ValueError.
abbrev pub coerce : {A : Type 0} → OrText A → Option A
coerce (OrText.member a) = some a
coerce (OrText.spelled o) = o

pub record Balance (F : Type 0) : Type 0 where
  pub cash : F
  pub buying_power : F
  pub equity : F

abbrev pub from_account_info : {F : Type 0} → AccountInfo F → Balance F
from_account_info info = record {
  cash = info.cash_balance;
  buying_power = info.buying_power;
  equity = info.equity;
}

module _ {F : Type 0} ⦃fl : Floats F⦄ ⦃dc : Decimals F⦄ where
  unfoldable pub submit_order :
      ℕ
      → ℕ
      → ℕ
      → OrText OrderSide
      → F
      → OrText OrderType
      → Option F
      → Option F
      → PaperBroker F
      → Option (PaperBroker F × OrderResult)
  submit_order now order_id ticker side quantity order_type price stop_price b =
      elim (coerce side) [
        | none ↦ none
        | some s ↦ elim (coerce order_type) [
          | none ↦ none
          | some t ↦ some (place_order now order_id ticker s quantity t price stop_price b)
        ]
      ]

  unfoldable pub get_balance : PaperBroker F → Balance F
  get_balance b = from_account_info (get_account_info b)
