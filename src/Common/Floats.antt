-- ===== src/Common/Floats.antt =====
-- What the program does with Python's floats: decimal literals, arithmetic, comparisons and
-- rounding. The type of the values is a parameter of the model; the laws that a theorem needs are
-- hypotheses, and fixed-point numbers meet them.
use Prim.Native.Nat.{ℕ, ◌*◌, ◌/◌, ◌^◌}
use mathlib.Core.Path.{◌≡◌, refl}
use mathlib.Core.Logic.{◌⊎◌}
use mathlib.Core.Bool.{Bool, true, false}
use native.Mathlib.Omega.{arith}
use mathlib.Core.List.{List, [], ◌∷◌}
use bist_bot.Common.Tests.{◌==◌, if◌then◌else◌}
use bist_bot.Common.Lists.{length}
use bist_bot.Common.Int.{
  ℤ, pos, pos_part, neg_part, neg, ◌+ℤ◌, ◌-ℤ◌, ◌*ℤ◌, quot_ℕ, ltb_ℤ, leb_ℤ, eqb_ℤ,
}

-- `lit m e` is the literal m / 10^e. `round x k` is Python's `round(x, k)`, `trunc` its `int`,
-- `is_finite` is `math.isfinite`, and `mean` and `pstdev` are those of the module `statistics`.
pub record Floats (F : Type 0) : Type 0 where
  pub lit : ℕ → ℕ → F
  pub minus : F → F
  pub add : F → F → F
  pub sub : F → F → F
  pub mul : F → F → F
  pub div : F → F → F
  pub lt : F → F → Bool
  pub le : F → F → Bool
  pub eq : F → F → Bool
  pub round : F → ℕ → F
  pub trunc : F → ℤ
  pub of_int : ℤ → F
  pub is_finite : F → Bool
  pub mean : List F → F
  pub pstdev : List F → F

module _ {F : Type 0} ⦃fl : Floats F⦄ where
  open fl use {lit, minus, lt}

  abbrev pub nought : F
  nought = lit 0 0

  -- Python's `max(a, b)`, `min(a, b)` and `abs(a)`.
  abbrev pub fmax : F → F → F
  fmax a b = if lt a b then b else a

  abbrev pub fmin : F → F → F
  fmin a b = if lt b a then b else a

  abbrev pub fabs : F → F
  fabs a = if lt a nought then minus a else a

-- The order of the floats away from NaN, which is the value that is not `<=` itself.
pub record IsOrdered (F : Type 0) ⦃fl : Floats F⦄ : Type 0 where
  pub nought_refl : fl.le (fl.lit 0 0) (fl.lit 0 0) ≡ true
  pub le_trans : (x y z : F) → fl.le x y ≡ true → fl.le y z ≡ true → fl.le x z ≡ true
  pub le_of_lt : (x y : F) → fl.lt x y ≡ true → fl.le x y ≡ true
  pub le-or-lt :
      (x y : F) → fl.le x x ≡ true → fl.le y y ≡ true → (fl.le x y ≡ true) ⊎ (fl.lt y x ≡ true)
  pub not-le-lt : (x y : F) → fl.le x y ≡ true → fl.lt y x ≡ false

-- `decimal.Decimal` as the money helpers use it: `of_float x` is `Decimal(str(x))`, `to_float` is
-- `float(d)`, and `quantize d k` rounds half up to k decimals.
pub record Decimals (F : Type 0) : Type 1 where
  pub Decimal : Type 0
  pub of_float : F → Decimal
  pub to_float : Decimal → F
  pub dadd : Decimal → Decimal → Decimal
  pub dsub : Decimal → Decimal → Decimal
  pub dmul : Decimal → Decimal → Decimal
  pub ddiv : Decimal → Decimal → Decimal
  pub quantize : Decimal → ℕ → Decimal

-- Fixed-point numbers with four decimals, for the examples.
abbrev pub Fixed : Type 0
Fixed = ℤ

abbrev pub unit_of : ℕ → ℤ
unit_of n = pos (n * 10_000)

abbrev pub sum_fixed : List ℤ → ℤ
sum_fixed [] = pos 0
sum_fixed (x ∷ xs) = x +ℤ sum_fixed xs

abbrev quot : ℤ → ℤ → ℤ
quot a b = if leb_ℤ b (pos 0) then neg (quot_ℕ a (neg_part b)) else quot_ℕ a (pos_part b)

abbrev times : ℤ → ℤ → ℤ
times a b = quot_ℕ (a *ℤ b) 10_000

abbrev over : ℤ → ℤ → ℤ
over a b = quot (a *ℤ pos 10_000) b

-- Two decimals are cents; with four nothing is left to round.
abbrev round_fixed : ℤ → ℕ → ℤ
round_fixed a k = if k == 2 then quot_ℕ (a +ℤ pos 50) 100 *ℤ pos 100 else a

instance abbrev pub fixed_decimals : Decimals Fixed
fixed_decimals = record {
  Decimal = ℤ;
  of_float = λ a. a;
  to_float = λ a. a;
  dadd = ◌+ℤ◌;
  dsub = ◌-ℤ◌;
  dmul = times;
  ddiv = over;
  quantize = round_fixed;
}

instance abbrev pub fixed_floats : Floats Fixed
fixed_floats = record {
  lit = λ m e. pos (m * 10_000 / 10 ^ e);
  minus = neg;
  add = ◌+ℤ◌;
  sub = ◌-ℤ◌;
  mul = times;
  div = over;
  lt = ltb_ℤ;
  le = leb_ℤ;
  eq = eqb_ℤ;
  round = λ a k. a;
  trunc = λ a. quot_ℕ a 10_000;
  of_int = λ a. a *ℤ pos 10_000;
  is_finite = λ a. true;
  mean = λ xs. quot_ℕ (sum_fixed xs) (length xs);
  pstdev = λ xs. pos 0;
}

pub Fixed-IsOrdered : IsOrdered Fixed
Fixed-IsOrdered = record {
  nought_refl = refl;
  le_trans = λ x y z p q. ground arith;
  le_of_lt = λ x y p. ground arith;
  le-or-lt = λ x y p q. ground arith;
  not-le-lt = λ x y p. ground arith;
}
