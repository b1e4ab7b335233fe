-- ===== src/Decimal/Context.antt =====
-- Python's `Decimal` (standard library) as an interface: a carrier whose equality is numeric equality,
-- the operations of the active context, which may round their results, and the order, which is exact.
-- The laws are separate records; a theorem takes those that it needs.
use ai_trading_advisor.Prelude.{
  ◌≡◌, Bool, true, false, ◌&&◌, Option, none, some, List, [], ◌∷◌, if◌then◌else◌, negb,
}

pub record DecimalContext : Type 1 where
  pub Decimal : Type 0
  pub zero : Decimal
  pub hundred : Decimal
  pub add : Decimal → Decimal → Decimal
  pub sub : Decimal → Decimal → Decimal
  pub mul : Decimal → Decimal → Decimal
  pub div : Decimal → Decimal → Decimal
  pub neg : Decimal → Decimal
  pub floor : Decimal → Decimal
  pub le : Decimal → Decimal → Bool

module _ (C : DecimalContext) where
  open C use {Decimal, zero, add, le}

  -- `a < b`
  abbrev pub lt : Decimal → Decimal → Bool
  lt a b = negb (le b a)

  -- `max(a, b)` and `min(a, b)`: the first argument unless the second is strictly better.
  abbrev pub max : Decimal → Decimal → Decimal
  max a b = if lt a b then b else a

  abbrev pub min : Decimal → Decimal → Decimal
  min a b = if lt b a then b else a

  -- `a == b`
  abbrev pub eq : Decimal → Decimal → Bool
  eq a b = le a b && le b a

  -- `a == b` where either may be `None`.
  abbrev pub eq_option : Option Decimal → Option Decimal → Bool
  eq_option none none = true
  eq_option (some a) (some b) = eq a b
  eq_option _ _ = false

  -- `sum(xs, start)`
  abbrev pub sum_from : Decimal → List Decimal → Decimal
  sum_from start [] = start
  sum_from start (x ∷ xs) = sum_from (add start x) xs

-- The order is total and transitive.
pub record OrderLaws (C : DecimalContext) : Type 0 where
  pub le_refl : (a : C.Decimal) → C.le a a ≡ true
  pub le_trans : (a b c : C.Decimal) → C.le a b ≡ true → C.le b c ≡ true → C.le a c ≡ true
  pub le_total : (a b : C.Decimal) → C.le a b ≡ false → C.le b a ≡ true

-- Products and quotients of positive numbers are positive: no result underflows to zero.
pub record PositiveLaws (C : DecimalContext) : Type 0 where
  pub hundred_pos : lt C C.zero C.hundred ≡ true
  pub mul_pos :
      (a b : C.Decimal)
      → lt C C.zero a ≡ true
      → lt C C.zero b ≡ true
      → lt C C.zero (C.mul a b) ≡ true
  pub div_pos :
      (a b : C.Decimal)
      → lt C C.zero a ≡ true
      → lt C C.zero b ≡ true
      → lt C C.zero (C.div a b) ≡ true

-- Scaling by a quotient that is at most one does not enlarge an amount. Correct rounding has this for
-- amounts that fit the precision.
pub record ShrinkLaws (C : DecimalContext) : Type 0 where
  pub scale_le :
      (x c t : C.Decimal)
      → C.le C.zero x ≡ true
      → C.le C.zero c ≡ true
      → lt C C.zero t ≡ true
      → C.le c t ≡ true
      → C.le (C.mul x (C.div c t)) x ≡ true

-- A difference has the sign of the comparison: rounding does not change the sign of a result.
pub record DifferenceLaws (C : DecimalContext) : Type 0 where
  pub sub_le_zero : (a b : C.Decimal) → C.le (C.sub a b) C.zero ≡ C.le a b
  pub zero_le_sub : (a b : C.Decimal) → C.le C.zero (C.sub a b) ≡ C.le b a

-- Whole steps: the multiple of a step below an amount, and sums with it. Python's operations have
-- these laws as long as the results, and the quotient up to its first digit after the point that is
-- not 9, fit the precision of the context.
pub record GridLaws (C : DecimalContext) : Type 0 where
  pub floor_nonneg : (a : C.Decimal) → C.le C.zero a ≡ true → C.le C.zero (C.floor a) ≡ true
  pub le_add : (a b : C.Decimal) → C.le C.zero b ≡ true → C.le a (C.add a b) ≡ true
  pub add_le : (a b c : C.Decimal) → C.le b (C.sub c a) ≡ true → C.le (C.add a b) c ≡ true
  pub floor_mul_le :
      (a s : C.Decimal)
      → C.le C.zero a ≡ true
      → lt C C.zero s ≡ true
      → C.le (C.mul (C.floor (C.div a s)) s) a ≡ true

-- Sums are exact. Python's are, as long as they fit the precision of the context.
pub record ExactAddLaws (C : DecimalContext) : Type 0 where
  pub add_zero : (a : C.Decimal) → C.add a C.zero ≡ a
  pub add_comm : (a b : C.Decimal) → C.add a b ≡ C.add b a
  pub add_assoc : (a b c : C.Decimal) → C.add (C.add a b) c ≡ C.add a (C.add b c)

-- Sums, products and quotients of amounts that are not negative are not negative.
pub record SignLaws (C : DecimalContext) : Type 0 where
  pub add_nonneg :
      (a b : C.Decimal)
      → C.le C.zero a ≡ true
      → C.le C.zero b ≡ true
      → C.le C.zero (C.add a b) ≡ true
  pub mul_nonneg :
      (a b : C.Decimal)
      → C.le C.zero a ≡ true
      → C.le C.zero b ≡ true
      → C.le C.zero (C.mul a b) ≡ true
  pub div_nonneg :
      (a b : C.Decimal)
      → C.le C.zero a ≡ true
      → lt C C.zero b ≡ true
      → C.le C.zero (C.div a b) ≡ true
