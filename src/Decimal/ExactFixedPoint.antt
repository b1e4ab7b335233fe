-- ===== src/Decimal/ExactFixedPoint.antt =====
-- The fixed-point context has exact sums, and its operations keep the sign.
use ai_trading_advisor.Prelude.{◌≡◌, true, false, arith}
use ai_trading_advisor.Decimal.Context.{ExactAddLaws, SignLaws, lt}
use ai_trading_advisor.Decimal.FixedPoint.{ℤ, pos, negsuc, fixed_point}

add_zero : (a : ℤ) → (fixed_point false).add a (pos 0) ≡ a
add_zero (pos a) = ground arith
add_zero (negsuc a) = ground arith

add_comm : (a b : ℤ) → (fixed_point false).add a b ≡ (fixed_point false).add b a
add_comm a b = ground arith

add_assoc :
    (a b c : ℤ)
    → (fixed_point false).add ((fixed_point false).add a b) c
      ≡ (fixed_point false).add a ((fixed_point false).add b c)
add_assoc a b c = ground arith

pub fixed_point-ExactAddLaws : ExactAddLaws (fixed_point false)
fixed_point-ExactAddLaws = record {
  add_zero = add_zero;
  add_comm = add_comm;
  add_assoc = add_assoc;
}

add_nonneg :
    (a b : ℤ)
    → (fixed_point false).le (pos 0) a ≡ true
    → (fixed_point false).le (pos 0) b ≡ true
    → (fixed_point false).le (pos 0) ((fixed_point false).add a b) ≡ true
add_nonneg (pos a) (pos b) h k = ground arith
add_nonneg (pos a) (negsuc b) h k = ground arith
add_nonneg (negsuc a) b h k = ground arith

mul_nonneg :
    (a b : ℤ)
    → (fixed_point false).le (pos 0) a ≡ true
    → (fixed_point false).le (pos 0) b ≡ true
    → (fixed_point false).le (pos 0) ((fixed_point false).mul a b) ≡ true
mul_nonneg (pos a) (pos b) h k = ground arith
mul_nonneg (pos a) (negsuc b) h k = ground arith
mul_nonneg (negsuc a) b h k = ground arith

div_nonneg :
    (a b : ℤ)
    → (fixed_point false).le (pos 0) a ≡ true
    → lt (fixed_point false) (pos 0) b ≡ true
    → (fixed_point false).le (pos 0) ((fixed_point false).div a b) ≡ true
div_nonneg (pos a) (pos b) h k = ground arith
div_nonneg (pos a) (negsuc b) h k = ground arith
div_nonneg (negsuc a) b h k = ground arith

pub fixed_point-SignLaws : SignLaws (fixed_point false)
fixed_point-SignLaws = record {
  add_nonneg = add_nonneg;
  mul_nonneg = mul_nonneg;
  div_nonneg = div_nonneg;
}
