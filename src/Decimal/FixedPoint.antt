-- ===== src/Decimal/FixedPoint.antt =====
-- Fixed-point decimals with four places, a concrete arithmetic that meets the laws: amounts are
-- integers of ten-thousandths, and products and quotients are rounded in size, up or down. A quotient
-- by zero is zero; the code that is modelled divides by positive numbers only.
use native.Mathlib.Nat.{add-zero}
use ai_trading_advisor.Prelude.{
  ℕ, suc, ◌+◌, ◌-◌, ◌*◌, ◌/◌, ◌≤◌, ◌<◌, ◌≡◌, refl, Bool, true, false, arith, leb, if◌then◌else◌,
  le→leb,
}
use ai_trading_advisor.Decimal.Context.{
  DecimalContext, lt, OrderLaws, PositiveLaws, ShrinkLaws, DifferenceLaws,
}

-- `negsuc n` is -(n + 1).
pub data ℤ : Type 0 where
  pos : ℕ → ℤ
  negsuc : ℕ → ℤ

abbrev pub pos_part : ℤ → ℕ
pos_part (pos n) = n
pos_part (negsuc n) = 0

abbrev pub neg_part : ℤ → ℕ
neg_part (pos n) = 0
neg_part (negsuc n) = suc n

abbrev pub sub_ℕ : ℕ → ℕ → ℤ
sub_ℕ a b = if leb b a then pos (a - b) else negsuc (b - a - 1)

abbrev pub size : ℤ → ℕ
size a = pos_part a + neg_part a

abbrev pub is_neg : ℤ → Bool
is_neg (pos n) = false
is_neg (negsuc n) = true

-- An amount of a given size, negative if the signs differ.
abbrev pub signed : Bool → Bool → ℕ → ℤ
signed true true n = pos n
signed false false n = pos n
signed _ _ n = sub_ℕ 0 n

abbrev pub scale : ℕ
scale = 10000

-- `n / d`, rounded up or down.
abbrev pub rounded : Bool → ℕ → ℕ → ℕ
rounded true n d = (n + (d - 1)) / d
rounded false n d = n / d

abbrev pub fixed_point : Bool → DecimalContext
fixed_point up = record {
  Decimal = ℤ;
  zero = pos 0;
  hundred = pos 1000000;
  add = λ a b. sub_ℕ (pos_part a + pos_part b) (neg_part a + neg_part b);
  sub = λ a b. sub_ℕ (pos_part a + neg_part b) (neg_part a + pos_part b);
  mul = λ a b. signed (is_neg a) (is_neg b) (rounded up (size a * size b) scale);
  div = λ a b. signed (is_neg a) (is_neg b) (rounded up (size a * scale) (size b));
  neg = λ a. sub_ℕ (neg_part a) (pos_part a);
  floor = λ a. sub_ℕ (pos_part a / scale * scale) ((neg_part a + 9999) / scale * scale);
  le = λ a b. leb (pos_part a + neg_part b) (pos_part b + neg_part a);
}

pub fixed_point-OrderLaws : (up : Bool) → OrderLaws (fixed_point up)
fixed_point-OrderLaws up = record {
  le_refl = λ a. ground arith;
  le_trans = λ a b c h k. ground arith;
  le_total = λ a b h. ground arith;
}

mul_pos_ℕ : (a b : ℕ) → 0 < a → 0 < b → 0 < a * b
mul_pos_ℕ a b h k = grind arith

-- A quotient rounded up is positive.
ceil_pos : (n d : ℕ) → 0 < n → 0 < d → 0 < (n + (d - 1)) / d
ceil_pos n d h k = grind arith

up_mul_pos :
    (a b : ℤ)
    → lt (fixed_point true) (pos 0) a ≡ true
    → lt (fixed_point true) (pos 0) b ≡ true
    → lt (fixed_point true) (pos 0) ((fixed_point true).mul a b) ≡ true
up_mul_pos (pos a) (pos b) h k = ground (arith, mul_pos_ℕ a b)
up_mul_pos (pos a) (negsuc b) h k = ground arith
up_mul_pos (negsuc a) b h k = ground arith

up_div_pos :
    (a b : ℤ)
    → lt (fixed_point true) (pos 0) a ≡ true
    → lt (fixed_point true) (pos 0) b ≡ true
    → lt (fixed_point true) (pos 0) ((fixed_point true).div a b) ≡ true
up_div_pos (pos a) (pos b) h k = ground (arith, ceil_pos ((a + 0) * scale) (b + 0))
up_div_pos (pos a) (negsuc b) h k = ground arith
up_div_pos (negsuc a) b h k = ground arith

-- Rounding up never underflows.
pub fixed_point_up-PositiveLaws : PositiveLaws (fixed_point true)
fixed_point_up-PositiveLaws = record {
  hundred_pos = refl;
  mul_pos = up_mul_pos;
  div_pos = up_div_pos;
}

-- `t * (m / t) ≤ m`
mul-div-le : (t m : ℕ) → t * (m / t) ≤ m
mul-div-le t m = grind arith

div-le-scale : (c t : ℕ) → c ≤ t → 0 < t → c * scale / t ≤ scale
div-le-scale c t h k = grind (arith, mul-div-le t (c * scale))

mul_mono_right : (x d m : ℕ) → d ≤ m → x * d ≤ x * m
mul_mono_right x d m h = grind arith

scale_ℕ : (x c t : ℕ) → c ≤ t → 0 < t → x * (c * scale / t) / scale ≤ x
scale_ℕ x c t h k = omega (arith, mul_mono_right x (c * scale / t) scale (div-le-scale c t h k))

down_scale_le :
    (x c t : ℤ)
    → (fixed_point false).le (pos 0) x ≡ true
    → (fixed_point false).le (pos 0) c ≡ true
    → lt (fixed_point false) (pos 0) t ≡ true
    → (fixed_point false).le c t ≡ true
    → (fixed_point false).le ((fixed_point false).mul x ((fixed_point false).div c t)) x ≡ true
down_scale_le (pos x) (pos c) (pos t) hx hc ht h =
    simp add-zero (le→leb _ _ (scale_ℕ x c t (ground arith) (ground arith)))
down_scale_le (pos x) (pos c) (negsuc t) hx hc ht h = ground arith
down_scale_le (pos x) (negsuc c) t hx hc ht h = ground arith
down_scale_le (negsuc x) c t hx hc ht h = ground arith

pub fixed_point_down-ShrinkLaws : ShrinkLaws (fixed_point false)
fixed_point_down-ShrinkLaws = record { scale_le = down_scale_le }

sub_le_zero :
    (up : Bool) (a b : ℤ)
    → (fixed_point up).le ((fixed_point up).sub a b) (pos 0) ≡ (fixed_point up).le a b
sub_le_zero up a b = ground arith

zero_le_sub :
    (up : Bool) (a b : ℤ)
    → (fixed_point up).le (pos 0) ((fixed_point up).sub a b) ≡ (fixed_point up).le b a
zero_le_sub up a b = ground arith

pub fixed_point-DifferenceLaws : (up : Bool) → DifferenceLaws (fixed_point up)
fixed_point-DifferenceLaws up = record {
  sub_le_zero = sub_le_zero up;
  zero_le_sub = zero_le_sub up;
}
