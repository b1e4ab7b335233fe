-- ===== src/Decimal/FixedGrid.antt =====
-- The fixed-point context has the laws of whole steps.
use native.Mathlib.Nat.{add-zero}
use ai_trading_advisor.Prelude.{ℕ, ◌*◌, ◌/◌, ◌≤◌, ◌<◌, ◌≡◌, true, false, arith, le→leb}
use ai_trading_advisor.Decimal.Context.{GridLaws, lt}
use ai_trading_advisor.Decimal.FixedPoint.{ℤ, pos, negsuc, fixed_point, scale, sub_ℕ}

sub_ℕ_zero : (n : ℕ) → sub_ℕ n 0 ≡ pos n
sub_ℕ_zero n = ground arith

floor_nonneg :
    (a : ℤ)
    → (fixed_point false).le (pos 0) a ≡ true
    → (fixed_point false).le (pos 0) ((fixed_point false).floor a) ≡ true
floor_nonneg (pos a) h = ground arith
floor_nonneg (negsuc a) h = ground arith

le_add :
    (a b : ℤ)
    → (fixed_point false).le (pos 0) b ≡ true
    → (fixed_point false).le a ((fixed_point false).add a b) ≡ true
le_add a (pos b) h = ground arith
le_add a (negsuc b) h = ground arith

add_le :
    (a b c : ℤ)
    → (fixed_point false).le b ((fixed_point false).sub c a) ≡ true
    → (fixed_point false).le ((fixed_point false).add a b) c ≡ true
add_le a b c h = ground (arith, h)

div-mul-le : (n d : ℕ) → n / d * d ≤ n
div-mul-le n d = grind arith

mul_mono_left : (s d m : ℕ) → d ≤ m → d * s ≤ m * s
mul_mono_left s d m h = grind arith

div_scale_le : (x a : ℕ) → x ≤ a * scale → x / scale ≤ a
div_scale_le x a h = omega arith

whole_ℕ : (a s : ℕ) → 0 < s → a * scale / s / scale * scale * s / scale ≤ a
whole_ℕ a s h =
    let q = a * scale / s in
    div_scale_le (q / scale * scale * s) a (
      omega (
        arith,
        mul_mono_left s (q / scale * scale) q (div-mul-le q scale),
        div-mul-le (a * scale) s,
      ))

floor_mul_le :
    (a s : ℤ)
    → (fixed_point false).le (pos 0) a ≡ true
    → lt (fixed_point false) (pos 0) s ≡ true
    → (fixed_point false).le
        ((fixed_point false).mul ((fixed_point false).floor ((fixed_point false).div a s)) s)
        a
      ≡ true
floor_mul_le (pos a) (pos s) h k =
    simp (sub_ℕ_zero, add-zero) (le→leb _ _ (whole_ℕ a s (ground arith)))
floor_mul_le (pos a) (negsuc s) h k = ground arith
floor_mul_le (negsuc a) s h k = ground arith

pub fixed_point-GridLaws : GridLaws (fixed_point false)
fixed_point-GridLaws = record {
  floor_nonneg = floor_nonneg;
  le_add = le_add;
  add_le = add_le;
  floor_mul_le = floor_mul_le;
}
