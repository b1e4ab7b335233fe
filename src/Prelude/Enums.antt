-- ===== src/Prelude/Enums.antt =====
-- An enumeration of the source (a `StrEnum`): its declaration order, by which the source sorts and
-- compares members.
use Prim.Native.Nat.{ℕ}
use mathlib.Core.Path.{◌≡◌, refl}
use mathlib.Core.Bool.{Bool, true, false, ◌&&◌}
use mathlib.Core.List.{List, [], ◌∷◌}
use native.Mathlib.Omega.{arith}
use ai_trading_advisor.Prelude.Tests.{◌==◌, ==_refl, ==→eq, if◌then◌else◌}

-- `index` is the position in `tuple(Enum)`.
pub record Enum {ℓ} (A : Type ℓ) : Type ℓ where
  pub index : A → ℕ
  pub index_injective : (a b : A) → index a ≡ index b → a ≡ b

infix 50 ◌is◌
abbrev pub ◌is◌ {ℓ} : {A : Type ℓ} ⦃e : Enum A⦄ → A → A → Bool
◌is◌ ⦃e⦄ a b = e.index a == e.index b

module _ {ℓ} {A : Type ℓ} ⦃e : Enum A⦄ where
  pub is→eq : (a b : A) → (a is b) ≡ true → a ≡ b
  is→eq a b h = e.index_injective a b (==→eq (e.index a) (e.index b) h)

  pub is_refl : (a : A) → (a is a) ≡ true
  is_refl a = ==_refl (e.index a)

  -- `a in xs`
  abbrev pub member : A → List A → Bool
  member a [] = false
  member a (x ∷ xs) = if a is x then true else member a xs

  -- Equality of two tuples of members.
  abbrev pub same : List A → List A → Bool
  same [] [] = true
  same (a ∷ as') (b ∷ bs) = a is b && same as' bs
  same _ _ = false

  pub same_refl : (xs : List A) → same xs xs ≡ true
  same_refl [] = refl
  same_refl (x ∷ xs) = ground (arith, is_refl x, same_refl xs)
