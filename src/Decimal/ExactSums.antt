-- ===== src/Decimal/ExactSums.antt =====
-- Sums in a context whose sums are exact.
use ai_trading_advisor.Prelude.{◌≡◌, refl, sym, ◌∙◌, List, [], ◌∷◌}
use ai_trading_advisor.Decimal.Context.{DecimalContext, ExactAddLaws, sum_from}

module _ (C : DecimalContext) (laws : ExactAddLaws C) where
  open C use {Decimal, zero, add}

  pub zero_add : (a : Decimal) → add zero a ≡ a
  zero_add a = laws.add_comm zero a ∙ laws.add_zero a

  pub sum_from-start :
      (a : Decimal) (xs : List Decimal) → sum_from C a xs ≡ add a (sum_from C zero xs)
  sum_from-start a [] = sym (laws.add_zero a)
  sum_from-start a (x ∷ xs) =
      rw (sum_from-start (add a x) xs, sum_from-start (add zero x) xs, zero_add x)
        (laws.add_assoc a x (sum_from C zero xs))

  pub add_middle : (a b c d : Decimal) → add (add a b) (add c d) ≡ add (add a c) (add b d)
  add_middle a b c d =
      rw
        (
          laws.add_assoc a b (add c d),
          laws.add_assoc a c (add b d),
          sym (laws.add_assoc b c d),
          sym (laws.add_assoc c b d),
          laws.add_comm b c,
        )
        refl
