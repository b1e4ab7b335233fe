-- ===== src/OrderBook/LastWrite.antt =====
-- The updates of a side: the last one of a price counts (app/market_data/realtime/order_book_sync.py).
use ai_trading_advisor.Prelude.{
  ◌≡◌, refl, sym, ◌∙◌, ap, Bool, true, false, Option, none, some, List, [], ◌∷◌, if◌then◌else◌,
  arith, Bool-cases, inl, inr, &&-left, &&-right, &&-intro,
}
use ai_trading_advisor.Decimal.Context.{DecimalContext, OrderLaws, eq}
use ai_trading_advisor.OrderBook.Levels.{
  OrderBookLevel, quantity_at, pop, set, apply_level, apply_levels, insert_level, sorted_levels,
  is_ordered,
}

-- A test that is repeated under its own failure.
same_else :
    {A : Type 0} (b : Bool) (x y z : A)
    → (if b then x else z) ≡ (if b then x else (if b then y else z))
same_else true x y z = refl
same_else false x y z = refl

module _ (C : DecimalContext) (laws : OrderLaws C) where
  open C use {Decimal, zero, le}

  eq_sym : (a b : Decimal) → eq C a b ≡ true → eq C b a ≡ true
  eq_sym a b h = ground (arith, h)

  eq_trans : (a b c : Decimal) → eq C a b ≡ true → eq C b c ≡ true → eq C a c ≡ true
  eq_trans a b c h k =
      &&-intro (le a c) (le c a)
        (laws.le_trans a b c (&&-left (le a b) (le b a) h) (&&-left (le b c) (le c b) k))
        (laws.le_trans c b a (&&-right (le b c) (le c b) k) (&&-right (le a b) (le b a) h))

  -- Equal prices are equal to the same prices.
  eq-left : (a b c : Decimal) → eq C a b ≡ true → eq C a c ≡ eq C b c
  eq-left a b c h = elim (Bool-cases (eq C a c)) [
    | inl e ↦ e ∙ sym (eq_trans b a c (eq_sym a b h) e)
    | inr e ↦ elim (Bool-cases (eq C b c)) [
      | inl f ↦ absurd (ground (arith, e, eq_trans a b c h f))
      | inr f ↦ e ∙ sym f
    ]
  ]

  eq-right : (a b c : Decimal) → eq C a b ≡ true → eq C c a ≡ eq C c b
  eq-right a b c h = elim (Bool-cases (eq C c a)) [
    | inl e ↦ e ∙ sym (eq_trans c a b e h)
    | inr e ↦ elim (Bool-cases (eq C c b)) [
      | inl f ↦ absurd (ground (arith, e, eq_trans c b a f (eq_sym a b h)))
      | inr f ↦ e ∙ sym f
    ]
  ]

  -- A price that differs from an equal one differs.
  apart : (p q l : Decimal) → eq C q l ≡ false → eq C p l ≡ true → eq C p q ≡ false
  apart p q l h k = eq-left p l q k ∙ elim (Bool-cases (eq C l q)) [
    | inl e ↦ absurd (ground (arith, h, eq_sym l q e))
    | inr e ↦ e
  ]

  -- What an update leaves at a price.
  abbrev pub write : Decimal → OrderBookLevel Decimal → Option Decimal → Option Decimal
  write price u before =
      if eq C price u.price
      then (if eq C u.quantity zero then none else some u.quantity)
      else before

  -- The quantity at a price by the last update of it.
  abbrev pub last_write : Decimal → List (OrderBookLevel Decimal) → Option Decimal → Option Decimal
  last_write price [] before = before
  last_write price (u ∷ us) before = last_write price us (write price u before)

  pop-quantity_at :
      (p q : Decimal) (side : List (OrderBookLevel Decimal))
      → quantity_at C p (pop C q side) ≡ (if eq C p q then none else quantity_at C p side)
  unfolding pop
  pop-quantity_at p q [] = ground arith
  pop-quantity_at p q (l ∷ ls) =
      let ih = pop-quantity_at p q ls in
      elim (Bool-cases (eq C q l.price)) [
        | inl e ↦
            rw (e, ih, sym (eq-right q l.price p e))
              (same_else (eq C p q) none (some l.quantity) (quantity_at C p ls))
        | inr e ↦ elim (Bool-cases (eq C p l.price)) [
          | inl f ↦ rw (e, f, apart p q l.price e f) refl
          | inr f ↦ rw (e, f) ih
        ]
      ]

  set-quantity_at :
      (p q n : Decimal) (side : List (OrderBookLevel Decimal))
      → quantity_at C p (set C q n side) ≡ (if eq C p q then some n else quantity_at C p side)
  unfolding set
  set-quantity_at p q n [] = ground arith
  set-quantity_at p q n (l ∷ ls) =
      let ih = set-quantity_at p q n ls in
      elim (Bool-cases (eq C q l.price)) [
        | inl e ↦
            rw (e, sym (eq-right q l.price p e))
              (same_else (eq C p q) (some n) (some l.quantity) (quantity_at C p ls))
        | inr e ↦ elim (Bool-cases (eq C p l.price)) [
          | inl f ↦ rw (e, f, apart p q l.price e f) refl
          | inr f ↦ rw (e, f) ih
        ]
      ]

  apply_level-write :
      (p : Decimal) (side : List (OrderBookLevel Decimal)) (u : OrderBookLevel Decimal)
      → quantity_at C p (apply_level C side u) ≡ write p u (quantity_at C p side)
  unfolding apply_level
  apply_level-write p side u = elim (Bool-cases (eq C u.quantity zero)) [
    | inl e ↦ rw e (pop-quantity_at p u.price side)
    | inr e ↦ rw e (set-quantity_at p u.price u.quantity side)
  ]

  pub apply_levels-last_write :
      (p : Decimal) (side us : List (OrderBookLevel Decimal))
      → quantity_at C p (apply_levels C side us) ≡ last_write p us (quantity_at C p side)
  unfolding apply_levels
  apply_levels-last_write p side [] = refl
  apply_levels-last_write p side (u ∷ us) =
      apply_levels-last_write p (apply_level C side u) us
      ∙ ap (last_write p us) (apply_level-write p side u)

  -- Sorting by an order in which one of two prices comes first.
  insert_level-is_ordered :
      (before : Decimal → Decimal → Bool)
      → ((a b : Decimal) → before a b ≡ false → before b a ≡ true)
      → (l : OrderBookLevel Decimal) (ls : List (OrderBookLevel Decimal))
      → is_ordered C before ls ≡ true
      → is_ordered C before (insert_level C before l ls) ≡ true
  insert_level-is_ordered before total l [] h = refl
  insert_level-is_ordered before total l (x ∷ []) h = ground (arith, total l.price x.price)
  insert_level-is_ordered before total l (x ∷ y ∷ ys) h =
      ground (arith, total l.price x.price, insert_level-is_ordered before total l (y ∷ ys))

  pub sorted_levels-is_ordered :
      (before : Decimal → Decimal → Bool)
      → ((a b : Decimal) → before a b ≡ false → before b a ≡ true)
      → (ls : List (OrderBookLevel Decimal))
      → is_ordered C before (sorted_levels C before ls) ≡ true
  unfolding sorted_levels
  sorted_levels-is_ordered before total [] = refl
  sorted_levels-is_ordered before total (l ∷ ls) =
      insert_level-is_ordered before total l (sorted_levels C before ls)
        (sorted_levels-is_ordered before total ls)
