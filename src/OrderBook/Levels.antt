-- ===== src/OrderBook/Levels.antt =====
-- A side of the book, a dict from prices to quantities as the list of its items, and its levels in the
-- order of the prices (app/market_data/realtime/order_book_sync.py, app/core/models/order_book.py).
use ai_trading_advisor.Prelude.{Bool, true, ◌&&◌, Option, none, some, List, [], ◌∷◌, if◌then◌else◌}
use ai_trading_advisor.Decimal.Context.{DecimalContext, eq}

pub record OrderBookLevel (Decimal : Type 0) : Type 0 where
  pub price : Decimal
  pub quantity : Decimal

module _ (C : DecimalContext) where
  open C use {Decimal, zero, le}

  -- `side.get(price)`
  abbrev pub quantity_at : Decimal → List (OrderBookLevel Decimal) → Option Decimal
  quantity_at price [] = none
  quantity_at price (l ∷ ls) = if eq C price l.price then some l.quantity else quantity_at price ls

  -- `side.pop(price, None)`
  unfoldable pub pop : Decimal → List (OrderBookLevel Decimal) → List (OrderBookLevel Decimal)
  pop price [] = []
  pop price (l ∷ ls) = if eq C price l.price then pop price ls else l ∷ pop price ls

  -- `side[price] = quantity`: the key of an item that is there stays.
  unfoldable pub set :
      Decimal → Decimal → List (OrderBookLevel Decimal) → List (OrderBookLevel Decimal)
  set price quantity [] = record { price = price; quantity = quantity } ∷ []
  set price quantity (l ∷ ls) =
      let rest = set price quantity ls in
      if eq C price l.price then record { price = l.price; quantity = quantity } ∷ ls else l ∷ rest

  -- `_apply_level`
  unfoldable pub apply_level :
      List (OrderBookLevel Decimal) → OrderBookLevel Decimal → List (OrderBookLevel Decimal)
  apply_level side level =
      if eq C level.quantity zero then pop level.price side else set level.price level.quantity side

  -- The loop over the updates of a side.
  unfoldable pub apply_levels :
      List (OrderBookLevel Decimal) → List (OrderBookLevel Decimal) → List (OrderBookLevel Decimal)
  apply_levels side [] = side
  apply_levels side (u ∷ us) = apply_levels (apply_level side u) us

  -- `{level.price: level.quantity for level in levels}`
  unfoldable pub of_levels :
      List (OrderBookLevel Decimal) → List (OrderBookLevel Decimal) → List (OrderBookLevel Decimal)
  of_levels side [] = side
  of_levels side (l ∷ ls) = of_levels (set l.price l.quantity side) ls

  -- `sorted(side.items())` by an order of prices, which are distinct.
  abbrev pub insert_level :
      (Decimal → Decimal → Bool)
      → OrderBookLevel Decimal
      → List (OrderBookLevel Decimal)
      → List (OrderBookLevel Decimal)
  insert_level before a [] = a ∷ []
  insert_level before a (x ∷ xs) =
      let rest = insert_level before a xs in if before a.price x.price then a ∷ x ∷ xs else x ∷ rest

  unfoldable pub sorted_levels :
      (Decimal → Decimal → Bool) → List (OrderBookLevel Decimal) → List (OrderBookLevel Decimal)
  sorted_levels before [] = []
  sorted_levels before (l ∷ ls) = insert_level before l (sorted_levels before ls)

  abbrev pub is_ordered : (Decimal → Decimal → Bool) → List (OrderBookLevel Decimal) → Bool
  is_ordered before [] = true
  is_ordered before (x ∷ []) = true
  is_ordered before (x ∷ y ∷ ys) = before x.price y.price && is_ordered before (y ∷ ys)

  -- `sorted(side.items(), reverse=True)` and `sorted(side.items())`
  abbrev pub descending : Decimal → Decimal → Bool
  descending a b = le b a

  -- `_validate_book`
  abbrev pub is_uncrossed : List (OrderBookLevel Decimal) → List (OrderBookLevel Decimal) → Bool
  is_uncrossed (b ∷ bids) (a ∷ asks) = le b.price a.price
  is_uncrossed _ _ = true
