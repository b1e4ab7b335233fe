-- ===== src/Broker/SizingRisk.antt =====
-- What an actionable size promises (app/mt5/sizing.py).
use ai_trading_advisor.Prelude.{
  ◌≡◌, ◌⊎◌, ◌||◌, if◌then◌else◌, sym, inl, inr, refl, true, false, Option, none, some, arith, ◌∙◌,
  Option-cases, Bool-cases,
}
use ai_trading_advisor.Decimal.Context.{
  DecimalContext, OrderLaws, SignLaws, DifferenceLaws, GridLaws, lt, min,
}
use ai_trading_advisor.Broker.Sizing.{
  TradeDirection, Mt5SymbolTradeMode, Mt5SizingOutcome, Mt5BrokerSizingRequest, Mt5SymbolFacts,
  Mt5BrokerSizingResult, direction_blocked, floor_volume_to_step, valid_stop_side, absolute,
  raw_volume, size_at, size_from, quote, compute_broker_sizing,
}

-- The modes in which a symbol may be bought or sold.
abbrev pub MayTrade : TradeDirection → Mt5SymbolTradeMode → Type 0
MayTrade TradeDirection.long mode =
    (mode ≡ Mt5SymbolTradeMode.full) ⊎ (mode ≡ Mt5SymbolTradeMode.long_only)
MayTrade _ mode = (mode ≡ Mt5SymbolTradeMode.full) ⊎ (mode ≡ Mt5SymbolTradeMode.short_only)

direction_blocked-MayTrade :
    (direction : TradeDirection) (mode : Mt5SymbolTradeMode)
    → direction_blocked direction mode ≡ false
    → MayTrade direction mode
direction_blocked-MayTrade TradeDirection.long mode h = ground (arith, h)
direction_blocked-MayTrade TradeDirection.short mode h = ground (arith, h)
direction_blocked-MayTrade TradeDirection.neutral mode h = ground (arith, h)
direction_blocked-MayTrade TradeDirection.wait mode h = ground (arith, h)

module _ (C : DecimalContext) where
  open C use {Decimal, zero, add, sub, mul, div, neg, floor, le}

  -- The price that the size is computed from: the entry price, or else the positive quote of the side.
  abbrev pub Reference : Mt5BrokerSizingRequest Decimal → Mt5SymbolFacts Decimal → Decimal → Type 0
  Reference request facts price =
      (request.entry_price ≡ some price)
      ⊎ ((request.entry_price ≡ none) × (quote C request facts ≡ price) × (lt C zero price ≡ true))

  -- The distance to the stop, on the side on which the trade loses.
  abbrev pub Distance : TradeDirection → Decimal → Decimal → Decimal → Type 0
  Distance TradeDirection.long stop price distance =
      (lt C stop price ≡ true) × (distance ≡ sub price stop)
  Distance _ stop price distance = (lt C price stop ≡ true) × (distance ≡ neg (sub price stop))

  -- A volume of the broker's grid: the minimum and a whole number of steps, up to the maximum.
  abbrev pub OnGrid : Mt5SymbolFacts Decimal → Decimal → Type 0
  OnGrid facts volume =
      (le facts.volume_min volume ≡ true)
      × (le volume facts.volume_max ≡ true)
      × ((steps : Decimal) × (volume ≡ add facts.volume_min (mul (floor steps) facts.volume_step)))

  -- The result carries a volume of the grid and its risk, which keeps to the allocation; the mode
  -- allows the direction, and the stop is on the losing side of the price.
  abbrev pub SafeAt :
      Mt5BrokerSizingRequest Decimal
      → Mt5SymbolFacts Decimal
      → Mt5BrokerSizingResult Decimal
      → Decimal
      → Decimal
      → Decimal
      → Type 0
  SafeAt request facts r price distance volume =
      (r.broker_volume ≡ some volume)
      × (OnGrid facts volume)
      × (MayTrade request.direction facts.trade_mode)
      × (Distance request.direction request.stop_loss price distance)
      × (r.actual_monetary_risk
          ≡ some
              (mul (mul (div distance facts.trade_tick_size) facts.trade_tick_value_loss) volume))
      × (le (mul (mul (div distance facts.trade_tick_size) facts.trade_tick_value_loss) volume)
            request.session_allocated_risk
          ≡ true)

  module _ (order : OrderLaws C) (sign : SignLaws C) (diff : DifferenceLaws C)
      (grid : GridLaws C) where
    min_le_right : (a b : Decimal) → le (min C a b) b ≡ true
    min_le_right a b = elim (Bool-cases (le a b)) [
      | inl e ↦ rw (e, e) refl
      | inr e ↦ rw e (order.le_refl b)
    ]

    -- The greatest multiple of the step below `capped`, from the minimum on.
    grid_bounds :
        (capped m s : Decimal)
        → le m capped ≡ true
        → lt C zero s ≡ true
        → (le m (add m (mul (floor (div (sub capped m) s)) s)) ≡ true)
          × (le (add m (mul (floor (div (sub capped m) s)) s)) capped ≡ true)
    grid_bounds capped m s h pos =
        let rest : le zero (sub capped m) ≡ true = diff.zero_le_sub capped m ∙ h in
        let steps : le zero (floor (div (sub capped m) s)) ≡ true =
          grid.floor_nonneg (div (sub capped m) s) (sign.div_nonneg (sub capped m) s rest pos) in
        (
          grid.le_add m _ (
              sign.mul_nonneg (floor (div (sub capped m) s)) s steps
                (order.le_total s zero (ground (arith, pos)))),
          grid.add_le m _ capped (grid.floor_mul_le (sub capped m) s rest pos),
        )

    -- What the floor computes from a capped volume that its tests let through.
    capped-OnGrid :
        (capped : Decimal) (facts : Mt5SymbolFacts Decimal) (volume : Decimal)
        → le capped facts.volume_max ≡ true
        → (if le facts.volume_min zero
              || (le facts.volume_step zero || lt C facts.volume_max facts.volume_min)
            then none
            else if lt C capped facts.volume_min
            then none
            else some (
                add facts.volume_min (
                  mul
                    (floor (div (sub capped facts.volume_min) facts.volume_step))
                    facts.volume_step)))
          ≡ some volume
        → OnGrid facts volume
    capped-OnGrid capped facts volume top h =
        let steps = div (sub capped facts.volume_min) facts.volume_step in
        let e : add facts.volume_min (mul (floor steps) facts.volume_step) ≡ volume =
          ground (arith, h) in
        let (low, high) =
          grid_bounds capped facts.volume_min facts.volume_step (ground (arith, h))
            (ground (arith, h)) in
        (rw (← e) low, rw (← e) (order.le_trans _ capped facts.volume_max high top), (steps, sym e))

    floor_volume_to_step-OnGrid :
        (raw : Decimal) (facts : Mt5SymbolFacts Decimal) (volume : Decimal)
        → floor_volume_to_step C raw facts.volume_min facts.volume_max facts.volume_step
          ≡ some volume
        → OnGrid facts volume
    unfolding floor_volume_to_step
    floor_volume_to_step-OnGrid raw facts volume h =
        capped-OnGrid (min C raw facts.volume_max) facts volume (min_le_right raw facts.volume_max)
          h

    stop_above :
        (stop price : Decimal)
        → lt C price stop ≡ true
        → (lt C price stop ≡ true) × (absolute C (sub price stop) ≡ neg (sub price stop))
    stop_above stop price h =
        let below : le zero (sub price stop) ≡ false =
          diff.zero_le_sub price stop ∙ ground (arith, h) in
        (h, rw below refl)

    risk-Distance :
        (direction : TradeDirection) (stop price : Decimal)
        → valid_stop_side C direction stop price ≡ true
        → Distance direction stop price (absolute C (sub price stop))
    risk-Distance TradeDirection.long stop price h =
        let above : le zero (sub price stop) ≡ true =
          diff.zero_le_sub price stop ∙ order.le_total price stop (ground (arith, h)) in
        (h, rw above refl)
    risk-Distance TradeDirection.short stop price h = stop_above stop price h
    risk-Distance TradeDirection.neutral stop price h = stop_above stop price h
    risk-Distance TradeDirection.wait stop price h = stop_above stop price h

    size_at-SafeAt :
        (request : Mt5BrokerSizingRequest Decimal) (facts : Mt5SymbolFacts Decimal)
        (price : Decimal)
        → (size_at C request facts price).outcome ≡ Mt5SizingOutcome.actionable
        → (volume : Decimal) × SafeAt request facts
            (size_at C request facts price)
            price
            (absolute C (sub price request.stop_loss))
            volume
    unfolding size_at
    size_at-SafeAt request facts price h =
        elim (Option-cases (
          floor_volume_to_step C (raw_volume C request price facts) facts.volume_min
            facts.volume_max facts.volume_step)) [
              | inl e ↦ absurd (ground (arith, e, h))
              | inr (volume, e) ↦ (
                volume,
                (
                  ground (arith, e, h),
                  floor_volume_to_step-OnGrid (raw_volume C request price facts) facts volume e,
                  direction_blocked-MayTrade request.direction facts.trade_mode
                      (ground (arith, e, h)),
                  risk-Distance request.direction request.stop_loss price (ground (arith, e, h)),
                  ground (arith, e, h),
                  ground (arith, e, h),
                ),
              )
            ]

    size_from-SafeAt :
        (request : Mt5BrokerSizingRequest Decimal) (facts : Mt5SymbolFacts Decimal)
        (entry : Option Decimal)
        → request.entry_price ≡ entry
        → (size_from C entry request facts).outcome ≡ Mt5SizingOutcome.actionable
        → (price : Decimal) × (distance : Decimal) × (volume : Decimal) × (Reference request facts
            price)
          × SafeAt request facts (size_from C entry request facts) price distance volume
    size_from-SafeAt request facts (some price) e h =
        let (volume, s) = size_at-SafeAt request facts price h in
        (price, absolute C (sub price request.stop_loss), volume, inl e, s)
    size_from-SafeAt request facts none e h = elim (Bool-cases (le (quote C request facts) zero)) [
      | inl g ↦ absurd (ground (arith, g, h))
      | inr g ↦
          let price = quote C request facts in
          let (volume, s) = size_at-SafeAt request facts price (rw g at h) in
          (
            price,
            absolute C (sub price request.stop_loss),
            volume,
            inr (e, refl, rw g refl),
            rw g s,
          )
    ]

    -- In a context with a total order, the rules of signs, differences that have the sign of the
    -- comparison, and whole steps that round down, an actionable size is computed from the entry
    -- price, or without one from the positive quote of the candidate's side. Its volume is the
    -- broker's minimum and a whole number of steps, and is between the minimum and the maximum. The
    -- mode of the symbol is full or that of the direction, and the stop is on the losing side of
    -- the price. The risk that the result carries is the distance to the stop in ticks, times the
    -- value of a tick, times the volume, and it is at most the allocated risk.
    pub compute_broker_sizing-SafeAt :
        (request : Mt5BrokerSizingRequest Decimal) (facts : Mt5SymbolFacts Decimal)
        → (compute_broker_sizing C request facts).outcome ≡ Mt5SizingOutcome.actionable
        → (price : Decimal) × (distance : Decimal) × (volume : Decimal) × (Reference request facts
            price)
          × SafeAt request facts (compute_broker_sizing C request facts) price distance volume
    unfolding compute_broker_sizing
    compute_broker_sizing-SafeAt request facts h =
        size_from-SafeAt request facts request.entry_price refl h
