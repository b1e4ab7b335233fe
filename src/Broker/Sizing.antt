-- ===== src/Broker/Sizing.antt =====
-- Broker-aware sizing (app/mt5/sizing.py, with app/core/models/mt5_sizing.py, mt5_symbol.py and their
-- enumerations). The quotient by a risk per volume unit of zero, which Python refuses, is what the
-- decimal context makes of it.
use ai_trading_advisor.Prelude.{Bool, true, false, ◌||◌, Option, none, some, if◌then◌else◌, negb}
use ai_trading_advisor.Decimal.Context.{DecimalContext, lt, min}

pub data TradeDirection : Type 0 where
  long short neutral wait : TradeDirection

pub data Mt5SymbolTradeMode : Type 0 where
  disabled long_only short_only close_only full unknown : Mt5SymbolTradeMode

pub data Mt5SizingOutcome : Type 0 where
  actionable invalid_current_price symbol_not_tradable invalid_tick_economics : Mt5SizingOutcome
  invalid_volume_constraints invalid_stop_distance below_broker_minimum_volume : Mt5SizingOutcome
  risk_verification_failed : Mt5SizingOutcome

pub record Mt5BrokerSizingRequest (Decimal : Type 0) : Type 0 where
  pub direction : TradeDirection
  pub stop_loss : Decimal
  pub entry_price : Option Decimal
  pub session_allocated_risk : Decimal

pub record Mt5SymbolFacts (Decimal : Type 0) : Type 0 where
  pub trade_tick_size : Decimal
  pub trade_tick_value_loss : Decimal
  pub volume_min : Decimal
  pub volume_max : Decimal
  pub volume_step : Decimal
  pub trade_mode : Mt5SymbolTradeMode
  pub bid : Decimal
  pub ask : Decimal

pub record Mt5BrokerSizingResult (Decimal : Type 0) : Type 0 where
  pub outcome : Mt5SizingOutcome
  pub broker_volume : Option Decimal
  pub actual_monetary_risk : Option Decimal

abbrev pub is_long : TradeDirection → Bool
is_long TradeDirection.long = true
is_long TradeDirection.short = false
is_long TradeDirection.neutral = false
is_long TradeDirection.wait = false

-- `_LONG_BLOCKING_MODES`
abbrev pub blocks_long : Mt5SymbolTradeMode → Bool
blocks_long Mt5SymbolTradeMode.disabled = true
blocks_long Mt5SymbolTradeMode.long_only = false
blocks_long Mt5SymbolTradeMode.short_only = true
blocks_long Mt5SymbolTradeMode.close_only = true
blocks_long Mt5SymbolTradeMode.full = false
blocks_long Mt5SymbolTradeMode.unknown = true

-- `_SHORT_BLOCKING_MODES`
abbrev pub blocks_short : Mt5SymbolTradeMode → Bool
blocks_short Mt5SymbolTradeMode.disabled = true
blocks_short Mt5SymbolTradeMode.long_only = true
blocks_short Mt5SymbolTradeMode.short_only = false
blocks_short Mt5SymbolTradeMode.close_only = true
blocks_short Mt5SymbolTradeMode.full = false
blocks_short Mt5SymbolTradeMode.unknown = true

abbrev pub direction_blocked : TradeDirection → Mt5SymbolTradeMode → Bool
direction_blocked direction mode = if is_long direction then blocks_long mode else blocks_short mode

abbrev pub failed : {Decimal : Type 0} → Mt5SizingOutcome → Mt5BrokerSizingResult Decimal
failed outcome = record { outcome = outcome; broker_volume = none; actual_monetary_risk = none }

module _ (C : DecimalContext) where
  open C use {Decimal, zero, add, sub, mul, div, neg, floor, le}

  -- `abs(a)`
  abbrev pub absolute : Decimal → Decimal
  absolute a = if lt C a zero then neg a else a

  unfoldable pub floor_volume_to_step : Decimal → Decimal → Decimal → Decimal → Option Decimal
  floor_volume_to_step volume volume_min volume_max volume_step =
      let capped = min C volume volume_max in
      if le volume_min zero || (le volume_step zero || lt C volume_max volume_min)
      then none
      else if lt C capped volume_min
      then none
      else some (add volume_min (mul (floor (div (sub capped volume_min) volume_step)) volume_step))

  abbrev pub valid_stop_side : TradeDirection → Decimal → Decimal → Bool
  valid_stop_side direction stop reference =
      if is_long direction then lt C stop reference else lt C reference stop

  abbrev pub risk_per_volume_unit : Decimal → Decimal → Mt5SymbolFacts Decimal → Decimal
  risk_per_volume_unit stop reference facts =
      mul (div (absolute (sub reference stop)) facts.trade_tick_size) facts.trade_tick_value_loss

  -- The end of `compute_broker_sizing`, once the volume is known.
  abbrev pub verify_risk : Decimal → Decimal → Option Decimal → Mt5BrokerSizingResult Decimal
  verify_risk allocated unit none = failed Mt5SizingOutcome.below_broker_minimum_volume
  verify_risk allocated unit (some volume) =
      if lt C allocated (mul unit volume)
      then failed Mt5SizingOutcome.risk_verification_failed
      else record {
        outcome = Mt5SizingOutcome.actionable;
        broker_volume = some volume;
        actual_monetary_risk = some (mul unit volume);
      }

  abbrev pub raw_volume :
      Mt5BrokerSizingRequest Decimal → Decimal → Mt5SymbolFacts Decimal → Decimal
  raw_volume request reference facts =
      div request.session_allocated_risk (risk_per_volume_unit request.stop_loss reference facts)

  -- `compute_broker_sizing` from the reference price on.
  unfoldable pub size_at :
      Mt5BrokerSizingRequest Decimal
      → Mt5SymbolFacts Decimal
      → Decimal
      → Mt5BrokerSizingResult Decimal
  size_at request facts reference =
      if direction_blocked request.direction facts.trade_mode
      then failed Mt5SizingOutcome.symbol_not_tradable
      else if le facts.trade_tick_size zero || le facts.trade_tick_value_loss zero
      then failed Mt5SizingOutcome.invalid_tick_economics
      else if le facts.volume_min zero
          || (le facts.volume_step zero || lt C facts.volume_max facts.volume_min)
      then failed Mt5SizingOutcome.invalid_volume_constraints
      else if negb (valid_stop_side request.direction request.stop_loss reference)
      then failed Mt5SizingOutcome.invalid_stop_distance
      else verify_risk request.session_allocated_risk
          (risk_per_volume_unit request.stop_loss reference facts)
          (floor_volume_to_step (raw_volume request reference facts) facts.volume_min
            facts.volume_max facts.volume_step)

  abbrev pub quote : Mt5BrokerSizingRequest Decimal → Mt5SymbolFacts Decimal → Decimal
  quote request facts = if is_long request.direction then facts.ask else facts.bid

  abbrev pub size_from :
      Option Decimal
      → Mt5BrokerSizingRequest Decimal
      → Mt5SymbolFacts Decimal
      → Mt5BrokerSizingResult Decimal
  size_from (some entry) request facts = size_at request facts entry
  size_from none request facts =
      if le (quote request facts) zero
      then failed Mt5SizingOutcome.invalid_current_price
      else size_at request facts (quote request facts)

  -- `compute_broker_sizing`, before the field constraints of its result.
  unfoldable pub compute_broker_sizing :
      Mt5BrokerSizingRequest Decimal → Mt5SymbolFacts Decimal → Mt5BrokerSizingResult Decimal
  compute_broker_sizing request facts = size_from request.entry_price request facts
