-- ===== src/Broker/Deals.antt =====
-- Broker deals (app/core/models/mt5_history.py, app/core/enums/mt5_history.py) and the contribution of
-- one deal (`classify_trading_deal` of app/mt5/history.py). Time stamps are seconds from the year 1.
use Prim.Native.String.{String}
use ai_trading_advisor.Prelude.{ℕ, ◌≡◌, arith, Enum, Option, List, [], ◌∷◌}
use ai_trading_advisor.Decimal.Context.{DecimalContext}
use ai_trading_advisor.Broker.Tally.{Assessed, contributes, fails}

pub data Mt5DealType : Type 0 where
  buy sell non_trading unknown : Mt5DealType

abbrev pub deal_type_index : Mt5DealType → ℕ
deal_type_index Mt5DealType.buy = 0
deal_type_index Mt5DealType.sell = 1
deal_type_index Mt5DealType.non_trading = 2
deal_type_index Mt5DealType.unknown = 3

pub deal_type_index_injective : (a b : Mt5DealType) → deal_type_index a ≡ deal_type_index b → a ≡ b
deal_type_index_injective a b h = ground arith

instance abbrev pub deal_type_enum : Enum Mt5DealType
deal_type_enum = record { index = deal_type_index; index_injective = deal_type_index_injective }

pub data Mt5DealEntry : Type 0 where
  opening closing inout out_by unknown : Mt5DealEntry

pub data Mt5RealizedPnlOutcome : Type 0 where
  ready blocked : Mt5RealizedPnlOutcome

pub data Mt5RealizedPnlBlockReason : Type 0 where
  malformed_timestamp unmappable_deal_type : Mt5RealizedPnlBlockReason
  unmappable_deal_entry unsupported_out_by : Mt5RealizedPnlBlockReason

abbrev pub pnl_reason_index : Mt5RealizedPnlBlockReason → ℕ
pnl_reason_index Mt5RealizedPnlBlockReason.malformed_timestamp = 0
pnl_reason_index Mt5RealizedPnlBlockReason.unmappable_deal_type = 1
pnl_reason_index Mt5RealizedPnlBlockReason.unmappable_deal_entry = 2
pnl_reason_index Mt5RealizedPnlBlockReason.unsupported_out_by = 3

pub pnl_reason_index_injective :
    (a b : Mt5RealizedPnlBlockReason) → pnl_reason_index a ≡ pnl_reason_index b → a ≡ b
pnl_reason_index_injective a b h = ground arith

instance abbrev pub pnl_reason_enum : Enum Mt5RealizedPnlBlockReason
pnl_reason_enum = record { index = pnl_reason_index; index_injective = pnl_reason_index_injective }

-- `tuple(MT5RealizedPnLBlockReason)`
abbrev pub pnl_reason_order : List Mt5RealizedPnlBlockReason
pnl_reason_order =
    Mt5RealizedPnlBlockReason.malformed_timestamp ∷ Mt5RealizedPnlBlockReason.unmappable_deal_type
    ∷ Mt5RealizedPnlBlockReason.unmappable_deal_entry ∷ Mt5RealizedPnlBlockReason.unsupported_out_by
    ∷ []

pub record Mt5Deal (Decimal : Type 0) : Type 0 where
  pub ticket : ℕ
  pub position_id : ℕ
  pub time : ℕ
  pub symbol : Option String
  pub deal_type : Mt5DealType
  pub entry : Mt5DealEntry
  pub volume : Decimal
  pub price : Decimal
  pub profit : Decimal
  pub commission : Decimal
  pub swap : Decimal
  pub fee : Decimal

-- `_EPOCH`, the first of January 1970.
abbrev pub epoch : ℕ
epoch = 62135596800

-- `MT5HistoryReadStatus`
pub data Mt5HistoryReadStatus : Type 0 where
  ok unavailable malformed_timestamp : Mt5HistoryReadStatus

module _ (C : DecimalContext) where
  open C use {Decimal, add}

  abbrev pub classify_entry :
      Mt5DealEntry → Mt5Deal Decimal → Assessed Mt5RealizedPnlBlockReason Decimal
  classify_entry Mt5DealEntry.opening d = contributes (add d.commission d.fee)
  classify_entry Mt5DealEntry.closing d =
      contributes (add (add (add d.commission d.fee) d.profit) d.swap)
  classify_entry Mt5DealEntry.inout d =
      contributes (add (add (add d.commission d.fee) d.profit) d.swap)
  classify_entry Mt5DealEntry.out_by d = fails Mt5RealizedPnlBlockReason.unsupported_out_by
  classify_entry Mt5DealEntry.unknown d = fails Mt5RealizedPnlBlockReason.unmappable_deal_entry

  unfoldable pub classify_trading_deal :
      Mt5Deal Decimal → Assessed Mt5RealizedPnlBlockReason Decimal
  classify_trading_deal d = classify_entry d.entry d
