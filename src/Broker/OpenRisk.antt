-- ===== src/Broker/OpenRisk.antt =====
-- The open risk of the account (app/mt5/risk.py) and the validators of its assessment
-- (app/core/models/mt5_position.py). Symbol facts are a list of pairs, of which the last counts.
use Prim.Native.String.{String}
use text.Mathlib.Text.{◌==◌ as str_eq}
use ai_trading_advisor.Prelude.{
  ℕ, ◌≡◌, arith, Enum, Bool, true, ◌&&◌, ◌||◌, Option, none, some, List, [], ◌∷◌, map, keep, member,
  is_sorted, no_duplicates, if◌then◌else◌, negb,
}
use ai_trading_advisor.Strategy.Router.{is_empty}
use ai_trading_advisor.Market.Result.{is_some}
use ai_trading_advisor.Money.Risk.{later_or}
use ai_trading_advisor.Decimal.Context.{DecimalContext, max, sum_from}
use ai_trading_advisor.Broker.Sizing.{Mt5SymbolFacts}
use ai_trading_advisor.Broker.Tally.{Assessed, contributes, fails, Tally, by_assessment, tally}

pub data OrderSide : Type 0 where
  buy sell : OrderSide

pub data Mt5OpenRiskOutcome : Type 0 where
  ready blocked : Mt5OpenRiskOutcome

pub data Mt5OpenRiskBlockReason : Type 0 where
  no_protective_stop invalid_current_price : Mt5OpenRiskBlockReason
  invalid_tick_economics symbol_unavailable : Mt5OpenRiskBlockReason

abbrev pub open_reason_index : Mt5OpenRiskBlockReason → ℕ
open_reason_index Mt5OpenRiskBlockReason.no_protective_stop = 0
open_reason_index Mt5OpenRiskBlockReason.invalid_current_price = 1
open_reason_index Mt5OpenRiskBlockReason.invalid_tick_economics = 2
open_reason_index Mt5OpenRiskBlockReason.symbol_unavailable = 3

pub open_reason_index_injective :
    (a b : Mt5OpenRiskBlockReason) → open_reason_index a ≡ open_reason_index b → a ≡ b
open_reason_index_injective a b h = ground arith

instance abbrev pub open_reason_enum : Enum Mt5OpenRiskBlockReason
open_reason_enum = record {
  index = open_reason_index;
  index_injective = open_reason_index_injective;
}

-- `tuple(MT5OpenRiskBlockReason)`
abbrev pub open_reason_order : List Mt5OpenRiskBlockReason
open_reason_order =
    Mt5OpenRiskBlockReason.no_protective_stop ∷ Mt5OpenRiskBlockReason.invalid_current_price
    ∷ Mt5OpenRiskBlockReason.invalid_tick_economics ∷ Mt5OpenRiskBlockReason.symbol_unavailable ∷ []

pub record Mt5Position (Decimal : Type 0) : Type 0 where
  pub ticket : ℕ
  pub symbol : String
  pub side : OrderSide
  pub volume : Decimal
  pub price_open : Decimal
  pub price_current : Decimal
  pub stop_loss : Option Decimal

pub record Mt5OpenRiskAssessment (Decimal : Type 0) : Type 0 where
  pub outcome : Mt5OpenRiskOutcome
  pub current_open_risk_to_stop : Option Decimal
  pub blocked_reasons : List Mt5OpenRiskBlockReason
  pub unsafe_tickets : List ℕ

-- `symbol_facts_by_symbol.get(symbol)`
abbrev pub facts_of :
    {Decimal : Type 0}
    → String
    → List (String × Mt5SymbolFacts Decimal)
    → Option (Mt5SymbolFacts Decimal)
facts_of symbol [] = none
facts_of symbol ((s, f) ∷ rest) = later_or (facts_of symbol rest) (str_eq s symbol) f

-- The reasons of a set in their canonical order.
abbrev pub canonical_reasons : List Mt5OpenRiskBlockReason → List Mt5OpenRiskBlockReason
canonical_reasons found = keep (λ r. member r found) open_reason_order

module _ (C : DecimalContext) where
  open C use {Decimal, zero, sub, mul, div, le}

  -- `_is_protected`, for a position that has a stop.
  abbrev pub is_protected : OrderSide → Decimal → Decimal → Bool
  is_protected OrderSide.buy price_open stop = le price_open stop
  is_protected OrderSide.sell price_open stop = le stop price_open

  abbrev pub price_distance : OrderSide → Decimal → Decimal → Decimal
  price_distance OrderSide.buy price_current stop = max C zero (sub price_current stop)
  price_distance OrderSide.sell price_current stop = max C zero (sub stop price_current)

  -- The end of `_position_contribution`, with the facts of the symbol.
  abbrev pub priced_contribution :
      Mt5Position Decimal
      → Decimal
      → Option (Mt5SymbolFacts Decimal)
      → Assessed Mt5OpenRiskBlockReason Decimal
  priced_contribution p stop none = fails Mt5OpenRiskBlockReason.symbol_unavailable
  priced_contribution p stop (some facts) =
      if le facts.trade_tick_size zero || le facts.trade_tick_value_loss zero
      then fails Mt5OpenRiskBlockReason.invalid_tick_economics
      else contributes (
          mul
            (mul (div (price_distance p.side p.price_current stop) facts.trade_tick_size)
              facts.trade_tick_value_loss)
            p.volume)

  abbrev pub stopped_contribution :
      Mt5Position Decimal
      → List (String × Mt5SymbolFacts Decimal)
      → Option Decimal
      → Assessed Mt5OpenRiskBlockReason Decimal
  stopped_contribution p facts none = fails Mt5OpenRiskBlockReason.no_protective_stop
  stopped_contribution p facts (some stop) =
      if is_protected p.side p.price_open stop
      then contributes zero
      else if le p.price_current zero
      then fails Mt5OpenRiskBlockReason.invalid_current_price
      else priced_contribution p stop (facts_of p.symbol facts)

  unfoldable pub position_contribution :
      List (String × Mt5SymbolFacts Decimal)
      → Mt5Position Decimal
      → Assessed Mt5OpenRiskBlockReason Decimal
  position_contribution facts p = stopped_contribution p facts p.stop_loss

  -- The end of `assess_open_risk`.
  abbrev pub conclude : Tally Mt5OpenRiskBlockReason Decimal → Mt5OpenRiskAssessment Decimal
  conclude t =
      if is_empty t.blocked_reasons
      then record {
        outcome = Mt5OpenRiskOutcome.ready;
        current_open_risk_to_stop = some (sum_from C zero t.contributions);
        blocked_reasons = [];
        unsafe_tickets = [];
      }
      else record {
        outcome = Mt5OpenRiskOutcome.blocked;
        current_open_risk_to_stop = none;
        blocked_reasons = canonical_reasons t.blocked_reasons;
        unsafe_tickets = t.unsafe_tickets;
      }

  -- What `assess_open_risk` gives to the constructor of its assessment.
  unfoldable pub open_risk_fields :
      List (Mt5Position Decimal)
      → List (String × Mt5SymbolFacts Decimal)
      → Mt5OpenRiskAssessment Decimal
  open_risk_fields positions facts =
      conclude
        (tally (λ p. p.ticket) (λ p. by_assessment (position_contribution facts p)) positions)

  abbrev pub is_nonnegative : Option Decimal → Bool
  is_nonnegative none = true
  is_nonnegative (some d) = le zero d

  -- `_validate_ready_fields`
  abbrev pub has_ready_fields : Mt5OpenRiskOutcome → Mt5OpenRiskAssessment Decimal → Bool
  has_ready_fields Mt5OpenRiskOutcome.ready a =
      is_some a.current_open_risk_to_stop
      && (is_empty a.blocked_reasons && is_empty a.unsafe_tickets)
  has_ready_fields Mt5OpenRiskOutcome.blocked a =
      negb (is_some a.current_open_risk_to_stop)
      && (negb (is_empty a.blocked_reasons) && negb (is_empty a.unsafe_tickets))

  -- The field constraint and the validators of `MT5OpenRiskAssessment`.
  unfoldable pub is_valid : Mt5OpenRiskAssessment Decimal → Bool
  is_valid a =
      is_nonnegative a.current_open_risk_to_stop
      && (has_ready_fields a.outcome a
          && ((is_sorted (map open_reason_index a.blocked_reasons)
                && no_duplicates (map open_reason_index a.blocked_reasons))
              && no_duplicates a.unsafe_tickets))

  -- `assess_open_risk`; `none` where the constructor raises, as it does on unsafe positions that share
  -- a ticket.
  unfoldable pub assess_open_risk :
      List (Mt5Position Decimal)
      → List (String × Mt5SymbolFacts Decimal)
      → Option (Mt5OpenRiskAssessment Decimal)
  assess_open_risk positions facts =
      let assessment = open_risk_fields positions facts in
      if is_valid assessment then some assessment else none
