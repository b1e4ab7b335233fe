-- ===== src/Market/EvidenceEnums.antt =====
-- The enumerations that describe evidence (app/core/enums/technical_analysis.py,
-- external_intelligence_analysis.py, instrument.py), in the declaration order of the source.
use ai_trading_advisor.Prelude.{ℕ, ◌≡◌, arith, Enum}

pub data ContractType : Type 0 where
  spot perpetual : ContractType

abbrev pub contract_index : ContractType → ℕ
contract_index ContractType.spot = 0
contract_index ContractType.perpetual = 1

pub contract_index_injective : (a b : ContractType) → contract_index a ≡ contract_index b → a ≡ b
contract_index_injective a b h = ground arith

instance abbrev pub contract_enum : Enum ContractType
contract_enum = record { index = contract_index; index_injective = contract_index_injective }

pub data TechnicalAnalystType : Type 0 where
  trend market_structure volatility momentum moving_average candle_structure range_state :
      TechnicalAnalystType

abbrev pub technical_analyst_index : TechnicalAnalystType → ℕ
technical_analyst_index TechnicalAnalystType.trend = 0
technical_analyst_index TechnicalAnalystType.market_structure = 1
technical_analyst_index TechnicalAnalystType.volatility = 2
technical_analyst_index TechnicalAnalystType.momentum = 3
technical_analyst_index TechnicalAnalystType.moving_average = 4
technical_analyst_index TechnicalAnalystType.candle_structure = 5
technical_analyst_index TechnicalAnalystType.range_state = 6

pub technical_analyst_index_injective :
    (a b : TechnicalAnalystType) → technical_analyst_index a ≡ technical_analyst_index b → a ≡ b
technical_analyst_index_injective a b h = ground arith

instance abbrev pub technical_analyst_enum : Enum TechnicalAnalystType
technical_analyst_enum = record {
  index = technical_analyst_index;
  index_injective = technical_analyst_index_injective;
}

pub data TechnicalAgreementVerdict : Type 0 where
  all_agree mixed insufficient_data : TechnicalAgreementVerdict

abbrev pub agreement_index : TechnicalAgreementVerdict → ℕ
agreement_index TechnicalAgreementVerdict.all_agree = 0
agreement_index TechnicalAgreementVerdict.mixed = 1
agreement_index TechnicalAgreementVerdict.insufficient_data = 2

pub agreement_index_injective :
    (a b : TechnicalAgreementVerdict) → agreement_index a ≡ agreement_index b → a ≡ b
agreement_index_injective a b h = ground arith

instance abbrev pub agreement_enum : Enum TechnicalAgreementVerdict
agreement_enum = record { index = agreement_index; index_injective = agreement_index_injective }

pub data TechnicalAnalysisDimension : Type 0 where
  return_direction slope_direction structural_sequence_balance trend_primitive_agreement
        directional_persistence latest_break_direction structural_break_presence
        break_sequence_pattern range_expansion_reference roc_sign rsi_midpoint_relation
        momentum_primitive_agreement price_vs_sma_position ma_slope_direction
        multi_period_ma_ordering range_size_state body_wick_dominance wick_side_comparison
        close_location_relation normalized_range_reference directional_efficiency_boundary :
      TechnicalAnalysisDimension

abbrev pub technical_dimension_index : TechnicalAnalysisDimension → ℕ
technical_dimension_index TechnicalAnalysisDimension.return_direction = 0
technical_dimension_index TechnicalAnalysisDimension.slope_direction = 1
technical_dimension_index TechnicalAnalysisDimension.structural_sequence_balance = 2
technical_dimension_index TechnicalAnalysisDimension.trend_primitive_agreement = 3
technical_dimension_index TechnicalAnalysisDimension.directional_persistence = 4
technical_dimension_index TechnicalAnalysisDimension.latest_break_direction = 5
technical_dimension_index TechnicalAnalysisDimension.structural_break_presence = 6
technical_dimension_index TechnicalAnalysisDimension.break_sequence_pattern = 7
technical_dimension_index TechnicalAnalysisDimension.range_expansion_reference = 8
technical_dimension_index TechnicalAnalysisDimension.roc_sign = 9
technical_dimension_index TechnicalAnalysisDimension.rsi_midpoint_relation = 10
technical_dimension_index TechnicalAnalysisDimension.momentum_primitive_agreement = 11
technical_dimension_index TechnicalAnalysisDimension.price_vs_sma_position = 12
technical_dimension_index TechnicalAnalysisDimension.ma_slope_direction = 13
technical_dimension_index TechnicalAnalysisDimension.multi_period_ma_ordering = 14
technical_dimension_index TechnicalAnalysisDimension.range_size_state = 15
technical_dimension_index TechnicalAnalysisDimension.body_wick_dominance = 16
technical_dimension_index TechnicalAnalysisDimension.wick_side_comparison = 17
technical_dimension_index TechnicalAnalysisDimension.close_location_relation = 18
technical_dimension_index TechnicalAnalysisDimension.normalized_range_reference = 19
technical_dimension_index TechnicalAnalysisDimension.directional_efficiency_boundary = 20

pub technical_dimension_index_injective :
    (a b : TechnicalAnalysisDimension)
    → technical_dimension_index a ≡ technical_dimension_index b
    → a ≡ b
technical_dimension_index_injective a b h = ground arith

instance abbrev pub technical_dimension_enum : Enum TechnicalAnalysisDimension
technical_dimension_enum = record {
  index = technical_dimension_index;
  index_injective = technical_dimension_index_injective;
}

pub data ExternalIntelligenceDimension : Type 0 where
  event_importance event_proximity event_presence surprise actual_vs_previous revision_direction
        policy_rate_trend yield_trend curve_slope curve_slope_trend real_nominal_relationship
        relevant_item_presence per_provider_sentiment_sign sentiment_provider_agreement
        activity_trend supply_trend stablecoin_supply_trend exchange_net_flow exchange_balance_trend
        stablecoin_net_issuance :
      ExternalIntelligenceDimension

abbrev pub external_dimension_index : ExternalIntelligenceDimension → ℕ
external_dimension_index ExternalIntelligenceDimension.event_importance = 0
external_dimension_index ExternalIntelligenceDimension.event_proximity = 1
external_dimension_index ExternalIntelligenceDimension.event_presence = 2
external_dimension_index ExternalIntelligenceDimension.surprise = 3
external_dimension_index ExternalIntelligenceDimension.actual_vs_previous = 4
external_dimension_index ExternalIntelligenceDimension.revision_direction = 5
external_dimension_index ExternalIntelligenceDimension.policy_rate_trend = 6
external_dimension_index ExternalIntelligenceDimension.yield_trend = 7
external_dimension_index ExternalIntelligenceDimension.curve_slope = 8
external_dimension_index ExternalIntelligenceDimension.curve_slope_trend = 9
external_dimension_index ExternalIntelligenceDimension.real_nominal_relationship = 10
external_dimension_index ExternalIntelligenceDimension.relevant_item_presence = 11
external_dimension_index ExternalIntelligenceDimension.per_provider_sentiment_sign = 12
external_dimension_index ExternalIntelligenceDimension.sentiment_provider_agreement = 13
external_dimension_index ExternalIntelligenceDimension.activity_trend = 14
external_dimension_index ExternalIntelligenceDimension.supply_trend = 15
external_dimension_index ExternalIntelligenceDimension.stablecoin_supply_trend = 16
external_dimension_index ExternalIntelligenceDimension.exchange_net_flow = 17
external_dimension_index ExternalIntelligenceDimension.exchange_balance_trend = 18
external_dimension_index ExternalIntelligenceDimension.stablecoin_net_issuance = 19

pub external_dimension_index_injective :
    (a b : ExternalIntelligenceDimension)
    → external_dimension_index a ≡ external_dimension_index b
    → a ≡ b
external_dimension_index_injective a b h = ground arith

instance abbrev pub external_dimension_enum : Enum ExternalIntelligenceDimension
external_dimension_enum = record {
  index = external_dimension_index;
  index_injective = external_dimension_index_injective;
}
