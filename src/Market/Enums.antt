-- ===== src/Market/Enums.antt =====
-- The enumerations of the decision chain (app/core/enums): feature quality, contour status, strategy
-- families and the outcomes, verdicts and reasons of the router, the judge and the policy gate.
-- Members keep the declaration order of the source.
use ai_trading_advisor.Prelude.{ℕ, ◌≡◌, arith, Enum}

pub data FeatureQuality : Type 0 where
  valid partial stale unavailable : FeatureQuality

abbrev pub quality_index : FeatureQuality → ℕ
quality_index FeatureQuality.valid = 0
quality_index FeatureQuality.partial = 1
quality_index FeatureQuality.stale = 2
quality_index FeatureQuality.unavailable = 3

pub quality_index_injective : (a b : FeatureQuality) → quality_index a ≡ quality_index b → a ≡ b
quality_index_injective a b h = ground arith

instance abbrev pub quality_enum : Enum FeatureQuality
quality_enum = record { index = quality_index; index_injective = quality_index_injective }

pub data MarketEvaluationContourStatus : Type 0 where
  missing insufficient_evidence partial analyzed : MarketEvaluationContourStatus

abbrev pub contour_status_index : MarketEvaluationContourStatus → ℕ
contour_status_index MarketEvaluationContourStatus.missing = 0
contour_status_index MarketEvaluationContourStatus.insufficient_evidence = 1
contour_status_index MarketEvaluationContourStatus.partial = 2
contour_status_index MarketEvaluationContourStatus.analyzed = 3

pub contour_status_index_injective :
    (a b : MarketEvaluationContourStatus) → contour_status_index a ≡ contour_status_index b → a ≡ b
contour_status_index_injective a b h = ground arith

instance abbrev pub contour_status_enum : Enum MarketEvaluationContourStatus
contour_status_enum = record {
  index = contour_status_index;
  index_injective = contour_status_index_injective;
}

pub data MarketEvaluationOutcome : Type 0 where
  evaluated partial insufficient_evidence : MarketEvaluationOutcome

abbrev pub market_outcome_index : MarketEvaluationOutcome → ℕ
market_outcome_index MarketEvaluationOutcome.evaluated = 0
market_outcome_index MarketEvaluationOutcome.partial = 1
market_outcome_index MarketEvaluationOutcome.insufficient_evidence = 2

pub market_outcome_index_injective :
    (a b : MarketEvaluationOutcome) → market_outcome_index a ≡ market_outcome_index b → a ≡ b
market_outcome_index_injective a b h = ground arith

instance abbrev pub market_outcome_enum : Enum MarketEvaluationOutcome
market_outcome_enum = record {
  index = market_outcome_index;
  index_injective = market_outcome_index_injective;
}

pub data ExternalScopeMatchKind : Type 0 where
  symbol asset_network currency : ExternalScopeMatchKind

abbrev pub match_kind_index : ExternalScopeMatchKind → ℕ
match_kind_index ExternalScopeMatchKind.symbol = 0
match_kind_index ExternalScopeMatchKind.asset_network = 1
match_kind_index ExternalScopeMatchKind.currency = 2

pub match_kind_index_injective :
    (a b : ExternalScopeMatchKind) → match_kind_index a ≡ match_kind_index b → a ≡ b
match_kind_index_injective a b h = ground arith

instance abbrev pub match_kind_enum : Enum ExternalScopeMatchKind
match_kind_enum = record { index = match_kind_index; index_injective = match_kind_index_injective }

pub data ExternalAlignmentStatus : Type 0 where
  missing no_matching_scope matched : ExternalAlignmentStatus

abbrev pub alignment_index : ExternalAlignmentStatus → ℕ
alignment_index ExternalAlignmentStatus.missing = 0
alignment_index ExternalAlignmentStatus.no_matching_scope = 1
alignment_index ExternalAlignmentStatus.matched = 2

pub alignment_index_injective :
    (a b : ExternalAlignmentStatus) → alignment_index a ≡ alignment_index b → a ≡ b
alignment_index_injective a b h = ground arith

instance abbrev pub alignment_enum : Enum ExternalAlignmentStatus
alignment_enum = record { index = alignment_index; index_injective = alignment_index_injective }

pub data ExternalIntelligenceAnalystType : Type 0 where
  macro_event rates_yield news_sentiment on_chain : ExternalIntelligenceAnalystType

abbrev pub external_analyst_index : ExternalIntelligenceAnalystType → ℕ
external_analyst_index ExternalIntelligenceAnalystType.macro_event = 0
external_analyst_index ExternalIntelligenceAnalystType.rates_yield = 1
external_analyst_index ExternalIntelligenceAnalystType.news_sentiment = 2
external_analyst_index ExternalIntelligenceAnalystType.on_chain = 3

pub external_analyst_index_injective :
    (a b : ExternalIntelligenceAnalystType)
    → external_analyst_index a ≡ external_analyst_index b
    → a ≡ b
external_analyst_index_injective a b h = ground arith

instance abbrev pub external_analyst_enum : Enum ExternalIntelligenceAnalystType
external_analyst_enum = record {
  index = external_analyst_index;
  index_injective = external_analyst_index_injective;
}

pub data SupervisorOutcome : Type 0 where
  analyzed partial insufficient_evidence : SupervisorOutcome

abbrev pub supervisor_outcome_index : SupervisorOutcome → ℕ
supervisor_outcome_index SupervisorOutcome.analyzed = 0
supervisor_outcome_index SupervisorOutcome.partial = 1
supervisor_outcome_index SupervisorOutcome.insufficient_evidence = 2

pub supervisor_outcome_index_injective :
    (a b : SupervisorOutcome) → supervisor_outcome_index a ≡ supervisor_outcome_index b → a ≡ b
supervisor_outcome_index_injective a b h = ground arith

instance abbrev pub supervisor_outcome_enum : Enum SupervisorOutcome
supervisor_outcome_enum = record {
  index = supervisor_outcome_index;
  index_injective = supervisor_outcome_index_injective;
}
