-- ===== src/Market/Result.antt =====
-- app/core/models/market_evaluation_result.py and market_evaluation_context.py: the result of the
-- market evaluation and the validators that its construction runs.
use Prim.Native.String.{String}
use text.Mathlib.Text.{◌==◌ as str_eq}
use ai_trading_advisor.Prelude.{
  ℕ, Bool, true, false, ◌&&◌, ◌||◌, Option, none, some, List, [], ◌∷◌, get_elem?, any_of, all_of,
  ltb, if◌then◌else◌, ◌is◌,
}
use ai_trading_advisor.Market.Enums.{
  FeatureQuality, MarketEvaluationContourStatus, MarketEvaluationOutcome, ExternalScopeMatchKind,
  ExternalAlignmentStatus, ExternalIntelligenceAnalystType, SupervisorOutcome, quality_index,
  quality_enum, contour_status_enum, market_outcome_enum, match_kind_enum, alignment_enum,
  external_analyst_enum,
}
use ai_trading_advisor.Market.EvidenceEnums.{ContractType}
use ai_trading_advisor.Market.Evidence.{
  TechnicalSupervisorResult, FlowSupervisorResult, ExternalIntelligenceSupervisorResult,
  ExternalIntelligenceScopeSummary,
}

pub record MarketEvaluationContext : Type 0 where
  pub symbol : String
  pub contract_type : ContractType
  pub base_asset : Option String
  pub network : Option String
  pub currency_exposures : List String

pub record ExternalScopeAlignmentRef : Type 0 where
  pub scope_summary_index : ℕ
  pub matched_by : ExternalScopeMatchKind

pub record MarketEvaluationResult : Type 0 where
  pub evaluation_time : ℕ
  pub context : MarketEvaluationContext
  pub outcome : MarketEvaluationOutcome
  pub flow_status : MarketEvaluationContourStatus
  pub technical_status : MarketEvaluationContourStatus
  pub external_status : MarketEvaluationContourStatus
  pub flow_quality : Option FeatureQuality
  pub technical_quality : Option FeatureQuality
  pub external_quality : Option FeatureQuality
  pub overall_quality : FeatureQuality
  pub flow : Option FlowSupervisorResult
  pub technical : Option TechnicalSupervisorResult
  pub external : Option ExternalIntelligenceSupervisorResult
  pub external_alignment_status : ExternalAlignmentStatus
  pub external_scope_alignment : List ExternalScopeAlignmentRef

-- `MarketEvaluationContourStatus(outcome.value)`, or `MISSING` where there is no result.
abbrev pub contour_status : Option SupervisorOutcome → MarketEvaluationContourStatus
contour_status none = MarketEvaluationContourStatus.missing
contour_status (some SupervisorOutcome.analyzed) = MarketEvaluationContourStatus.analyzed
contour_status (some SupervisorOutcome.partial) = MarketEvaluationContourStatus.partial
contour_status (some SupervisorOutcome.insufficient_evidence) =
    MarketEvaluationContourStatus.insufficient_evidence

-- `quality is expected`, where both may be `None`.
abbrev pub same_quality : Option FeatureQuality → Option FeatureQuality → Bool
same_quality none none = true
same_quality (some a) (some b) = a is b
same_quality _ _ = false

-- `a == b` for optional texts.
abbrev pub same_text : Option String → Option String → Bool
same_text none none = true
same_text (some a) (some b) = str_eq a b
same_text _ _ = false

-- `currency in currency_exposures`
abbrev pub exposed : Option String → List String → Bool
exposed none cs = false
exposed (some c) [] = false
exposed (some c) (d ∷ ds) = str_eq c d || exposed (some c) ds

abbrev pub is_some {ℓ} : {A : Type ℓ} → Option A → Bool
is_some none = false
is_some (some a) = true

-- `status in _QUALIFYING_STATUSES`
abbrev pub is_qualifying : MarketEvaluationContourStatus → Bool
is_qualifying s =
    s is MarketEvaluationContourStatus.analyzed || s is MarketEvaluationContourStatus.partial

-- `analyst_type in _CURRENCY_SCOPED_ANALYST_TYPES`
abbrev pub is_currency_scoped : ExternalIntelligenceAnalystType → Bool
is_currency_scoped t =
    t is ExternalIntelligenceAnalystType.macro_event
    || t is ExternalIntelligenceAnalystType.rates_yield

abbrev pub worse : FeatureQuality → FeatureQuality → FeatureQuality
worse result quality =
    if ltb (quality_index result) (quality_index quality) then quality else result

unfoldable pub worse_from : FeatureQuality → List FeatureQuality → FeatureQuality
worse_from result [] = result
worse_from result (q ∷ qs) = worse_from (worse result q) qs

unfoldable pub worse_of_many : List FeatureQuality → FeatureQuality
worse_of_many qs = worse_from FeatureQuality.valid qs

-- One element of the list `qualifying_qualities`.
abbrev pub qualifying :
    MarketEvaluationContourStatus
    → Option FeatureQuality
    → List FeatureQuality
    → List FeatureQuality
qualifying status none rest = rest
qualifying status (some q) rest = if is_qualifying status then q ∷ rest else rest

abbrev pub qualifying_qualities :
    MarketEvaluationContourStatus
    → Option FeatureQuality
    → MarketEvaluationContourStatus
    → Option FeatureQuality
    → MarketEvaluationContourStatus
    → Option FeatureQuality
    → List FeatureQuality
qualifying_qualities fs fq ts tq es eq = qualifying fs fq (qualifying ts tq (qualifying es eq []))

-- `_worse_of_many(qualities) if qualities else UNAVAILABLE`
unfoldable pub fold_quality : List FeatureQuality → FeatureQuality
fold_quality [] = FeatureQuality.unavailable
fold_quality (q ∷ qs) = worse_of_many (q ∷ qs)

unfoldable pub participation_outcome :
    MarketEvaluationContourStatus
    → MarketEvaluationContourStatus
    → MarketEvaluationContourStatus
    → MarketEvaluationOutcome
participation_outcome f t e =
    let statuses = f ∷ t ∷ e ∷ [] in
    if all_of (λ s. s is MarketEvaluationContourStatus.analyzed) statuses
    then MarketEvaluationOutcome.evaluated
    else if any_of is_qualifying statuses
    then MarketEvaluationOutcome.partial
    else MarketEvaluationOutcome.insufficient_evidence

-- A contour's status and quality against its supervisor's outcome and quality, if there is one.
abbrev pub agrees :
    Option SupervisorOutcome
    → Option FeatureQuality
    → MarketEvaluationContourStatus
    → Option FeatureQuality
    → Bool
agrees outcome overall_quality status quality =
    status is contour_status outcome && same_quality quality overall_quality

abbrev pub flow_outcome : Option FlowSupervisorResult → Option SupervisorOutcome
flow_outcome none = none
flow_outcome (some f) = some f.outcome

abbrev pub flow_quality_of : Option FlowSupervisorResult → Option FeatureQuality
flow_quality_of none = none
flow_quality_of (some f) = some f.overall_quality

abbrev pub technical_outcome : Option TechnicalSupervisorResult → Option SupervisorOutcome
technical_outcome none = none
technical_outcome (some t) = some t.outcome

abbrev pub technical_quality_of : Option TechnicalSupervisorResult → Option FeatureQuality
technical_quality_of none = none
technical_quality_of (some t) = some t.overall_quality

abbrev pub external_outcome : Option ExternalIntelligenceSupervisorResult → Option SupervisorOutcome
external_outcome none = none
external_outcome (some x) = some x.outcome

abbrev pub external_quality_of : Option ExternalIntelligenceSupervisorResult → Option FeatureQuality
external_quality_of none = none
external_quality_of (some x) = some x.overall_quality

unfoldable pub is_valid_flow_contour : MarketEvaluationResult → Bool
is_valid_flow_contour r =
    agrees (flow_outcome r.flow) (flow_quality_of r.flow) r.flow_status r.flow_quality

unfoldable pub is_valid_technical_contour : MarketEvaluationResult → Bool
is_valid_technical_contour r =
    agrees (technical_outcome r.technical) (technical_quality_of r.technical) r.technical_status
      r.technical_quality

unfoldable pub is_valid_external_contour : MarketEvaluationResult → Bool
is_valid_external_contour r =
    agrees (external_outcome r.external) (external_quality_of r.external) r.external_status
      r.external_quality

unfoldable pub is_valid_outcome : MarketEvaluationResult → Bool
is_valid_outcome r =
    r.outcome is participation_outcome r.flow_status r.technical_status r.external_status

unfoldable pub is_valid_overall_quality : MarketEvaluationResult → Bool
is_valid_overall_quality r =
    r.overall_quality
    is fold_quality (
        qualifying_qualities r.flow_status r.flow_quality r.technical_status r.technical_quality
          r.external_status r.external_quality)

-- The alignment status that a result with these references must have; without an external contour
-- there may be no references.
abbrev pub has_expected_alignment :
    ExternalAlignmentStatus
    → Option ExternalIntelligenceSupervisorResult
    → List ExternalScopeAlignmentRef
    → Bool
has_expected_alignment status none [] = status is ExternalAlignmentStatus.missing
has_expected_alignment status none (ref ∷ refs) = false
has_expected_alignment status (some x) [] = status is ExternalAlignmentStatus.no_matching_scope
has_expected_alignment status (some x) (ref ∷ refs) = status is ExternalAlignmentStatus.matched

unfoldable pub is_valid_alignment_status : MarketEvaluationResult → Bool
is_valid_alignment_status r =
    has_expected_alignment r.external_alignment_status r.external r.external_scope_alignment

-- `_validate_alignment_indexes` and `_validate_matched_by_consistency` for one reference: a scope
-- summary that exists and that the reference's kind describes.
abbrev pub matches_by :
    ExternalIntelligenceAnalystType
    → ExternalScopeMatchKind
    → MarketEvaluationContext
    → ExternalIntelligenceScopeSummary
    → Bool
matches_by type ExternalScopeMatchKind.symbol context scope =
    type is ExternalIntelligenceAnalystType.news_sentiment
    && same_text scope.symbol (some context.symbol)
matches_by type ExternalScopeMatchKind.asset_network context scope =
    type is ExternalIntelligenceAnalystType.on_chain
    && ((is_some context.base_asset && is_some context.network)
        && (same_text scope.asset context.base_asset && same_text scope.network context.network))
matches_by type ExternalScopeMatchKind.currency context scope =
    is_currency_scoped type && exposed scope.currency context.currency_exposures

abbrev pub matches_scope :
    MarketEvaluationContext → ExternalScopeMatchKind → ExternalIntelligenceScopeSummary → Bool
matches_scope context kind scope = matches_by scope.analyst_type kind context scope

abbrev pub accepts :
    MarketEvaluationContext
    → ExternalScopeMatchKind
    → Option ExternalIntelligenceScopeSummary
    → Bool
accepts context kind none = false
accepts context kind (some scope) = matches_scope context kind scope

abbrev pub is_valid_ref :
    MarketEvaluationContext
    → List ExternalIntelligenceScopeSummary
    → ExternalScopeAlignmentRef
    → Bool
is_valid_ref context scopes ref =
    accepts context ref.matched_by (get_elem? scopes ref.scope_summary_index)

abbrev pub are_valid_refs :
    MarketEvaluationContext
    → Option ExternalIntelligenceSupervisorResult
    → List ExternalScopeAlignmentRef
    → Bool
are_valid_refs context none refs = true
are_valid_refs context (some x) refs = all_of (is_valid_ref context x.scope_summaries) refs

unfoldable pub is_valid_alignment : MarketEvaluationResult → Bool
is_valid_alignment r = are_valid_refs r.context r.external r.external_scope_alignment

-- All the validators, in the order in which pydantic runs them.
unfoldable pub is_valid : MarketEvaluationResult → Bool
is_valid r =
    is_valid_flow_contour r
    && (is_valid_technical_contour r
        && (is_valid_external_contour r
            && (is_valid_outcome r
                && (is_valid_overall_quality r
                    && (is_valid_alignment_status r && is_valid_alignment r)))))
