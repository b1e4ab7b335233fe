-- ===== src/Market/Evidence.antt =====
-- What the supervisors hand to the decision chain (app/core/models/technical_supervisor_result.py,
-- technical_analysis_result.py, flow_supervisor_result.py, external_intelligence_supervisor_result.py
-- and external_intelligence_analysis_result.py): the fields that the market evaluation, the judge and
-- the policy gate read. Time stamps are numbers, since they are only compared.
use Prim.Native.String.{String}
use ai_trading_advisor.Prelude.{ℕ, Option, List}
use ai_trading_advisor.Market.Enums.{
  FeatureQuality, ExternalIntelligenceAnalystType, SupervisorOutcome,
}
use ai_trading_advisor.Market.EvidenceEnums.{
  ContractType, TechnicalAnalystType, TechnicalAgreementVerdict, TechnicalAnalysisDimension,
  ExternalIntelligenceDimension,
}

pub record TechnicalAnalysisObservation : Type 0 where
  pub dimension : TechnicalAnalysisDimension
  pub value : String
  pub quality : FeatureQuality

pub record TechnicalAnalysisResult : Type 0 where
  pub analyst_type : TechnicalAnalystType
  pub observations : List TechnicalAnalysisObservation

pub record TechnicalCoherenceResult : Type 0 where
  pub dimension : TechnicalAnalysisDimension
  pub verdict : TechnicalAgreementVerdict
  pub evidence_refs : List (ℕ × ℕ)

pub record TechnicalSupervisorResult : Type 0 where
  pub symbol : String
  pub contract_type : ContractType
  pub observation_time : ℕ
  pub outcome : SupervisorOutcome
  pub overall_quality : FeatureQuality
  pub coherence : List TechnicalCoherenceResult
  pub analyst_results : List TechnicalAnalysisResult

pub record FlowAnalysisObservation : Type 0 where
  pub value : String
  pub quality : FeatureQuality

pub record FlowAnalysisResult : Type 0 where
  pub observations : List FlowAnalysisObservation

pub record FlowSupervisorResult : Type 0 where
  pub symbol : String
  pub contract_type : ContractType
  pub observation_time : ℕ
  pub outcome : SupervisorOutcome
  pub overall_quality : FeatureQuality
  pub analyst_results : List FlowAnalysisResult

pub record ExternalIntelligenceAnalysisObservation : Type 0 where
  pub dimension : ExternalIntelligenceDimension
  pub value : String
  pub quality : FeatureQuality

pub record ExternalIntelligenceAnalysisResult : Type 0 where
  pub observations : List ExternalIntelligenceAnalysisObservation

pub record ExternalIntelligenceScopeSummary : Type 0 where
  pub analyst_type : ExternalIntelligenceAnalystType
  pub currency : Option String
  pub symbol : Option String
  pub asset : Option String
  pub network : Option String
  pub result_index : ℕ

pub record ExternalIntelligenceSupervisorResult : Type 0 where
  pub analysis_time : ℕ
  pub outcome : SupervisorOutcome
  pub overall_quality : FeatureQuality
  pub scope_summaries : List ExternalIntelligenceScopeSummary
  pub analysis_results : List ExternalIntelligenceAnalysisResult
