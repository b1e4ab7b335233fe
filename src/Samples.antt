-- ===== src/Samples.antt =====
-- One evaluation that every stage can act on: the data of the tests of the components.
use ai_trading_advisor.Prelude.{none, some, [], ◌∷◌}
use ai_trading_advisor.Market.Enums.{
  FeatureQuality, SupervisorOutcome, ExternalIntelligenceAnalystType,
}
use ai_trading_advisor.Market.EvidenceEnums.{
  ContractType, TechnicalAnalystType, TechnicalAgreementVerdict, TechnicalAnalysisDimension,
  ExternalIntelligenceDimension,
}
use ai_trading_advisor.Market.Evidence.{
  TechnicalAnalysisResult, TechnicalSupervisorResult, FlowSupervisorResult,
  ExternalIntelligenceSupervisorResult,
}
use ai_trading_advisor.Market.Result.{MarketEvaluationContext, MarketEvaluationResult}
use ai_trading_advisor.Market.Evaluator.{assemble}
use ai_trading_advisor.Strategy.Enums.{
  StrategyFamily, EvidenceRole, JudgeContour, DirectionalCandidate, JudgeOutcome,
}
use ai_trading_advisor.Strategy.Evidence.{JudgeEvidenceRef, JudgeFamilyResult, StrategyJudgeResult}
use ai_trading_advisor.Strategy.Router

abbrev pub context : MarketEvaluationContext
context = record {
  symbol = "BTCUSDT";
  contract_type = ContractType.perpetual;
  base_asset = some "BTC";
  network = none;
  currency_exposures = "USD" ∷ [];
}

abbrev pub flow : FlowSupervisorResult
flow = record {
  symbol = "BTCUSDT";
  contract_type = ContractType.perpetual;
  observation_time = 90;
  outcome = SupervisorOutcome.analyzed;
  overall_quality = FeatureQuality.valid;
  analyst_results =
      record { observations = record { value = "BUY"; quality = FeatureQuality.valid } ∷ [] } ∷ [];
}

abbrev pub trend : TechnicalAnalysisResult
trend = record {
  analyst_type = TechnicalAnalystType.trend;
  observations =
      record {
        dimension = TechnicalAnalysisDimension.return_direction;
        value = "UP";
        quality = FeatureQuality.valid;
      }
      ∷ record {
        dimension = TechnicalAnalysisDimension.slope_direction;
        value = "UP";
        quality = FeatureQuality.stale;
      }
      ∷ [];
}

abbrev pub technical : TechnicalSupervisorResult
technical = record {
  symbol = "btcusdt";
  contract_type = ContractType.perpetual;
  observation_time = 95;
  outcome = SupervisorOutcome.analyzed;
  overall_quality = FeatureQuality.stale;
  coherence =
      record {
        dimension = TechnicalAnalysisDimension.return_direction;
        verdict = TechnicalAgreementVerdict.all_agree;
        evidence_refs = (0, 0) ∷ [];
      }
      ∷ [];
  analyst_results = trend ∷ [];
}

abbrev pub external : ExternalIntelligenceSupervisorResult
external = record {
  analysis_time = 80;
  outcome = SupervisorOutcome.partial;
  overall_quality = FeatureQuality.partial;
  scope_summaries =
      record {
        analyst_type = ExternalIntelligenceAnalystType.news_sentiment;
        currency = none;
        symbol = some "BTCUSDT";
        asset = none;
        network = none;
        result_index = 0;
      }
      ∷ [];
  analysis_results =
      record {
        observations =
            record {
              dimension = ExternalIntelligenceDimension.per_provider_sentiment_sign;
              value = "POSITIVE";
              quality = FeatureQuality.valid;
            }
            ∷ [];
      }
      ∷ [];
}

-- The evaluation of the three results at time 100.
abbrev pub evaluation : MarketEvaluationResult
evaluation = assemble (some flow) (some technical) (some external) context 100

abbrev pub primary_ref : JudgeEvidenceRef
primary_ref = record {
  contour = JudgeContour.technical;
  role = EvidenceRole.primary;
  analyst_result_index = 0;
  observation_index = 0;
}

-- A family whose thesis rests on one observation of quality `VALID`.
abbrev pub trend_following : JudgeFamilyResult
trend_following = record {
  family = StrategyFamily.trend_following;
  outcome = JudgeOutcome.directional;
  direction = some DirectionalCandidate.long_candidate;
  evidence_refs = primary_ref ∷ [];
}

-- A judge result with that family alone.
abbrev pub judged : StrategyJudgeResult
judged = record {
  strategy_router_result = Router.assemble evaluation;
  family_results = trend_following ∷ [];
}
