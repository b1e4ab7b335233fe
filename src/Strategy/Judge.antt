-- ===== src/Strategy/Judge.antt =====
-- app/judge/judge.py: `Judge.judge` over one router result.
use ai_trading_advisor.Prelude.{Option, none, some, List, [], ◌∷◌, if◌then◌else◌, ◌>>=◌}
use ai_trading_advisor.Market.Result.{MarketEvaluationResult}
use ai_trading_advisor.Strategy.Enums.{StrategyFamily}
use ai_trading_advisor.Strategy.Router.{StrategyRouterResult}
use ai_trading_advisor.Strategy.Evidence.{JudgeFamilyResult, StrategyJudgeResult, is_valid}
use ai_trading_advisor.Strategy.Readings.{Verdict}
use ai_trading_advisor.Strategy.TechnicalFamilies.{
  judge_trend_following, judge_mean_reversion, judge_breakout,
}
use ai_trading_advisor.Strategy.EventDriven.{judge_event_driven}

unfoldable pub judge_family : MarketEvaluationResult → StrategyFamily → Option Verdict
judge_family m StrategyFamily.trend_following = judge_trend_following m.technical
judge_family m StrategyFamily.mean_reversion = some judge_mean_reversion
judge_family m StrategyFamily.breakout = judge_breakout m.technical
judge_family m StrategyFamily.event_driven = judge_event_driven m

abbrev pub family_result : StrategyFamily → Verdict → JudgeFamilyResult
family_result family v = record {
  family = family;
  outcome = v.outcome;
  direction = v.direction;
  evidence_refs = v.refs;
}

-- The loop over the eligible families.
unfoldable pub judge_families :
    MarketEvaluationResult → List StrategyFamily → Option (List JudgeFamilyResult)
judge_families m [] = some []
judge_families m (family ∷ families) = do
  verdict ← judge_family m family
  rest ← judge_families m families
  some (family_result family verdict ∷ rest)

abbrev pub checked : StrategyJudgeResult → Option StrategyJudgeResult
checked r = if is_valid r then some r else none

-- `none` where a reading is out of range, or a validator refuses a result.
unfoldable pub judge : StrategyRouterResult → Option StrategyJudgeResult
judge r = do
  family_results ← judge_families r.market_evaluation r.eligible_families
  checked (record { strategy_router_result = r; family_results = family_results })
