-- ===== src/Events/Tests.antt =====
-- The event theorems at a rate decision, in a decimal context of four places.
use ai_trading_advisor.Prelude.{◌≡◌, refl, false, none, some, List, [], ◌∷◌, keep}
use ai_trading_advisor.Decimal.FixedPoint.{ℤ, pos, fixed_point, fixed_point-OrderLaws}
use ai_trading_advisor.Strategy.Enums.{StrategyFamily, PolicyFamilyVerdict, family_enum}
use ai_trading_advisor.Strategy.Policy.{PolicyFamilyResult}
use ai_trading_advisor.Money.Enums.{RiskFamilyVerdict}
use ai_trading_advisor.Money.Risk.{RiskFamilyResult, candidate_by_family, evaluate_family}
use ai_trading_advisor.Samples.{context}
use ai_trading_advisor.Events.Calendar.{
  HighImpactEventImportance, HighImpactEventRecord, is_relevant, instrument_scope_tags,
  is_hard_block_eligible,
}
use ai_trading_advisor.Events.Gate.{
  HighImpactEventVerdict, HighImpactEventFamilyResult, SetupConstructionResult, event_verdict,
  judge_events, sort_events, evaluate_family as evaluate_event_family, evaluate,
  to_event_adjusted_candidate_risk_inputs,
}
use ai_trading_advisor.Events.Verdicts.{verdict_of_all, SafeFrom, evaluate_family-SafeFrom}
use ai_trading_advisor.Events.RiskBridge.{event_blocked-denied}

abbrev decision : HighImpactEventRecord
decision = record {
  provider_event_id = "17";
  event_time = 10000;
  importance = HighImpactEventImportance.moderate;
  event_code = "FOMC";
}

abbrev setups : List (SetupConstructionResult ℤ)
setups =
    record {
      family = StrategyFamily.trend_following;
      setup = some (record { signal_time = 9600; valid_until = 9900; risk_per_unit = pos 10000 });
    }
    ∷ record { family = StrategyFamily.breakout; setup = none }
    ∷ []

abbrev results : List HighImpactEventFamilyResult
results =
    record {
      family = StrategyFamily.trend_following;
      verdict = HighImpactEventVerdict.blocked;
      relevant_events = decision ∷ [];
      next_safe_time = some 10300;
    }
    ∷ []

-- The decision matters to the sample's market and blocks the setup until five minutes after it.
blocking : evaluate (fixed_point false) context (some (decision ∷ [])) none setups ≡ results
unfolding evaluate evaluate_event_family is_relevant instrument_scope_tags is_hard_block_eligible
    judge_events event_verdict sort_events
blocking = refl

abbrev policy : PolicyFamilyResult
policy = record {
  family = StrategyFamily.trend_following;
  verdict = PolicyFamilyVerdict.eligible_for_risk_review;
  reasons = [];
  quality_violations = [];
}

evaluate_family-SafeFrom_example :
    ((evaluate_event_family StrategyFamily.trend_following 9600 9900
        (is_relevant "BTCUSDT" (instrument_scope_tags context) none)
        (decision ∷ [])).verdict
      ≡ verdict_of_all 9600 9900
          (keep (is_relevant "BTCUSDT" (instrument_scope_tags context) none) (decision ∷ [])))
    × SafeFrom 9600 9900 60 10900
        (keep (is_relevant "BTCUSDT" (instrument_scope_tags context) none) (decision ∷ []))
        (evaluate_event_family StrategyFamily.trend_following 9600 9900
          (is_relevant "BTCUSDT" (instrument_scope_tags context) none)
          (decision ∷ [])).next_safe_time
evaluate_family-SafeFrom_example =
    evaluate_family-SafeFrom StrategyFamily.trend_following 9600 9900 60 10900
      (is_relevant "BTCUSDT" (instrument_scope_tags context) none) (decision ∷ [])

event_blocked-denied_example :
    (r : RiskFamilyResult ℤ) × (evaluate_family
        (fixed_point false)
        policy
        (candidate_by_family StrategyFamily.trend_following
          (to_event_adjusted_candidate_risk_inputs (fixed_point false) setups (some results)))
        (pos 10000)
        (pos 10000)
        (pos 10000)
      ≡ some r)
    × (r.verdict ≡ RiskFamilyVerdict.blocked_by_risk)
event_blocked-denied_example =
    event_blocked-denied (fixed_point false) (fixed_point-OrderLaws false) setups results policy
      (pos 10000) (pos 10000) (pos 10000) refl refl
