-- ===== src/Strategy/Tests.antt =====
-- The theorems of the strategy stages at one evaluation.
use ai_trading_advisor.Prelude.{◌≡◌, ◌↔◌, ◌⊎◌, refl, [], ◌∷◌, some, true, every, All}
use ai_trading_advisor.Market.Evaluator.{assemble}
use ai_trading_advisor.Strategy.Enums.{
  StrategyFamily, StrategyRouterOutcome, JudgeOutcome, PolicyFamilyVerdict, EvidenceRole,
  JudgeContour,
}
use ai_trading_advisor.Strategy.Router
use ai_trading_advisor.Strategy.Router.Eligibility.{
  MayInspect, evaluate_family-MayInspect, route-total, assemble-routed_iff,
}
use ai_trading_advisor.Strategy.Evidence.{JudgeEvidenceRef, is_canonical, in_bounds}
use ai_trading_advisor.Strategy.Readings.{canonicalize}
use ai_trading_advisor.Strategy.Canonical.{holds, canonicalize_lem}
use ai_trading_advisor.Strategy.Judge.{judge_family}
use ai_trading_advisor.Strategy.Verdicts.{is_sound}
use ai_trading_advisor.Strategy.FamilyVerdicts.{judge_family-is_sound}
use ai_trading_advisor.Strategy.Policy
use ai_trading_advisor.Strategy.Policy.{StrategyPolicyResult, PolicyFamilyResult}
use ai_trading_advisor.Strategy.PolicyVerdicts.{Allowed, evaluate_family-Allowed}
use ai_trading_advisor.Strategy.PolicyTotal.{apply-total}
use ai_trading_advisor.Samples.{evaluation, primary_ref, trend_following, judged}

evaluate_family-MayInspect_example :
    ((Router.evaluate_family evaluation StrategyFamily.breakout).eligible ≡ true)
    ↔ MayInspect evaluation StrategyFamily.breakout
evaluate_family-MayInspect_example = evaluate_family-MayInspect evaluation StrategyFamily.breakout

route-total_example : Router.route evaluation ≡ some (Router.assemble evaluation)
route-total_example = route-total evaluation

assemble-routed_iff_example :
    ((Router.assemble evaluation).outcome ≡ StrategyRouterOutcome.routed) ↔ (
      MayInspect evaluation StrategyFamily.trend_following
      ⊎ (MayInspect evaluation StrategyFamily.breakout
          ⊎ MayInspect evaluation StrategyFamily.event_driven))
assemble-routed_iff_example = assemble-routed_iff evaluation

abbrev corroborating_ref : JudgeEvidenceRef
corroborating_ref = record {
  contour = JudgeContour.external;
  role = EvidenceRole.corroborating;
  analyst_result_index = 1;
  observation_index = 2;
}

canonicalize_lem_example :
    (is_canonical (canonicalize (corroborating_ref ∷ primary_ref ∷ corroborating_ref ∷ [])) ≡ true)
    × (holds primary_ref (canonicalize (corroborating_ref ∷ primary_ref ∷ corroborating_ref ∷ []))
        ≡ holds primary_ref (corroborating_ref ∷ primary_ref ∷ corroborating_ref ∷ []))
canonicalize_lem_example =
    canonicalize_lem primary_ref (corroborating_ref ∷ primary_ref ∷ corroborating_ref ∷ [])

judge_family-is_sound_example :
    every is_sound (judge_family evaluation StrategyFamily.trend_following) ≡ true
judge_family-is_sound_example = judge_family-is_sound evaluation StrategyFamily.trend_following

evaluate_family-Allowed_example :
    (PolicyFamilyVerdict.eligible_for_risk_review ≡ PolicyFamilyVerdict.eligible_for_risk_review)
    ↔ ((trend_following.outcome ≡ JudgeOutcome.directional)
        × All (Allowed evaluation) trend_following.evidence_refs)
unfolding Policy.evaluate_family Policy.evaluate_outcome Policy.violations_from
    Policy.resolve_observation_quality assemble
evaluate_family-Allowed_example = evaluate_family-Allowed evaluation trend_following refl

apply-total_example :
    (p : StrategyPolicyResult) × (Policy.apply judged ≡ some p) × (Policy.is_valid p ≡ true)
unfolding in_bounds Router.assemble assemble
apply-total_example = apply-total judged refl
