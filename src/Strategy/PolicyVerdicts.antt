-- ===== src/Strategy/PolicyVerdicts.antt =====
-- The policy gate: which families it lets through, and that it never fails on references in bounds.
use ai_trading_advisor.Prelude.{ℕ, suc, ◌≡◌, ◌↔◌, refl, some, List, [], ◌∷◌, arith, All, ◌⊎◌}
use ai_trading_advisor.Market.Enums.{FeatureQuality}
use ai_trading_advisor.Market.Result.{MarketEvaluationResult}
use ai_trading_advisor.Strategy.Enums.{
  JudgeOutcome, PolicyFamilyVerdict, family_enum, policy_outcome_enum, policy_verdict_enum,
}
use ai_trading_advisor.Strategy.Evidence.{JudgeEvidenceRef, JudgeFamilyResult}
use ai_trading_advisor.Strategy.Policy.{
  PolicyFamilyResult, resolve_observation_quality, violations_from, evaluate_outcome,
  evaluate_family,
}

-- A reference resolves to an observation whose quality the policy allows.
abbrev pub Allowed : MarketEvaluationResult → JudgeEvidenceRef → Type 0
Allowed m ref =
    (resolve_observation_quality m ref ≡ some FeatureQuality.valid)
    ⊎ (resolve_observation_quality m ref ≡ some FeatureQuality.partial)

violations_from-none_iff :
    (m : MarketEvaluationResult) (index : ℕ) (refs : List JudgeEvidenceRef)
    → (violations_from m index refs ≡ some []) ↔ All (Allowed m) refs
unfolding violations_from
violations_from-none_iff m index [] = (λ _. tt, λ _. refl)
violations_from-none_iff m index (ref ∷ refs) =
    ground (arith, violations_from-none_iff m (suc index) refs)

-- When the policy gate has a result for a family, the result is eligible exactly when the judge's
-- outcome is `DIRECTIONAL` and every observation that it cites has quality `VALID` or `PARTIAL`.
pub evaluate_family-Allowed :
    (m : MarketEvaluationResult) (r : JudgeFamilyResult) {p : PolicyFamilyResult}
    → evaluate_family m r ≡ some p
    → (p.verdict ≡ PolicyFamilyVerdict.eligible_for_risk_review)
      ↔ ((r.outcome ≡ JudgeOutcome.directional) × All (Allowed m) r.evidence_refs)
unfolding evaluate_family evaluate_outcome
evaluate_family-Allowed m r e = ground (arith, violations_from-none_iff m 0 r.evidence_refs)
