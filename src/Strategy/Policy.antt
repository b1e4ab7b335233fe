-- ===== src/Strategy/Policy.antt =====
-- app/decision/gate.py and app/core/models/policy_gate_result.py: the policy gate, and the validators
-- of its result. A reference that Python would refuse with an exception is `none`.
use ai_trading_advisor.Prelude.{
  ℕ, suc, Bool, true, false, ◌&&◌, ◌||◌, Option, none, some, List, [], ◌∷◌, map, any_of, all_of,
  get_elem?, if◌then◌else◌, negb, ◌is◌, same, ◌==◌, ◌>>=◌, is_sorted, no_duplicates, member,
}
use ai_trading_advisor.Market.Enums.{FeatureQuality, quality_enum}
use ai_trading_advisor.Market.Evidence.{
  TechnicalSupervisorResult, FlowSupervisorResult, ExternalIntelligenceSupervisorResult,
}
use ai_trading_advisor.Market.Result.{MarketEvaluationResult}
use ai_trading_advisor.Strategy.Enums.{
  StrategyFamily, JudgeContour, JudgeOutcome, PolicyFamilyVerdict, PolicyGateOutcome,
  PolicyBlockReason, family_enum, policy_verdict_enum, policy_outcome_enum, policy_reason_enum,
  policy_reason_index,
}
use ai_trading_advisor.Strategy.Router.{is_empty}
use ai_trading_advisor.Strategy.Evidence.{JudgeEvidenceRef, JudgeFamilyResult, StrategyJudgeResult}

pub record PolicyEvidenceQualityViolation : Type 0 where
  pub judge_evidence_ref_index : ℕ
  pub resolved_quality : FeatureQuality

pub record PolicyFamilyResult : Type 0 where
  pub family : StrategyFamily
  pub verdict : PolicyFamilyVerdict
  pub reasons : List PolicyBlockReason
  pub quality_violations : List PolicyEvidenceQualityViolation

pub record StrategyPolicyResult : Type 0 where
  pub strategy_judge_result : StrategyJudgeResult
  pub outcome : PolicyGateOutcome
  pub family_results : List PolicyFamilyResult

-- `_ALLOWED_EVIDENCE_QUALITIES`
abbrev pub is_allowed : FeatureQuality → Bool
is_allowed q = q is FeatureQuality.valid || q is FeatureQuality.partial

abbrev pub technical_quality_at : Option TechnicalSupervisorResult → ℕ → ℕ → Option FeatureQuality
technical_quality_at none i j = none
technical_quality_at (some t) i j =
    get_elem? t.analyst_results i >>= λ r. get_elem? r.observations j >>= λ o. some o.quality

abbrev pub flow_quality_at : Option FlowSupervisorResult → ℕ → ℕ → Option FeatureQuality
flow_quality_at none i j = none
flow_quality_at (some f) i j =
    get_elem? f.analyst_results i >>= λ r. get_elem? r.observations j >>= λ o. some o.quality

abbrev pub external_quality_at :
    Option ExternalIntelligenceSupervisorResult → ℕ → ℕ → Option FeatureQuality
external_quality_at none i j = none
external_quality_at (some x) i j =
    get_elem? x.analysis_results i >>= λ r. get_elem? r.observations j >>= λ o. some o.quality

abbrev pub quality_at : MarketEvaluationResult → JudgeContour → ℕ → ℕ → Option FeatureQuality
quality_at m JudgeContour.technical i j = technical_quality_at m.technical i j
quality_at m JudgeContour.flow i j = flow_quality_at m.flow i j
quality_at m JudgeContour.external i j = external_quality_at m.external i j

unfoldable pub resolve_observation_quality :
    MarketEvaluationResult → JudgeEvidenceRef → Option FeatureQuality
resolve_observation_quality m ref =
    quality_at m ref.contour ref.analyst_result_index ref.observation_index

abbrev pub violation : ℕ → FeatureQuality → PolicyEvidenceQualityViolation
violation index quality = record { judge_evidence_ref_index = index; resolved_quality = quality }

-- The violations from position `index` on.
unfoldable pub violations_from :
    MarketEvaluationResult
    → ℕ
    → List JudgeEvidenceRef
    → Option (List PolicyEvidenceQualityViolation)
violations_from m index [] = some []
violations_from m index (ref ∷ refs) = do
  quality ← resolve_observation_quality m ref
  rest ← violations_from m (suc index) refs
  some (if is_allowed quality then rest else violation index quality ∷ rest)

abbrev pub blocked : StrategyFamily → PolicyBlockReason → PolicyFamilyResult
blocked family reason = record {
  family = family;
  verdict = PolicyFamilyVerdict.blocked;
  reasons = reason ∷ [];
  quality_violations = [];
}

abbrev pub by_violations : StrategyFamily → List PolicyEvidenceQualityViolation → PolicyFamilyResult
by_violations family [] = record {
  family = family;
  verdict = PolicyFamilyVerdict.eligible_for_risk_review;
  reasons = [];
  quality_violations = [];
}
by_violations family (v ∷ vs) = record {
  family = family;
  verdict = PolicyFamilyVerdict.blocked;
  reasons = PolicyBlockReason.disallowed_evidence_quality ∷ [];
  quality_violations = v ∷ vs;
}

-- The body of `_evaluate_family`, by the judge's outcome.
unfoldable pub evaluate_outcome :
    MarketEvaluationResult
    → StrategyFamily
    → JudgeOutcome
    → List JudgeEvidenceRef
    → Option PolicyFamilyResult
evaluate_outcome m family JudgeOutcome.mixed refs =
    some (blocked family PolicyBlockReason.judge_outcome_mixed)
evaluate_outcome m family JudgeOutcome.insufficient_evidence refs =
    some (blocked family PolicyBlockReason.judge_outcome_insufficient_evidence)
evaluate_outcome m family JudgeOutcome.directional refs = do
  violations ← violations_from m 0 refs
  some (by_violations family violations)

unfoldable pub evaluate_family :
    MarketEvaluationResult → JudgeFamilyResult → Option PolicyFamilyResult
evaluate_family m r = evaluate_outcome m r.family r.outcome r.evidence_refs

unfoldable pub evaluate_families :
    MarketEvaluationResult → List JudgeFamilyResult → Option (List PolicyFamilyResult)
evaluate_families m [] = some []
evaluate_families m (r ∷ rs) = do
  result ← evaluate_family m r
  rest ← evaluate_families m rs
  some (result ∷ rest)

abbrev pub is_eligible : PolicyFamilyResult → Bool
is_eligible r = r.verdict is PolicyFamilyVerdict.eligible_for_risk_review

unfoldable pub outcome_of : List PolicyFamilyResult → PolicyGateOutcome
outcome_of results =
    if any_of is_eligible results
    then PolicyGateOutcome.some_eligible_for_risk_review
    else PolicyGateOutcome.no_eligible_family

-- The validators of `PolicyFamilyResult`.
unfoldable pub is_valid_family : PolicyFamilyResult → Bool
is_valid_family r =
    let reason_indexes = map policy_reason_index r.reasons in
    let violation_indexes = map (λ v. v.judge_evidence_ref_index) r.quality_violations in
    r.verdict is (
      if is_empty r.reasons
      then PolicyFamilyVerdict.eligible_for_risk_review
      else PolicyFamilyVerdict.blocked)
    && ((is_sorted reason_indexes && no_duplicates reason_indexes)
        && ((if member PolicyBlockReason.disallowed_evidence_quality r.reasons
              then negb (is_empty r.quality_violations)
              else is_empty r.quality_violations)
            && (is_sorted violation_indexes && no_duplicates violation_indexes)))

abbrev pub same_violations :
    List PolicyEvidenceQualityViolation → List PolicyEvidenceQualityViolation → Bool
same_violations [] [] = true
same_violations (v ∷ vs) (w ∷ ws) =
    (v.judge_evidence_ref_index == w.judge_evidence_ref_index
      && v.resolved_quality is w.resolved_quality)
    && same_violations vs ws
same_violations _ _ = false

abbrev pub is_blocked_by : PolicyFamilyResult → PolicyBlockReason → Bool
is_blocked_by r reason = r.verdict is PolicyFamilyVerdict.blocked && same r.reasons (reason ∷ [])

abbrev pub matches_violations :
    Option (List PolicyEvidenceQualityViolation) → PolicyFamilyResult → Bool
matches_violations none r = false
matches_violations (some []) r = is_eligible r
matches_violations (some (v ∷ vs)) r =
    is_blocked_by r PolicyBlockReason.disallowed_evidence_quality
    && same_violations r.quality_violations (v ∷ vs)

-- `_validate_family_verdicts_match_judge_outcome` for one family. The violations are compared as the
-- dictionaries that the validator builds, whose keys are ascending in both.
abbrev pub matches_outcome :
    MarketEvaluationResult → JudgeOutcome → List JudgeEvidenceRef → PolicyFamilyResult → Bool
matches_outcome m JudgeOutcome.mixed refs r = is_blocked_by r PolicyBlockReason.judge_outcome_mixed
matches_outcome m JudgeOutcome.insufficient_evidence refs r =
    is_blocked_by r PolicyBlockReason.judge_outcome_insufficient_evidence
matches_outcome m JudgeOutcome.directional refs r = matches_violations (violations_from m 0 refs) r

-- `zip(..., strict=True)`
unfoldable pub all_match :
    MarketEvaluationResult → List JudgeFamilyResult → List PolicyFamilyResult → Bool
all_match m [] [] = true
all_match m (j ∷ js) (r ∷ rs) = matches_outcome m j.outcome j.evidence_refs r && all_match m js rs
all_match m _ _ = false

abbrev pub market_of : StrategyJudgeResult → MarketEvaluationResult
market_of j = j.strategy_router_result.market_evaluation

-- The validators of `StrategyPolicyResult`, and those of its family results.
unfoldable pub is_valid : StrategyPolicyResult → Bool
is_valid r =
    let judged = r.strategy_judge_result in
    all_of is_valid_family r.family_results
    && (same (map (λ f. f.family) r.family_results) (map (λ f. f.family) judged.family_results)
        && (r.outcome is outcome_of r.family_results
            && all_match (market_of judged) judged.family_results r.family_results))

abbrev pub checked : StrategyPolicyResult → Option StrategyPolicyResult
checked r = if is_valid r then some r else none

-- `PolicyGate.apply`
unfoldable pub apply : StrategyJudgeResult → Option StrategyPolicyResult
apply j = do
  results ← evaluate_families (market_of j) j.family_results
  checked
      (record { strategy_judge_result = j; outcome = outcome_of results; family_results = results })
