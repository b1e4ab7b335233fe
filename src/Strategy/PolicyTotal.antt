-- ===== src/Strategy/PolicyTotal.antt =====
-- The policy gate never fails on references in bounds: no exception, and no validator refuses its
-- result.
use ai_trading_advisor.Prelude.{
  ℕ, zero, suc, ◌≤◌, ◌<◌, ◌≡◌, refl, true, false, ◌&&◌, Option, none, some, List, [], ◌∷◌, arith,
  all_of, Bool-cases, inl, inr, &&-intro, &&-left, &&-right, ◌>>=◌, length, get_elem?, same,
  is_refl, map, is_sorted, no_duplicates, contains, ltb, ==_refl,
}
use ai_trading_advisor.Market.Enums.{FeatureQuality, quality_enum}
use ai_trading_advisor.Market.Evidence.{
  TechnicalSupervisorResult, FlowSupervisorResult, ExternalIntelligenceSupervisorResult,
}
use ai_trading_advisor.Market.Result.{MarketEvaluationResult}
use ai_trading_advisor.Strategy.Enums.{
  StrategyFamily, JudgeContour, JudgeOutcome, PolicyBlockReason, family_enum, policy_outcome_enum,
  policy_verdict_enum,
}
use ai_trading_advisor.Strategy.Evidence.{
  JudgeEvidenceRef, JudgeFamilyResult, StrategyJudgeResult, in_bounds, below, observation_count,
  technical_count, flow_count, external_count, count_at,
}
use ai_trading_advisor.Strategy.Policy.{
  PolicyEvidenceQualityViolation, PolicyFamilyResult, StrategyPolicyResult, is_allowed,
  resolve_observation_quality, quality_at, technical_quality_at, flow_quality_at,
  external_quality_at, violation, violations_from, by_violations, blocked, evaluate_outcome,
  evaluate_family, evaluate_families, outcome_of, is_valid_family, same_violations,
  matches_violations, matches_outcome, all_match, market_of, is_valid, apply,
}

get_elem?-below :
    {A : Type 0} (xs : List A) (j : ℕ)
    → ltb j (length xs) ≡ true
    → (x : A) × (get_elem? xs j ≡ some x)
get_elem?-below [] j h = absurd (ground (arith, h))
get_elem?-below (x ∷ xs) zero h = (x, refl)
get_elem?-below (x ∷ xs) (suc j) h = get_elem?-below xs j (ground arith)

-- Reading the quality of observation `j` of an optional result with at least `j + 1` observations.
quality_below :
    {A B : Type 0} (os : A → List B) (quality : B → FeatureQuality) (o : Option A) (j : ℕ)
    → below j (count_at (λ a. length (os a)) o) ≡ true
    → (q : FeatureQuality) × ((o >>= λ a. get_elem? (os a) j >>= λ b. some (quality b)) ≡ some q)
quality_below os quality none j h = cc
quality_below os quality (some a) j h = let (b, e) = get_elem?-below (os a) j h in (quality b, rw e)

technical_resolves :
    (o : Option TechnicalSupervisorResult) (i j : ℕ)
    → below j (technical_count o i) ≡ true
    → (q : FeatureQuality) × (technical_quality_at o i j ≡ some q)
technical_resolves none i j h = cc
technical_resolves (some t) i j h =
    quality_below (λ r. r.observations) (λ o. o.quality) (get_elem? t.analyst_results i) j h

flow_resolves :
    (o : Option FlowSupervisorResult) (i j : ℕ)
    → below j (flow_count o i) ≡ true
    → (q : FeatureQuality) × (flow_quality_at o i j ≡ some q)
flow_resolves none i j h = cc
flow_resolves (some f) i j h =
    quality_below (λ r. r.observations) (λ o. o.quality) (get_elem? f.analyst_results i) j h

external_resolves :
    (o : Option ExternalIntelligenceSupervisorResult) (i j : ℕ)
    → below j (external_count o i) ≡ true
    → (q : FeatureQuality) × (external_quality_at o i j ≡ some q)
external_resolves none i j h = cc
external_resolves (some x) i j h =
    quality_below (λ r. r.observations) (λ o. o.quality) (get_elem? x.analysis_results i) j h

resolves_by :
    (m : MarketEvaluationResult) (c : JudgeContour) (i j : ℕ)
    → below j (observation_count m c i) ≡ true
    → (q : FeatureQuality) × (quality_at m c i j ≡ some q)
resolves_by m JudgeContour.technical i j h = technical_resolves m.technical i j h
resolves_by m JudgeContour.flow i j h = flow_resolves m.flow i j h
resolves_by m JudgeContour.external i j h = external_resolves m.external i j h

-- A reference that the judge's validator accepts resolves to an observation.
pub in_bounds-resolves :
    (m : MarketEvaluationResult) (ref : JudgeEvidenceRef)
    → in_bounds m ref ≡ true
    → (q : FeatureQuality) × (resolve_observation_quality m ref ≡ some q)
unfolding in_bounds resolve_observation_quality
in_bounds-resolves m ref h =
    resolves_by m ref.contour ref.analyst_result_index ref.observation_index h

-- The indexes of the violations ascend from `i`.
abbrev Ascending : ℕ → List PolicyEvidenceQualityViolation → Type 0
Ascending i [] = Unit
Ascending i (v ∷ vs) =
    (i ≤ v.judge_evidence_ref_index) × Ascending (suc v.judge_evidence_ref_index) vs

abbrev indexes : List PolicyEvidenceQualityViolation → List ℕ
indexes vs = map (λ v. v.judge_evidence_ref_index) vs

Ascending-weaken :
    (i : ℕ) (vs : List PolicyEvidenceQualityViolation) → Ascending (suc i) vs → Ascending i vs
Ascending-weaken i [] h = tt
Ascending-weaken i (v ∷ vs) h = (omega arith, h.1)

Ascending-contains :
    (k i : ℕ) (vs : List PolicyEvidenceQualityViolation)
    → k < i
    → Ascending i vs
    → contains k (indexes vs) ≡ false
Ascending-contains k i [] lt h = refl
Ascending-contains k i (v ∷ vs) lt h =
    ground (arith, Ascending-contains k (suc v.judge_evidence_ref_index) vs (omega arith) h.1)

Ascending-canonical :
    (i : ℕ) (vs : List PolicyEvidenceQualityViolation)
    → Ascending i vs
    → (is_sorted (indexes vs) && no_duplicates (indexes vs)) ≡ true
Ascending-canonical i [] h = refl
Ascending-canonical i (v ∷ []) h = refl
Ascending-canonical i (v ∷ w ∷ vs) h = ground (
  arith,
  Ascending-canonical (suc v.judge_evidence_ref_index) (w ∷ vs) h.1,
  Ascending-contains v.judge_evidence_ref_index (suc v.judge_evidence_ref_index) (w ∷ vs),
)

-- References in bounds have their violations, in ascending order.
violations_from-total :
    (m : MarketEvaluationResult) (i : ℕ) (refs : List JudgeEvidenceRef)
    → all_of (in_bounds m) refs ≡ true
    → (vs : List PolicyEvidenceQualityViolation) × (violations_from m i refs ≡ some vs)
      × Ascending i vs
unfolding violations_from
violations_from-total m i [] h = ([], refl, tt)
violations_from-total m i (ref ∷ refs) h =
    let (q, resolved) = in_bounds-resolves m ref (&&-left (in_bounds m ref) _ h) in
    let (vs, e, up) = violations_from-total m (suc i) refs (&&-right (in_bounds m ref) _ h) in
    elim (Bool-cases (is_allowed q)) [
      | inl ok ↦ (vs, rw (resolved, e, ok), Ascending-weaken i vs up)
      | inr bad ↦ (violation i q ∷ vs, rw (resolved, e, bad), (omega arith, up))
    ]

same_violations_refl : (vs : List PolicyEvidenceQualityViolation) → same_violations vs vs ≡ true
same_violations_refl [] = refl
same_violations_refl (v ∷ vs) =
    &&-intro _ _ (&&-intro _ _ (==_refl v.judge_evidence_ref_index) (is_refl v.resolved_quality))
      (same_violations_refl vs)

by_violations-is_valid :
    (family : StrategyFamily) (vs : List PolicyEvidenceQualityViolation)
    → Ascending 0 vs
    → is_valid_family (by_violations family vs) ≡ true
unfolding is_valid_family
by_violations-is_valid family [] up = refl
by_violations-is_valid family (v ∷ vs) up = Ascending-canonical 0 (v ∷ vs) up

by_violations-matches :
    (family : StrategyFamily) (vs : List PolicyEvidenceQualityViolation)
    → matches_violations (some vs) (by_violations family vs) ≡ true
by_violations-matches family [] = refl
by_violations-matches family (v ∷ vs) = same_violations_refl (v ∷ vs)

by_violations-family :
    (family : StrategyFamily) (vs : List PolicyEvidenceQualityViolation)
    → (by_violations family vs).family ≡ family
by_violations-family family [] = refl
by_violations-family family (v ∷ vs) = refl

-- A result for the family that passes its own validators and the comparison with the judge's.
abbrev Settled : MarketEvaluationResult → JudgeFamilyResult → PolicyFamilyResult → Type 0
Settled m r p =
    (p.family ≡ r.family)
    × (is_valid_family p ≡ true)
    × (matches_outcome m r.outcome r.evidence_refs p ≡ true)

outcome_total :
    (m : MarketEvaluationResult) (family : StrategyFamily) (o : JudgeOutcome)
    (refs : List JudgeEvidenceRef)
    → all_of (in_bounds m) refs ≡ true
    → (p : PolicyFamilyResult) × (evaluate_outcome m family o refs ≡ some p)
      × (p.family ≡ family)
      × (is_valid_family p ≡ true)
      × (matches_outcome m o refs p ≡ true)
unfolding evaluate_outcome
outcome_total m family JudgeOutcome.mixed refs h = (
  blocked family PolicyBlockReason.judge_outcome_mixed,
  refl,
  refl,
  unfold is_valid_family in refl,
  refl,
)
outcome_total m family JudgeOutcome.insufficient_evidence refs h = (
  blocked family PolicyBlockReason.judge_outcome_insufficient_evidence,
  refl,
  refl,
  unfold is_valid_family in refl,
  refl,
)
outcome_total m family JudgeOutcome.directional refs h =
    let (vs, e, up) = violations_from-total m 0 refs h in
    (
      by_violations family vs,
      rw e,
      by_violations-family family vs,
      by_violations-is_valid family vs up,
      rw e (by_violations-matches family vs),
    )

families_total :
    (m : MarketEvaluationResult) (js : List JudgeFamilyResult)
    → all_of (λ j. all_of (in_bounds m) j.evidence_refs) js ≡ true
    → (ps : List PolicyFamilyResult) × (evaluate_families m js ≡ some ps)
      × (all_of is_valid_family ps ≡ true)
      × (same (map (λ p. p.family) ps) (map (λ j. j.family) js) ≡ true)
      × (all_match m js ps ≡ true)
unfolding evaluate_families evaluate_family all_match
families_total m [] h = ([], refl, refl, refl, refl)
families_total m (j ∷ js) h =
    let here = all_of (in_bounds m) j.evidence_refs in
    let (p, e, same_family, valid, matched) =
      outcome_total m j.family j.outcome j.evidence_refs (&&-left here _ h) in
    let (ps, es, valids, families, matches) = families_total m js (&&-right here _ h) in
    (
      p ∷ ps,
      rw (e, es),
      &&-intro _ _ valid valids,
      rw same_family (&&-intro _ _ (is_refl j.family) families),
      &&-intro _ _ matched matches,
    )

-- On a judge result whose evidence references are all in bounds, the policy gate returns a result,
-- and the result passes its validators.
pub apply-total :
    (j : StrategyJudgeResult)
    → all_of (λ r. all_of (in_bounds (market_of j)) r.evidence_refs) j.family_results ≡ true
    → (p : StrategyPolicyResult) × (apply j ≡ some p) × (is_valid p ≡ true)
unfolding apply is_valid
apply-total j h =
    let (ps, e, valid, families, matched) = families_total (market_of j) j.family_results h in
    let p : StrategyPolicyResult = record {
      strategy_judge_result = j;
      outcome = outcome_of ps;
      family_results = ps;
    } in
    let ok : is_valid p ≡ true =
      &&-intro _ _ valid (&&-intro _ _ families (&&-intro _ _ (is_refl (outcome_of ps)) matched)) in
    (p, rw (e, ok), ok)
