-- ===== src/Market/Validity.antt =====
-- The market evaluation always passes the validators of its result, so `evaluate` raises only by its
-- own checks.
use Prim.Native.String.{String}
use native.Mathlib.Nat.{add-zero, zero-add, suc-add, add-suc}
use ai_trading_advisor.Prelude.{
  ℕ, suc, ◌+◌, ◌≡◌, refl, Bool, true, false, Option, none, some, List, [], ◌∷◌, get_elem?, all_of,
  arith, Option-cases, &&-intro, inl, inr, is_refl, if◌then◌else◌, ◌≢◌,
}
use ai_trading_advisor.Market.Enums.{
  ExternalScopeMatchKind, ExternalIntelligenceAnalystType, external_analyst_enum,
  contour_status_enum, FeatureQuality, SupervisorOutcome, quality_enum, market_outcome_enum,
  alignment_enum,
}
use ai_trading_advisor.Market.Evidence.{
  TechnicalSupervisorResult, FlowSupervisorResult, ExternalIntelligenceSupervisorResult,
  ExternalIntelligenceScopeSummary,
}
use ai_trading_advisor.Market.Result.{
  MarketEvaluationContext, ExternalScopeAlignmentRef, MarketEvaluationResult, matches_by, agrees,
  same_quality, has_expected_alignment, are_valid_refs, contour_status, flow_outcome,
  flow_quality_of, technical_outcome, technical_quality_of, external_outcome, external_quality_of,
  is_valid_ref, is_valid_flow_contour, is_valid_technical_contour, is_valid_external_contour,
  is_valid_outcome, is_valid_overall_quality, is_valid_alignment_status, is_valid_alignment,
  is_valid,
}
use ai_trading_advisor.Market.Evaluator.{
  EvaluationError, Evaluated, match_scope, match_by, align_from, align_external_scopes,
  alignment_status, check_flow, check_technical, check_external, run_checks, assemble, evaluate,
}

-- A test that guards a result holds where the result is there.
guarded : {A : Type 0} (b : Bool) (a : A) {c : A} → (if b then some a else none) ≡ some c → b ≡ true
guarded true a h = refl
guarded false a h = cc

guarded_value :
    {A : Type 0} (b : Bool) (a : A) {c : A} → (if b then some a else none) ≡ some c → a ≡ c
guarded_value true a h = cc
guarded_value false a h = cc

match_by-matches_by :
    (type : ExternalIntelligenceAnalystType) (context : MarketEvaluationContext)
    (scope : ExternalIntelligenceScopeSummary) {kind : ExternalScopeMatchKind}
    → match_by type context scope ≡ some kind
    → matches_by type kind context scope ≡ true
unfolding match_by
match_by-matches_by ExternalIntelligenceAnalystType.news_sentiment context scope h =
    rw (← guarded_value _ _ h) (guarded _ _ h)
match_by-matches_by ExternalIntelligenceAnalystType.on_chain context scope h =
    rw (← guarded_value _ _ h) (guarded _ _ h)
match_by-matches_by ExternalIntelligenceAnalystType.macro_event context scope h =
    rw (← guarded_value _ _ h) (guarded _ _ h)
match_by-matches_by ExternalIntelligenceAnalystType.rates_yield context scope h =
    rw (← guarded_value _ _ h) (guarded _ _ h)

-- Every reference that the alignment loop makes is valid, where `all` holds `scopes` from `i` on.
align_from-valid :
    (context : MarketEvaluationContext) (all scopes : List ExternalIntelligenceScopeSummary) (i : ℕ)
    → ((k : ℕ) → get_elem? all (i + k) ≡ get_elem? scopes k)
    → all_of (is_valid_ref context all) (align_from context i scopes) ≡ true
unfolding align_from match_scope
align_from-valid context all [] i at = refl
align_from-valid context all (scope ∷ scopes) i at =
    let rest =
      align_from-valid context all scopes (suc i) (λ k. rw (suc-add, ← add-suc) (at (suc k))) in
    let here : get_elem? all i ≡ some scope = rw add-zero at (at 0) in
    elim (Option-cases (match_by scope.analyst_type context scope)) [
      | inl nothing ↦ rw nothing rest
      | inr (kind, e) ↦ rw (e, here, match_by-matches_by scope.analyst_type context scope e) rest
    ]

align_external_scopes-valid :
    (context : MarketEvaluationContext) (x : ExternalIntelligenceSupervisorResult)
    → all_of (is_valid_ref context x.scope_summaries) (align_external_scopes (some x) context)
      ≡ true
unfolding align_external_scopes
align_external_scopes-valid context x =
    align_from-valid context x.scope_summaries x.scope_summaries 0 (λ k. rw zero-add)

same_quality_refl : (q : Option FeatureQuality) → same_quality q q ≡ true
same_quality_refl none = refl
same_quality_refl (some q) = is_refl q

agrees_refl :
    (o : Option SupervisorOutcome) (q : Option FeatureQuality)
    → agrees o q (contour_status o) q ≡ true
agrees_refl o q = &&-intro _ _ (is_refl (contour_status o)) (same_quality_refl q)

alignment_status-some :
    (x : ExternalIntelligenceSupervisorResult) (refs : List ExternalScopeAlignmentRef)
    → has_expected_alignment (alignment_status (some x) refs) (some x) refs ≡ true
unfolding alignment_status
alignment_status-some x [] = refl
alignment_status-some x (ref ∷ refs) = refl

alignment_status_lem :
    (x : Option ExternalIntelligenceSupervisorResult) (context : MarketEvaluationContext)
    → has_expected_alignment
        (alignment_status x (align_external_scopes x context))
        x
        (align_external_scopes x context)
      ≡ true
unfolding alignment_status align_external_scopes
alignment_status_lem none context = refl
alignment_status_lem (some x) context =
    alignment_status-some x (align_from context 0 x.scope_summaries)

are_valid_refs_lem :
    (context : MarketEvaluationContext) (x : Option ExternalIntelligenceSupervisorResult)
    → are_valid_refs context x (align_external_scopes x context) ≡ true
are_valid_refs_lem context none = refl
are_valid_refs_lem context (some x) = align_external_scopes-valid context x

-- Whatever the supervisors report, the result that the evaluator assembles passes every validator of
-- `MarketEvaluationResult`.
pub assemble-is_valid :
    (flow : Option FlowSupervisorResult) (technical : Option TechnicalSupervisorResult)
    (external : Option ExternalIntelligenceSupervisorResult) (context : MarketEvaluationContext)
    (time : ℕ)
    → is_valid (assemble flow technical external context time) ≡ true
unfolding is_valid is_valid_flow_contour is_valid_technical_contour is_valid_external_contour
    is_valid_outcome is_valid_overall_quality is_valid_alignment_status is_valid_alignment assemble
assemble-is_valid flow technical external context time =
    let result = assemble flow technical external context time in
    &&-intro _ _ (agrees_refl (flow_outcome flow) (flow_quality_of flow)) (
      &&-intro _ _ (agrees_refl (technical_outcome technical) (technical_quality_of technical)) (
        &&-intro _ _ (agrees_refl (external_outcome external) (external_quality_of external)) (
          &&-intro _ _ (is_refl (result.outcome)) (
            &&-intro _ _ (is_refl (result.overall_quality)) (
              &&-intro _ _ (alignment_status_lem external context)
                (are_valid_refs_lem context external))))))

check_flow-ne :
    (flow : Option FlowSupervisorResult) (context : MarketEvaluationContext) (time : ℕ)
    → check_flow flow context time ≢ some EvaluationError.invalid_result
unfolding check_flow
check_flow-ne none context time = λ h. cc
check_flow-ne (some f) context time = ground arith

check_technical-ne :
    (technical : Option TechnicalSupervisorResult) (context : MarketEvaluationContext) (time : ℕ)
    (expected : String)
    → check_technical technical context time expected ≢ some EvaluationError.invalid_result
unfolding check_technical
check_technical-ne none context time expected = λ h. cc
check_technical-ne (some t) context time expected = ground arith

check_external-ne :
    (external : Option ExternalIntelligenceSupervisorResult) (time : ℕ)
    → check_external external time ≢ some EvaluationError.invalid_result
unfolding check_external
check_external-ne none time = λ h. cc
check_external-ne (some x) time = ground arith

run_checks-ne :
    (a b c : Option EvaluationError) (r : MarketEvaluationResult)
    → a ≢ some EvaluationError.invalid_result
    → b ≢ some EvaluationError.invalid_result
    → c ≢ some EvaluationError.invalid_result
    → is_valid r ≡ true
    → run_checks a b c r ≢ Evaluated.err EvaluationError.invalid_result
run_checks-ne (some e) b c r ha hb hc v = λ h. ha (cc h)
run_checks-ne none (some e) c r ha hb hc v = λ h. hb (cc h)
run_checks-ne none none (some e) r ha hb hc v = λ h. hc (cc h)
run_checks-ne none none none r ha hb hc v = λ h. ground (arith, h)

-- Whatever its inputs are, the evaluator never assembles a result that the validators of
-- `MarketEvaluationResult` refuse: each failure is one of its own two input errors.
pub evaluate-ne-invalid_result :
    (flow : Option FlowSupervisorResult) (technical : Option TechnicalSupervisorResult)
    (external : Option ExternalIntelligenceSupervisorResult) (context : MarketEvaluationContext)
    (time : ℕ) (expected : String)
    → evaluate flow technical external context time expected
      ≢ Evaluated.err EvaluationError.invalid_result
unfolding evaluate
evaluate-ne-invalid_result flow technical external context time expected =
    run_checks-ne (check_flow flow context time) (check_technical technical context time expected)
      (check_external external time) (assemble flow technical external context time)
      (check_flow-ne flow context time) (check_technical-ne technical context time expected)
      (check_external-ne external time) (assemble-is_valid flow technical external context time)

-- When the checks on the three contours pass, the evaluator returns the assembled result.
pub evaluate-ok :
    (flow : Option FlowSupervisorResult) (technical : Option TechnicalSupervisorResult)
    (external : Option ExternalIntelligenceSupervisorResult) (context : MarketEvaluationContext)
    (time : ℕ) (expected : String)
    → check_flow flow context time ≡ none
    → check_technical technical context time expected ≡ none
    → check_external external time ≡ none
    → evaluate flow technical external context time expected
      ≡ Evaluated.ok (assemble flow technical external context time)
unfolding evaluate
evaluate-ok flow technical external context time expected hf ht hx =
    rw (hf, ht, hx, assemble-is_valid flow technical external context time)
