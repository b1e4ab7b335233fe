-- ===== src/Strategy/FamilyVerdicts.antt =====
-- The remaining families' verdicts have the same shape, and so has every verdict of the judge.
use Prim.Native.String.{String}
use text.Mathlib.Text.{◌==◌ as str_eq}
use text.Mathlib.TextPositions.{eq_refl}
use ai_trading_advisor.Prelude.{
  ℕ, suc, ◌≡◌, refl, Bool, true, ◌&&◌, Option, none, some, List, [], ◌∷◌, ◌++◌, arith, any_of,
  all_of, if◌then◌else◌, Bool-cases, Option-cases, inl, inr, &&-intro, &&-left, &&-right, every,
  every-bind, every-if, ◌is◌, get_elem?,
}
use ai_trading_advisor.Market.EvidenceEnums.{
  TechnicalAnalystType, TechnicalAnalysisDimension, technical_analyst_enum,
  technical_dimension_enum,
}
use ai_trading_advisor.Market.Evidence.{
  TechnicalAnalysisObservation, TechnicalAnalysisResult, TechnicalSupervisorResult,
  ExternalIntelligenceAnalysisObservation, ExternalIntelligenceSupervisorResult,
}
use ai_trading_advisor.Market.Result.{ExternalScopeAlignmentRef, MarketEvaluationResult}
use ai_trading_advisor.Strategy.Enums.{StrategyFamily, EvidenceRole, DirectionalCandidate}
use ai_trading_advisor.Strategy.Evidence.{JudgeEvidenceRef}
use ai_trading_advisor.Strategy.Readings.{
  Resolved, mixed, direction_of, sentiment_map, resolve_single_dimension, trend_direction_map,
}
use ai_trading_advisor.Strategy.TechnicalFamilies.{
  candidates_of, refs_of, disagree, opposes, confirmed_in, confirmed_from,
  structural_break_confirmed_refs, break_verdict, judge_break, judge_breakout, judge_mean_reversion,
}
use ai_trading_advisor.Strategy.EventDriven.{
  is_sign, sign_refs, decided, first_sign, resolve_agreement, resolve_news_sentiment_result,
  resolve_all, first_conflict, agreed_verdict, verdict_on, judge_indices, judge_external,
  judge_event_driven, agreement_value, aligned_indices,
}
use ai_trading_advisor.Strategy.Judge.{judge_family}
use ai_trading_advisor.Strategy.Verdicts.{
  is_primary, is_sound, mixed-is_sound, directional-is_sound, insufficient-is_sound, is_backed,
  refs_of-primary, judge_trend_following-is_sound,
}

all_of-append :
    {A : Type 0} (p : A → Bool) (xs ys : List A)
    → all_of p xs ≡ true
    → all_of p ys ≡ true
    → all_of p (xs ++ ys) ≡ true
all_of-append p [] ys h k = k
all_of-append p (x ∷ xs) ys h k =
    &&-intro (p x) _ (&&-left (p x) _ h) (all_of-append p xs ys (&&-right (p x) _ h) k)

confirmed_in-primary :
    (i j : ℕ) (os : List TechnicalAnalysisObservation)
    → all_of is_primary (confirmed_in i j os) ≡ true
unfolding confirmed_in
confirmed_in-primary i j [] = refl
confirmed_in-primary i j (o ∷ os) = ground (arith, confirmed_in-primary i (suc j) os)

confirmed_from-primary :
    (i : ℕ) (results : List TechnicalAnalysisResult)
    → all_of is_primary (confirmed_from i results) ≡ true
unfolding confirmed_from
confirmed_from-primary i [] = refl
confirmed_from-primary i (r ∷ results) =
    all_of-append is_primary
      (if r.analyst_type is TechnicalAnalystType.market_structure
        then confirmed_in i 0 r.observations
        else [])
      (confirmed_from (suc i) results) (ground (arith, confirmed_in-primary i 0 r.observations))
      (confirmed_from-primary (suc i) results)

break_verdict-is_sound :
    (d : DirectionalCandidate) (refs : List JudgeEvidenceRef) (r : Resolved)
    → any_of is_primary refs ≡ true
    → is_sound (break_verdict d refs r) ≡ true
break_verdict-is_sound d refs r h = elim (Bool-cases (opposes d r.candidate)) [
  | inl against ↦ rw against (mixed-is_sound (refs ++ r.refs))
  | inr silent ↦ rw silent (directional-is_sound d refs h)
]

judge_break-is_sound :
    (technical : TechnicalSupervisorResult) (confirmed : List JudgeEvidenceRef)
    (candidate : Option DirectionalCandidate) (latest : List JudgeEvidenceRef)
    → all_of is_primary confirmed ≡ true
    → every is_sound (judge_break technical confirmed candidate latest) ≡ true
unfolding judge_break
judge_break-is_sound technical [] candidate latest h = insufficient-is_sound
judge_break-is_sound technical (c ∷ cs) none latest h = insufficient-is_sound
judge_break-is_sound technical (c ∷ cs) (some d) latest h =
    every-bind is_sound
      (resolve_single_dimension technical TechnicalAnalysisDimension.return_direction
        trend_direction_map EvidenceRole.corroborating)
      (λ r. some (break_verdict d ((c ∷ cs) ++ latest) r))
      (λ r _.
        break_verdict-is_sound d ((c ∷ cs) ++ latest) r
          (ground (arith, &&-left (is_primary c) (all_of is_primary cs) h)))

judge_breakout-is_sound :
    (o : Option TechnicalSupervisorResult) → every is_sound (judge_breakout o) ≡ true
unfolding judge_breakout structural_break_confirmed_refs
judge_breakout-is_sound none = insufficient-is_sound
judge_breakout-is_sound (some technical) = every-bind is_sound _ _ λ (r : Resolved) _.
    every-if is_sound r.conflict (some (mixed r.refs)) _ (mixed-is_sound r.refs) (
      judge_break-is_sound technical (confirmed_from 0 technical.analyst_results) r.candidate r.refs
        (confirmed_from-primary 0 technical.analyst_results))

-- An observation that passes the test is among the references.
sign_refs-primary :
    (test : String → Bool) (i j : ℕ) (os : List ExternalIntelligenceAnalysisObservation)
    → any_of (λ o. is_sign o && test o.value) os ≡ true
    → any_of is_primary (sign_refs test i j os) ≡ true
unfolding sign_refs
sign_refs-primary test i j [] h = cc
sign_refs-primary test i j (o ∷ os) h = ground (arith, sign_refs-primary test i (suc j) os)

deciding_refs-primary :
    (i : ℕ) (all : List ExternalIntelligenceAnalysisObservation) (value : String)
    → any_of (λ o. is_sign o && str_eq o.value value) all ≡ true
    → (d : Option DirectionalCandidate) (rest : Resolved) → is_backed rest ≡ true
    → is_backed (decided i all value d rest) ≡ true
deciding_refs-primary i all value h none rest k = k
deciding_refs-primary i all value h (some c) rest k =
    sign_refs-primary (λ v. str_eq v value) i 0 all h

any_of-cons :
    (p : ExternalIntelligenceAnalysisObservation → Bool)
    (o : ExternalIntelligenceAnalysisObservation)
    (os : List ExternalIntelligenceAnalysisObservation)
    → any_of p os ≡ true
    → any_of p (o ∷ os) ≡ true
any_of-cons p o os h = ground arith

-- `within`: what the observations still to be read hold, all of them hold.
first_sign-backed :
    (i : ℕ) (all os : List ExternalIntelligenceAnalysisObservation)
    → ((p : ExternalIntelligenceAnalysisObservation → Bool)
        → any_of p os ≡ true
        → any_of p all ≡ true)
    → is_backed (first_sign i all os) ≡ true
unfolding first_sign
first_sign-backed i all [] within = refl
first_sign-backed i all (o ∷ os) within =
    let later = first_sign-backed i all os (λ p h. within p (any_of-cons p o os h)) in
    elim (Bool-cases (is_sign o)) [
      | inl signed ↦ rw signed (
          deciding_refs-primary i all o.value
            (within (λ x. is_sign x && str_eq x.value o.value) (rw (signed, eq_refl o.value)))
            (direction_of sentiment_map o.value) (first_sign i all os) later)
      | inr other ↦ rw other later
    ]

resolve_agreement-backed :
    (i : ℕ) (os : List ExternalIntelligenceAnalysisObservation) (value : Option String)
    → is_backed (resolve_agreement i os value) ≡ true
unfolding resolve_agreement
resolve_agreement-backed i os none = refl
resolve_agreement-backed i os (some value) = ground (arith, first_sign-backed i os os (λ p h. h))

resolve_all-backed :
    (external : ExternalIntelligenceSupervisorResult) (indices : List ℕ)
    → every (all_of is_backed) (resolve_all external indices) ≡ true
unfolding resolve_all resolve_news_sentiment_result
resolve_all-backed external [] = refl
resolve_all-backed external (i ∷ more) =
    elim (Option-cases (get_elem? external.analysis_results i)) [
      | inl absent ↦ rw absent
      | inr (result, present) ↦ rw present (
          every-bind (all_of is_backed) (resolve_all external more) _ λ rs e.
            &&-intro _ _
              (resolve_agreement-backed i result.observations (agreement_value result.observations))
              (rw e at (resolve_all-backed external more)))
    ]

agreed_verdict-is_sound :
    (rs : List Resolved) (cs : List DirectionalCandidate)
    → all_of is_backed rs ≡ true
    → candidates_of rs ≡ cs
    → is_sound (agreed_verdict cs (refs_of rs)) ≡ true
agreed_verdict-is_sound rs [] h e = insufficient-is_sound
agreed_verdict-is_sound rs (c ∷ cs) h e = elim (Bool-cases (disagree (c ∷ cs))) [
  | inl split ↦ rw split (mixed-is_sound (refs_of rs))
  | inr agreed ↦ rw agreed (directional-is_sound c (refs_of rs) (refs_of-primary rs h e))
]

verdict_on-is_sound :
    (conflict : Option (List JudgeEvidenceRef)) (rs : List Resolved)
    → all_of is_backed rs ≡ true
    → is_sound (verdict_on conflict rs) ≡ true
verdict_on-is_sound none rs h = agreed_verdict-is_sound rs (candidates_of rs) h refl
verdict_on-is_sound (some refs) rs h = mixed-is_sound refs

judge_indices-is_sound :
    (external : ExternalIntelligenceSupervisorResult) (indices : List ℕ)
    → every is_sound (judge_indices external indices) ≡ true
judge_indices-is_sound external [] = insufficient-is_sound
judge_indices-is_sound external (i ∷ more) =
    every-bind is_sound (resolve_all external (i ∷ more))
      (λ rs. some (verdict_on (first_conflict rs) rs))
      (λ rs e.
        verdict_on-is_sound (first_conflict rs) rs
          (rw e at (resolve_all-backed external (i ∷ more))))

judge_external-is_sound :
    (external : Option ExternalIntelligenceSupervisorResult) (refs : List ExternalScopeAlignmentRef)
    → every is_sound (judge_external external refs) ≡ true
judge_external-is_sound none refs = insufficient-is_sound
judge_external-is_sound (some external) refs =
    every-bind is_sound (aligned_indices external refs) (judge_indices external)
      (λ indices _. judge_indices-is_sound external indices)

-- Whenever the judge reaches a verdict on a family, the verdict is sound: a direction is present
-- exactly when the outcome is `DIRECTIONAL`, a directional verdict cites a primary reference, an
-- `INSUFFICIENT_EVIDENCE` verdict cites nothing, and the references are in canonical order without
-- duplicates.
pub judge_family-is_sound :
    (m : MarketEvaluationResult) (family : StrategyFamily)
    → every is_sound (judge_family m family) ≡ true
unfolding judge_family judge_event_driven judge_mean_reversion
judge_family-is_sound m StrategyFamily.trend_following = judge_trend_following-is_sound m.technical
judge_family-is_sound m StrategyFamily.mean_reversion = insufficient-is_sound
judge_family-is_sound m StrategyFamily.breakout = judge_breakout-is_sound m.technical
judge_family-is_sound m StrategyFamily.event_driven =
    judge_external-is_sound m.external m.external_scope_alignment
