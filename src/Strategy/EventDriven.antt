-- ===== src/Strategy/EventDriven.antt =====
-- app/judge/judge.py: the verdict on the event-driven family, which reads the aligned news sentiment.
-- A reading that Python would refuse with an `IndexError` is `none`.
use Prim.Native.String.{String}
use text.Mathlib.Text.{◌==◌ as str_eq}
use ai_trading_advisor.Prelude.{
  ℕ, suc, Bool, true, false, ◌&&◌, ◌||◌, Option, none, some, List, [], ◌∷◌, get_elem?,
  if◌then◌else◌, ◌is◌, ltb, ◌==◌, ◌>>=◌,
}
use ai_trading_advisor.Market.Enums.{
  ExternalScopeMatchKind, ExternalIntelligenceAnalystType, match_kind_enum, external_analyst_enum,
}
use ai_trading_advisor.Market.EvidenceEnums.{ExternalIntelligenceDimension, external_dimension_enum}
use ai_trading_advisor.Market.Evidence.{
  ExternalIntelligenceAnalysisObservation, ExternalIntelligenceScopeSummary,
  ExternalIntelligenceSupervisorResult,
}
use ai_trading_advisor.Market.Result.{ExternalScopeAlignmentRef, MarketEvaluationResult}
use ai_trading_advisor.Strategy.Enums.{
  EvidenceRole, JudgeContour, DirectionalCandidate, candidate_enum,
}
use ai_trading_advisor.Strategy.Evidence.{JudgeEvidenceRef}
use ai_trading_advisor.Strategy.Readings.{
  Resolved, Verdict, unresolved, insufficient, mixed, directional, direction_of, sentiment_map,
}
use ai_trading_advisor.Strategy.TechnicalFamilies.{candidates_of, refs_of, disagree}

-- `sorted(indices | {i})` for a sorted list without duplicates.
unfoldable pub insert_index : ℕ → List ℕ → List ℕ
insert_index i [] = i ∷ []
insert_index i (j ∷ js) =
    let later = j ∷ insert_index i js in
    if ltb i j then i ∷ j ∷ js else if i == j then j ∷ js else later

abbrev pub news_index : ExternalIntelligenceScopeSummary → List ℕ → List ℕ
news_index scope indices =
    if scope.analyst_type is ExternalIntelligenceAnalystType.news_sentiment
    then insert_index scope.result_index indices
    else indices

unfoldable pub aligned_indices :
    ExternalIntelligenceSupervisorResult → List ExternalScopeAlignmentRef → Option (List ℕ)
aligned_indices external [] = some []
aligned_indices external (ref ∷ refs) =
    let matched = do
      scope ← get_elem? external.scope_summaries ref.scope_summary_index
      indices ← aligned_indices external refs
      some (news_index scope indices)
    in let skipped = aligned_indices external refs in
      if ref.matched_by is ExternalScopeMatchKind.symbol then matched else skipped

-- The value of the first observation of provider agreement.
unfoldable pub agreement_value : List ExternalIntelligenceAnalysisObservation → Option String
agreement_value [] = none
agreement_value (o ∷ os) =
    if o.dimension is ExternalIntelligenceDimension.sentiment_provider_agreement
    then some o.value
    else agreement_value os

abbrev pub is_sign : ExternalIntelligenceAnalysisObservation → Bool
is_sign o = o.dimension is ExternalIntelligenceDimension.per_provider_sentiment_sign

abbrev pub external_ref : ℕ → ℕ → JudgeEvidenceRef
external_ref i j = record {
  contour = JudgeContour.external;
  role = EvidenceRole.primary;
  analyst_result_index = i;
  observation_index = j;
}

-- References to the provider signs that pass a test on their value, from position `j`.
unfoldable pub sign_refs :
    (String → Bool) → ℕ → ℕ → List ExternalIntelligenceAnalysisObservation → List JudgeEvidenceRef
sign_refs test i j [] = []
sign_refs test i j (o ∷ os) =
    let rest = sign_refs test i (suc j) os in
    if is_sign o && test o.value then external_ref i j ∷ rest else rest

abbrev pub is_polar : String → Bool
is_polar value = str_eq value "POSITIVE" || str_eq value "NEGATIVE"

-- The first provider sign with a direction decides.
abbrev pub decided :
    ℕ
    → List ExternalIntelligenceAnalysisObservation
    → String
    → Option DirectionalCandidate
    → Resolved
    → Resolved
decided i all value none rest = rest
decided i all value (some c) rest = record {
  conflict = false;
  candidate = some c;
  refs = sign_refs (λ v. str_eq v value) i 0 all;
}

unfoldable pub first_sign :
    ℕ
    → List ExternalIntelligenceAnalysisObservation
    → List ExternalIntelligenceAnalysisObservation
    → Resolved
first_sign i all [] = unresolved
first_sign i all (o ∷ os) =
    let rest = first_sign i all os in
    if is_sign o then decided i all o.value (direction_of sentiment_map o.value) rest else rest

unfoldable pub resolve_agreement :
    ℕ → List ExternalIntelligenceAnalysisObservation → Option String → Resolved
resolve_agreement i os none = unresolved
resolve_agreement i os (some value) =
    if str_eq value "MIXED"
    then record { conflict = true; candidate = none; refs = sign_refs is_polar i 0 os }
    else if str_eq value "ALL_AGREE"
    then first_sign i os os
    else unresolved

unfoldable pub resolve_news_sentiment_result :
    ExternalIntelligenceSupervisorResult → ℕ → Option Resolved
resolve_news_sentiment_result external i = do
  result ← get_elem? external.analysis_results i
  some (resolve_agreement i result.observations (agreement_value result.observations))

unfoldable pub resolve_all : ExternalIntelligenceSupervisorResult → List ℕ → Option (List Resolved)
resolve_all external [] = some []
resolve_all external (i ∷ more) = do
  resolved ← resolve_news_sentiment_result external i
  rest ← resolve_all external more
  some (resolved ∷ rest)

-- The references of the first reading in conflict.
unfoldable pub first_conflict : List Resolved → Option (List JudgeEvidenceRef)
first_conflict [] = none
first_conflict (r ∷ rs) = if r.conflict then some r.refs else first_conflict rs

abbrev pub agreed_verdict : List DirectionalCandidate → List JudgeEvidenceRef → Verdict
agreed_verdict [] refs = insufficient
agreed_verdict (c ∷ cs) refs = if disagree (c ∷ cs) then mixed refs else directional c refs

abbrev pub verdict_on : Option (List JudgeEvidenceRef) → List Resolved → Verdict
verdict_on (some refs) readings = mixed refs
verdict_on none readings = agreed_verdict (candidates_of readings) (refs_of readings)

abbrev pub judge_indices : ExternalIntelligenceSupervisorResult → List ℕ → Option Verdict
judge_indices external [] = some insufficient
judge_indices external (i ∷ more) = do
  readings ← resolve_all external (i ∷ more)
  some (verdict_on (first_conflict readings) readings)

abbrev pub judge_external :
    Option ExternalIntelligenceSupervisorResult → List ExternalScopeAlignmentRef → Option Verdict
judge_external none refs = some insufficient
judge_external (some external) refs = do
  indices ← aligned_indices external refs
  judge_indices external indices

unfoldable pub judge_event_driven : MarketEvaluationResult → Option Verdict
judge_event_driven m = judge_external m.external m.external_scope_alignment
