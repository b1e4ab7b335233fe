-- ===== src/Strategy/TechnicalFamilies.antt =====
-- app/judge/judge.py: the verdicts on the families that read the technical contour. A reading that Python would refuse with an `IndexError` is `none`.
use text.Mathlib.Text.{◌==◌ as str_eq}
use ai_trading_advisor.Prelude.{
  ℕ, suc, Bool, false, ◌&&◌, Option, none, some, List, [], ◌∷◌, ◌++◌, any_of, if◌then◌else◌, negb,
  ◌is◌, ◌>>=◌,
}
use ai_trading_advisor.Market.Enums.{match_kind_enum, external_analyst_enum}
use ai_trading_advisor.Market.EvidenceEnums.{
  TechnicalAnalystType, TechnicalAnalysisDimension, technical_analyst_enum,
  technical_dimension_enum, external_dimension_enum,
}
use ai_trading_advisor.Market.Evidence.{
  TechnicalAnalysisObservation, TechnicalAnalysisResult, TechnicalCoherenceResult,
  TechnicalSupervisorResult,
}
use ai_trading_advisor.Strategy.Enums.{EvidenceRole, DirectionalCandidate, candidate_enum}
use ai_trading_advisor.Strategy.Router.{optional}
use ai_trading_advisor.Strategy.Evidence.{JudgeEvidenceRef}
use ai_trading_advisor.Strategy.Readings.{
  DirectionMap, Resolved, Verdict, insufficient, mixed, directional, trend_direction_map,
  break_direction_map, trend_following_corroborators, find_coherence_entries,
  resolve_coherence_entry, resolve_single_dimension, technical_ref,
}

-- The candidates of the readings that have one, and the references of those readings.
abbrev pub candidates_of : List Resolved → List DirectionalCandidate
candidates_of [] = []
candidates_of (r ∷ rs) = optional r.candidate ++ candidates_of rs

abbrev pub refs_if : Option DirectionalCandidate → List JudgeEvidenceRef → List JudgeEvidenceRef
refs_if none refs = []
refs_if (some c) refs = refs

abbrev pub refs_of : List Resolved → List JudgeEvidenceRef
refs_of [] = []
refs_of (r ∷ rs) = refs_if r.candidate r.refs ++ refs_of rs

-- `len(set(candidates)) > 1`
abbrev pub disagree : List DirectionalCandidate → Bool
disagree [] = false
disagree (c ∷ cs) = any_of (λ d. negb (d is c)) cs

-- `resolved.candidate is not None and resolved.candidate is not direction`
abbrev pub opposes : DirectionalCandidate → Option DirectionalCandidate → Bool
opposes direction none = false
opposes direction (some c) = negb (c is direction)

unfoldable pub entry_vetoes :
    TechnicalSupervisorResult
    → DirectionalCandidate
    → DirectionMap
    → List TechnicalCoherenceResult
    → Option (List JudgeEvidenceRef)
entry_vetoes technical direction mapping [] = some []
entry_vetoes technical direction mapping (entry ∷ entries) = do
  resolved ← resolve_coherence_entry entry technical mapping EvidenceRole.corroborating
  rest ← entry_vetoes technical direction mapping entries
  some ((if opposes direction resolved.candidate then resolved.refs else []) ++ rest)

unfoldable pub vetoes_by :
    TechnicalSupervisorResult
    → DirectionalCandidate
    → List (TechnicalAnalysisDimension × DirectionMap)
    → Option (List JudgeEvidenceRef)
vetoes_by technical direction [] = some []
vetoes_by technical direction ((dimension, mapping) ∷ more) = do
  vetoes ← entry_vetoes technical direction mapping (find_coherence_entries technical dimension)
  rest ← vetoes_by technical direction more
  some (vetoes ++ rest)

unfoldable pub corroborating_veto_refs :
    TechnicalSupervisorResult → DirectionalCandidate → Option (List JudgeEvidenceRef)
corroborating_veto_refs technical direction =
    vetoes_by technical direction trend_following_corroborators

abbrev pub veto_verdict :
    DirectionalCandidate → List JudgeEvidenceRef → List JudgeEvidenceRef → Verdict
veto_verdict direction primary_refs [] = directional direction primary_refs
veto_verdict direction primary_refs (v ∷ vs) = mixed (primary_refs ++ v ∷ vs)

-- The end of `_judge_trend_following`, over the candidates of its two primary dimensions.
unfoldable pub judge_primaries :
    TechnicalSupervisorResult → List DirectionalCandidate → List JudgeEvidenceRef → Option Verdict
judge_primaries technical [] primary_refs = some insufficient
judge_primaries technical (direction ∷ others) primary_refs =
    let vetoed = do
      veto_refs ← corroborating_veto_refs technical direction
      some (veto_verdict direction primary_refs veto_refs)
    in if disagree (direction ∷ others) then some (mixed primary_refs) else vetoed

unfoldable pub judge_trend_following : Option TechnicalSupervisorResult → Option Verdict
judge_trend_following none = some insufficient
judge_trend_following (some technical) = do
  by_return ←
      resolve_single_dimension technical TechnicalAnalysisDimension.return_direction
        trend_direction_map EvidenceRole.primary
  let rest = do
    by_slope ←
        resolve_single_dimension technical TechnicalAnalysisDimension.slope_direction
          trend_direction_map EvidenceRole.primary
    let readings = by_return ∷ by_slope ∷ []
    if by_slope.conflict
        then some (mixed by_slope.refs)
        else judge_primaries technical (candidates_of readings) (refs_of readings)
  if by_return.conflict then some (mixed by_return.refs) else rest

unfoldable pub judge_mean_reversion : Verdict
judge_mean_reversion = insufficient

-- The references of one result's observations that confirm a break, from position `j`.
unfoldable pub confirmed_in : ℕ → ℕ → List TechnicalAnalysisObservation → List JudgeEvidenceRef
confirmed_in i j [] = []
confirmed_in i j (o ∷ os) =
    let rest = confirmed_in i (suc j) os in
    if o.dimension is TechnicalAnalysisDimension.structural_break_presence
      && str_eq o.value "BREAK_CONFIRMED"
    then technical_ref EvidenceRole.primary (i, j) ∷ rest
    else rest

unfoldable pub confirmed_from : ℕ → List TechnicalAnalysisResult → List JudgeEvidenceRef
confirmed_from i [] = []
confirmed_from i (result ∷ results) =
    (if result.analyst_type is TechnicalAnalystType.market_structure
      then confirmed_in i 0 result.observations
      else [])
    ++ confirmed_from (suc i) results

unfoldable pub structural_break_confirmed_refs : TechnicalSupervisorResult → List JudgeEvidenceRef
structural_break_confirmed_refs technical = confirmed_from 0 technical.analyst_results

abbrev pub break_verdict : DirectionalCandidate → List JudgeEvidenceRef → Resolved → Verdict
break_verdict direction primary_refs by_return =
    if opposes direction by_return.candidate
    then mixed (primary_refs ++ by_return.refs)
    else directional direction primary_refs

-- The end of `_judge_breakout`, once a break is confirmed and its direction is known.
unfoldable pub judge_break :
    TechnicalSupervisorResult
    → List JudgeEvidenceRef
    → Option DirectionalCandidate
    → List JudgeEvidenceRef
    → Option Verdict
judge_break technical [] candidate latest_refs = some insufficient
judge_break technical (c ∷ cs) none latest_refs = some insufficient
judge_break technical (c ∷ cs) (some direction) latest_refs = do
  by_return ←
      resolve_single_dimension technical TechnicalAnalysisDimension.return_direction
        trend_direction_map EvidenceRole.corroborating
  some (break_verdict direction ((c ∷ cs) ++ latest_refs) by_return)

unfoldable pub judge_breakout : Option TechnicalSupervisorResult → Option Verdict
judge_breakout none = some insufficient
judge_breakout (some technical) = do
  latest ←
      resolve_single_dimension technical TechnicalAnalysisDimension.latest_break_direction
        break_direction_map EvidenceRole.primary
  let rest =
      judge_break technical (structural_break_confirmed_refs technical) latest.candidate latest.refs
  if latest.conflict then some (mixed latest.refs) else rest
