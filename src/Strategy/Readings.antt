-- ===== src/Strategy/Readings.antt =====
-- app/judge/judge.py, first half: the mapping tables, the canonical order of references, and the
-- reading of one coherence entry. A reading that Python would refuse with an `IndexError` is `none`.
use Prim.Native.String.{String}
use text.Mathlib.Text.{◌==◌ as str_eq}
use ai_trading_advisor.Prelude.{
  ℕ, Bool, true, false, Option, none, some, List, [], ◌∷◌, map, keep, get_elem?, if◌then◌else◌,
  ◌is◌,
}
use ai_trading_advisor.Market.Enums.{match_kind_enum, external_analyst_enum}
use ai_trading_advisor.Market.EvidenceEnums.{
  TechnicalAgreementVerdict, TechnicalAnalysisDimension, technical_analyst_enum, agreement_enum,
  technical_dimension_enum, external_dimension_enum,
}
use ai_trading_advisor.Market.Evidence.{
  TechnicalAnalysisResult, TechnicalCoherenceResult, TechnicalSupervisorResult,
}
use ai_trading_advisor.Strategy.Enums.{
  EvidenceRole, JudgeContour, DirectionalCandidate, JudgeOutcome, candidate_enum,
}
use ai_trading_advisor.Strategy.Evidence.{JudgeEvidenceRef, ref_lt}

-- The mapping tables: the value that reads as long, and the one that reads as short.
pub record DirectionMap : Type 0 where
  pub long_value : String
  pub short_value : String

abbrev pub trend_direction_map : DirectionMap
trend_direction_map = record { long_value = "UPWARD"; short_value = "DOWNWARD" }

abbrev pub break_direction_map : DirectionMap
break_direction_map = record { long_value = "UPWARD_BREAK"; short_value = "DOWNWARD_BREAK" }

abbrev pub price_vs_sma_map : DirectionMap
price_vs_sma_map = record { long_value = "ABOVE_SMA"; short_value = "BELOW_SMA" }

abbrev pub ma_slope_map : DirectionMap
ma_slope_map = record { long_value = "UPWARD"; short_value = "DOWNWARD" }

abbrev pub multi_period_ma_map : DirectionMap
multi_period_ma_map = record {
  long_value = "FASTER_ABOVE_SLOWER";
  short_value = "FASTER_BELOW_SLOWER";
}

abbrev pub structural_sequence_map : DirectionMap
structural_sequence_map = record {
  long_value = "UPWARD_STRUCTURE";
  short_value = "DOWNWARD_STRUCTURE";
}

abbrev pub rsi_midpoint_map : DirectionMap
rsi_midpoint_map = record { long_value = "ABOVE_MIDPOINT"; short_value = "BELOW_MIDPOINT" }

abbrev pub sentiment_map : DirectionMap
sentiment_map = record { long_value = "POSITIVE"; short_value = "NEGATIVE" }

-- `mapping.get(value)`
unfoldable pub direction_of : DirectionMap → String → Option DirectionalCandidate
direction_of mapping value =
    if str_eq value mapping.long_value
    then some DirectionalCandidate.long_candidate
    else if str_eq value mapping.short_value
    then some DirectionalCandidate.short_candidate
    else none

abbrev pub trend_following_corroborators : List (TechnicalAnalysisDimension × DirectionMap)
trend_following_corroborators =
    (TechnicalAnalysisDimension.price_vs_sma_position, price_vs_sma_map)
    ∷ (TechnicalAnalysisDimension.ma_slope_direction, ma_slope_map)
    ∷ (TechnicalAnalysisDimension.multi_period_ma_ordering, multi_period_ma_map)
    ∷ (TechnicalAnalysisDimension.structural_sequence_balance, structural_sequence_map)
    ∷ (TechnicalAnalysisDimension.rsi_midpoint_relation, rsi_midpoint_map)
    ∷ []

pub record Resolved : Type 0 where
  pub conflict : Bool
  pub candidate : Option DirectionalCandidate
  pub refs : List JudgeEvidenceRef

abbrev pub unresolved : Resolved
unresolved = record { conflict = false; candidate = none; refs = [] }

-- A verdict on a family: outcome, direction and references.
pub record Verdict : Type 0 where
  pub outcome : JudgeOutcome
  pub direction : Option DirectionalCandidate
  pub refs : List JudgeEvidenceRef

-- `_canonicalize`: the references by key, each key once, in ascending order. Of two references with
-- one key either may be kept, since the key is the whole reference.
unfoldable pub insert_ref : JudgeEvidenceRef → List JudgeEvidenceRef → List JudgeEvidenceRef
insert_ref a [] = a ∷ []
insert_ref a (b ∷ rest) =
    let later = b ∷ insert_ref a rest in
    if ref_lt a b then a ∷ b ∷ rest else if ref_lt b a then later else b ∷ rest

unfoldable pub canonicalize : List JudgeEvidenceRef → List JudgeEvidenceRef
canonicalize [] = []
canonicalize (a ∷ rest) = insert_ref a (canonicalize rest)

abbrev pub insufficient : Verdict
insufficient = record { outcome = JudgeOutcome.insufficient_evidence; direction = none; refs = [] }

abbrev pub mixed : List JudgeEvidenceRef → Verdict
mixed refs = record { outcome = JudgeOutcome.mixed; direction = none; refs = canonicalize refs }

abbrev pub directional : DirectionalCandidate → List JudgeEvidenceRef → Verdict
directional d refs = record {
  outcome = JudgeOutcome.directional;
  direction = some d;
  refs = canonicalize refs;
}

unfoldable pub find_coherence_entries :
    TechnicalSupervisorResult → TechnicalAnalysisDimension → List TechnicalCoherenceResult
find_coherence_entries technical dimension =
    keep (λ entry. entry.dimension is dimension) technical.coherence

abbrev pub technical_ref : EvidenceRole → ℕ × ℕ → JudgeEvidenceRef
technical_ref role (i, j) = record {
  contour = JudgeContour.technical;
  role = role;
  analyst_result_index = i;
  observation_index = j;
}

abbrev pub value_in : Option TechnicalAnalysisResult → ℕ → Option String
value_in none j = none
value_in (some r) j = elim (get_elem? r.observations j) [ none ↦ none | some o ↦ some o.value ]

-- `technical.analyst_results[i].observations[j].value` at the first reference.
unfoldable pub first_value : TechnicalSupervisorResult → List (ℕ × ℕ) → Option String
first_value technical [] = none
first_value technical ((i, j) ∷ refs) = value_in (get_elem? technical.analyst_results i) j

abbrev pub resolved_value : EvidenceRole → List (ℕ × ℕ) → Option DirectionalCandidate → Resolved
resolved_value role refs none = unresolved
resolved_value role refs (some c) = record {
  conflict = false;
  candidate = some c;
  refs = map (technical_ref role) refs;
}

abbrev pub resolve_agreed :
    DirectionMap → EvidenceRole → List (ℕ × ℕ) → Option String → Option Resolved
resolve_agreed mapping role refs none = none
resolve_agreed mapping role refs (some value) =
    some (resolved_value role refs (direction_of mapping value))

unfoldable pub resolve_by_verdict :
    TechnicalAgreementVerdict
    → List (ℕ × ℕ)
    → TechnicalSupervisorResult
    → DirectionMap
    → EvidenceRole
    → Option Resolved
resolve_by_verdict TechnicalAgreementVerdict.mixed refs technical mapping role =
    some (record { conflict = true; candidate = none; refs = map (technical_ref role) refs })
resolve_by_verdict TechnicalAgreementVerdict.insufficient_data refs technical mapping role =
    some unresolved
resolve_by_verdict TechnicalAgreementVerdict.all_agree refs technical mapping role =
    resolve_agreed mapping role refs (first_value technical refs)

unfoldable pub resolve_coherence_entry :
    TechnicalCoherenceResult
    → TechnicalSupervisorResult
    → DirectionMap
    → EvidenceRole
    → Option Resolved
resolve_coherence_entry entry technical mapping role =
    resolve_by_verdict entry.verdict entry.evidence_refs technical mapping role

abbrev pub resolve_first :
    List TechnicalCoherenceResult
    → TechnicalSupervisorResult
    → DirectionMap
    → EvidenceRole
    → Option Resolved
resolve_first [] technical mapping role = some unresolved
resolve_first (entry ∷ entries) technical mapping role =
    resolve_coherence_entry entry technical mapping role

unfoldable pub resolve_single_dimension :
    TechnicalSupervisorResult
    → TechnicalAnalysisDimension
    → DirectionMap
    → EvidenceRole
    → Option Resolved
resolve_single_dimension technical dimension mapping role =
    resolve_first (find_coherence_entries technical dimension) technical mapping role
