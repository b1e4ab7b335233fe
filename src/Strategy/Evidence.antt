-- ===== src/Strategy/Evidence.antt =====
-- app/core/models/strategy_judge_result.py: evidence references and their canonical order, and the
-- judge's result with its validators.
use ai_trading_advisor.Prelude.{
  ℕ, Bool, true, false, ◌&&◌, Option, none, some, List, [], ◌∷◌, map, any_of, all_of, length,
  get_elem?, ltb, leb, ◌==◌, if◌then◌else◌, negb, ◌is◌, same,
}
use ai_trading_advisor.Market.Result.{MarketEvaluationResult}
use ai_trading_advisor.Market.Evidence.{
  TechnicalSupervisorResult, FlowSupervisorResult, ExternalIntelligenceSupervisorResult,
}
use ai_trading_advisor.Strategy.Enums.{
  StrategyFamily, EvidenceRole, JudgeContour, DirectionalCandidate, JudgeOutcome, family_enum,
  role_enum, judge_outcome_enum, contour_index, role_index,
}
use ai_trading_advisor.Strategy.Router.{StrategyRouterResult, is_empty}

pub record JudgeEvidenceRef : Type 0 where
  pub contour : JudgeContour
  pub role : EvidenceRole
  pub analyst_result_index : ℕ
  pub observation_index : ℕ

pub record JudgeFamilyResult : Type 0 where
  pub family : StrategyFamily
  pub outcome : JudgeOutcome
  pub direction : Option DirectionalCandidate
  pub evidence_refs : List JudgeEvidenceRef

pub record StrategyJudgeResult : Type 0 where
  pub strategy_router_result : StrategyRouterResult
  pub family_results : List JudgeFamilyResult

-- The order of the keys `(contour, role, analyst_result_index, observation_index)`, as tuples.
abbrev pub lex : ℕ → ℕ → Bool → Bool
lex a b rest = if ltb a b then true else a == b && rest

unfoldable pub ref_lt : JudgeEvidenceRef → JudgeEvidenceRef → Bool
ref_lt a b = lex (contour_index a.contour) (contour_index b.contour) (
    lex (role_index a.role) (role_index b.role) (
      lex a.analyst_result_index b.analyst_result_index
        (ltb a.observation_index b.observation_index)))

-- The validator on `evidence_refs`: `keys == sorted(keys)` without duplicates, which for a total
-- order is that each key is below the next.
abbrev pub above : JudgeEvidenceRef → List JudgeEvidenceRef → Bool
above a [] = true
above a (b ∷ rest) = ref_lt a b

unfoldable pub is_canonical : List JudgeEvidenceRef → Bool
is_canonical [] = true
is_canonical (a ∷ rest) = above a rest && is_canonical rest

unfoldable pub has_direction : Option DirectionalCandidate → Bool
has_direction none = false
has_direction (some d) = true

-- The five validators of `JudgeFamilyResult`, by outcome.
unfoldable pub is_valid_family : JudgeFamilyResult → Bool
is_valid_family r =
    (if r.outcome is JudgeOutcome.directional
      then has_direction r.direction
        && any_of (λ ref. ref.role is EvidenceRole.primary) r.evidence_refs
      else negb (has_direction r.direction))
    && ((if r.outcome is JudgeOutcome.insufficient_evidence then is_empty r.evidence_refs else true)
        && ((if r.outcome is JudgeOutcome.mixed then leb 2 (length r.evidence_refs) else true)
            && is_canonical r.evidence_refs))

-- The number of observations of the analyst result that a reference names: `none` where the contour
-- is missing or the result index is out of range.
abbrev pub count_at {ℓ} : {A : Type ℓ} → (A → ℕ) → Option A → Option ℕ
count_at f none = none
count_at f (some a) = some (f a)

abbrev pub technical_count : Option TechnicalSupervisorResult → ℕ → Option ℕ
technical_count none i = none
technical_count (some t) i = count_at (λ r. length r.observations) (get_elem? t.analyst_results i)

abbrev pub flow_count : Option FlowSupervisorResult → ℕ → Option ℕ
flow_count none i = none
flow_count (some f) i = count_at (λ r. length r.observations) (get_elem? f.analyst_results i)

abbrev pub external_count : Option ExternalIntelligenceSupervisorResult → ℕ → Option ℕ
external_count none i = none
external_count (some x) i = count_at (λ r. length r.observations) (get_elem? x.analysis_results i)

abbrev pub observation_count : MarketEvaluationResult → JudgeContour → ℕ → Option ℕ
observation_count m JudgeContour.technical i = technical_count m.technical i
observation_count m JudgeContour.flow i = flow_count m.flow i
observation_count m JudgeContour.external i = external_count m.external i

abbrev pub below : ℕ → Option ℕ → Bool
below i none = false
below i (some n) = ltb i n

unfoldable pub in_bounds : MarketEvaluationResult → JudgeEvidenceRef → Bool
in_bounds m ref =
    below ref.observation_index (observation_count m ref.contour ref.analyst_result_index)

-- The validators of `StrategyJudgeResult`, and those of its family results.
unfoldable pub is_valid : StrategyJudgeResult → Bool
is_valid r =
    all_of is_valid_family r.family_results
    && (same (map (λ f. f.family) r.family_results) r.strategy_router_result.eligible_families
        && all_of
            (λ f. all_of (in_bounds r.strategy_router_result.market_evaluation) f.evidence_refs)
            r.family_results)
