-- ===== src/Strategy/Router.antt =====
-- app/strategies/router.py and app/core/models/strategy_router_result.py: which strategy families the
-- judge may inspect, and the validators of that result. A set of reasons is the list of what was
-- added to it.
pub mod Eligibility
use ai_trading_advisor.Prelude.{
  ℕ, Bool, true, false, ◌&&◌, ◌||◌, Option, none, some, List, [], ◌∷◌, ◌++◌, map, any_of, all_of,
  keep, if◌then◌else◌, negb, ◌is◌, member, same, is_sorted, no_duplicates, ◌==◌, length,
}
use ai_trading_advisor.Market.Enums.{
  FeatureQuality, MarketEvaluationContourStatus, ExternalAlignmentStatus, quality_enum,
  contour_status_enum, alignment_enum,
}
use ai_trading_advisor.Market.Result.{MarketEvaluationResult}
use ai_trading_advisor.Strategy.Enums.{
  StrategyFamily, StrategyRouterOutcome, StrategyIneligibilityReason, family_enum,
  router_outcome_enum, ineligibility_enum, ineligibility_index,
}

pub record StrategyEligibilityEntry : Type 0 where
  pub family : StrategyFamily
  pub eligible : Bool
  pub ineligibility_reasons : List StrategyIneligibilityReason

pub record StrategyRouterResult : Type 0 where
  pub market_evaluation : MarketEvaluationResult
  pub outcome : StrategyRouterOutcome
  pub eligibility : List StrategyEligibilityEntry
  pub eligible_families : List StrategyFamily

-- The keys of `_REQUIRED_CONTOURS`.
pub data Contour : Type 0 where
  technical flow external : Contour

-- `_USABLE_CONTOUR_STATUSES`
abbrev pub is_usable_status : MarketEvaluationContourStatus → Bool
is_usable_status s =
    s is MarketEvaluationContourStatus.analyzed || s is MarketEvaluationContourStatus.partial

-- `_USABLE_QUALITIES`
abbrev pub is_usable_quality : FeatureQuality → Bool
is_usable_quality q =
    q is FeatureQuality.valid || (q is FeatureQuality.partial || q is FeatureQuality.stale)

unfoldable pub required_contours : StrategyFamily → List Contour
required_contours StrategyFamily.trend_following = Contour.technical ∷ []
required_contours StrategyFamily.mean_reversion = Contour.technical ∷ []
required_contours StrategyFamily.breakout = Contour.technical ∷ Contour.flow ∷ []
required_contours StrategyFamily.event_driven = Contour.external ∷ []

unfoldable pub requires_external_alignment : StrategyFamily → Bool
requires_external_alignment family = family is StrategyFamily.event_driven

-- The two halves of `_contour_status_and_quality`.
abbrev pub status_of : MarketEvaluationResult → Contour → MarketEvaluationContourStatus
status_of m Contour.technical = m.technical_status
status_of m Contour.flow = m.flow_status
status_of m Contour.external = m.external_status

abbrev pub quality_of : MarketEvaluationResult → Contour → Option FeatureQuality
quality_of m Contour.technical = m.technical_quality
quality_of m Contour.flow = m.flow_quality
quality_of m Contour.external = m.external_quality

abbrev pub status_reasons : MarketEvaluationContourStatus → List StrategyIneligibilityReason
status_reasons status =
    if is_usable_status status
    then []
    else if status is MarketEvaluationContourStatus.missing
    then StrategyIneligibilityReason.contour_missing ∷ []
    else StrategyIneligibilityReason.contour_insufficient_evidence ∷ []

abbrev pub quality_reasons : Option FeatureQuality → List StrategyIneligibilityReason
quality_reasons none = []
quality_reasons (some q) =
    if is_usable_quality q then [] else StrategyIneligibilityReason.quality_unavailable ∷ []

unfoldable pub contour_reasons :
    MarketEvaluationContourStatus → Option FeatureQuality → List StrategyIneligibilityReason
contour_reasons status quality = status_reasons status ++ quality_reasons quality

unfoldable pub external_alignment_reason :
    MarketEvaluationResult → Option StrategyIneligibilityReason
external_alignment_reason m =
    if m.external_status is MarketEvaluationContourStatus.missing
    then none
    else if m.external_alignment_status is ExternalAlignmentStatus.matched
    then none
    else some StrategyIneligibilityReason.external_scope_not_aligned

-- The loop over the required contours.
unfoldable pub all_contour_reasons :
    MarketEvaluationResult → List Contour → List StrategyIneligibilityReason
all_contour_reasons m [] = []
all_contour_reasons m (c ∷ cs) =
    contour_reasons (status_of m c) (quality_of m c) ++ all_contour_reasons m cs

abbrev pub optional {ℓ} : {A : Type ℓ} → Option A → List A
optional none = []
optional (some a) = a ∷ []

unfoldable pub reason_set :
    MarketEvaluationResult → StrategyFamily → List StrategyIneligibilityReason
reason_set m family =
    all_contour_reasons m (required_contours family)
    ++ (if requires_external_alignment family then optional (external_alignment_reason m) else [])

-- `tuple(StrategyIneligibilityReason)`
abbrev pub reason_order : List StrategyIneligibilityReason
reason_order =
    StrategyIneligibilityReason.contour_missing
    ∷ StrategyIneligibilityReason.contour_insufficient_evidence
    ∷ StrategyIneligibilityReason.quality_unavailable
    ∷ StrategyIneligibilityReason.external_scope_not_aligned ∷ []

abbrev pub is_empty {ℓ} : {A : Type ℓ} → List A → Bool
is_empty [] = true
is_empty (x ∷ xs) = false

unfoldable pub evaluate_family : MarketEvaluationResult → StrategyFamily → StrategyEligibilityEntry
evaluate_family m family =
    let reasons = keep (λ r. member r (reason_set m family)) reason_order in
    record { family = family; eligible = is_empty reasons; ineligibility_reasons = reasons }

-- `tuple(StrategyFamily)`
abbrev pub family_order : List StrategyFamily
family_order =
    StrategyFamily.trend_following ∷ StrategyFamily.mean_reversion ∷ StrategyFamily.breakout
    ∷ StrategyFamily.event_driven ∷ []

-- `tuple(entry.family for entry in eligibility if entry.eligible)`
unfoldable pub eligible_of : List StrategyEligibilityEntry → List StrategyFamily
eligible_of entries = map (λ e. e.family) (keep (λ e. e.eligible) entries)

abbrev pub outcome_of : List StrategyFamily → StrategyRouterOutcome
outcome_of [] = StrategyRouterOutcome.no_eligible_strategy
outcome_of (f ∷ fs) = StrategyRouterOutcome.routed

-- The result that `StrategyRouter.route` constructs.
unfoldable pub assemble : MarketEvaluationResult → StrategyRouterResult
assemble m =
    let eligibility = map (evaluate_family m) family_order in
    let eligible_families = eligible_of eligibility in
    record {
      market_evaluation = m;
      outcome = outcome_of eligible_families;
      eligibility = eligibility;
      eligible_families = eligible_families;
    }

-- The validators of `StrategyEligibilityEntry`.
unfoldable pub is_valid_entry : StrategyEligibilityEntry → Bool
is_valid_entry e =
    let indexes = map ineligibility_index e.ineligibility_reasons in
    (if e.eligible
      then is_empty e.ineligibility_reasons
      else negb (is_empty e.ineligibility_reasons))
    && (is_sorted indexes && no_duplicates indexes)

-- The validators of `StrategyRouterResult`, and those of its entries.
unfoldable pub is_valid : StrategyRouterResult → Bool
is_valid r =
    all_of is_valid_entry r.eligibility
    && (same (map (λ e. e.family) r.eligibility) family_order
        && (same r.eligible_families (eligible_of r.eligibility)
            && r.outcome is outcome_of r.eligible_families))

-- `StrategyRouter.route`; `none` where a validator refuses the result.
unfoldable pub route : MarketEvaluationResult → Option StrategyRouterResult
route m = if is_valid (assemble m) then some (assemble m) else none
