-- ===== src/Strategy/Router/Eligibility.antt =====
-- The router against an independent description of eligibility, and the validators of its result.
use ai_trading_advisor.Prelude.{
  ◌≡◌, ◌≢◌, refl, ◌↔◌, ◌⊎◌, true, some, map, arith, same, same_refl, is_refl, &&-intro,
}
use ai_trading_advisor.Market.Enums.{
  FeatureQuality, MarketEvaluationContourStatus, ExternalAlignmentStatus,
}
use ai_trading_advisor.Market.Result.{MarketEvaluationResult}
use ai_trading_advisor.Strategy.Enums.{
  StrategyFamily, StrategyRouterOutcome, family_enum, router_outcome_enum,
}
use ai_trading_advisor.Strategy.Router.{
  Contour, status_of, quality_of, required_contours, requires_external_alignment, contour_reasons,
  external_alignment_reason, all_contour_reasons, reason_set, evaluate_family, family_order,
  eligible_of, outcome_of, assemble, is_valid_entry, is_valid, route,
}

-- A contour took part, and its quality is not `UNAVAILABLE`.
abbrev pub Usable : MarketEvaluationResult → Contour → Type 0
Usable m c =
    ((status_of m c ≡ MarketEvaluationContourStatus.analyzed)
      ⊎ (status_of m c ≡ MarketEvaluationContourStatus.partial))
    × (quality_of m c ≢ some FeatureQuality.unavailable)

-- What each family needs, read off the description of the strategy stage.
abbrev pub MayInspect : MarketEvaluationResult → StrategyFamily → Type 0
MayInspect m StrategyFamily.trend_following = Usable m Contour.technical
MayInspect m StrategyFamily.mean_reversion = Usable m Contour.technical
MayInspect m StrategyFamily.breakout = Usable m Contour.technical × Usable m Contour.flow
MayInspect m StrategyFamily.event_driven =
    Usable m Contour.external × (m.external_alignment_status ≡ ExternalAlignmentStatus.matched)

-- A family is eligible exactly when each contour it needs took part with a quality that is not
-- `UNAVAILABLE`, and, for `EVENT_DRIVEN`, an external scope matched.
pub evaluate_family-MayInspect :
    (m : MarketEvaluationResult) (family : StrategyFamily)
    → ((evaluate_family m family).eligible ≡ true) ↔ MayInspect m family
unfolding evaluate_family reason_set all_contour_reasons required_contours
    requires_external_alignment contour_reasons external_alignment_reason
evaluate_family-MayInspect m StrategyFamily.trend_following = ground arith
evaluate_family-MayInspect m StrategyFamily.mean_reversion = ground arith
evaluate_family-MayInspect m StrategyFamily.breakout = ground arith
evaluate_family-MayInspect m StrategyFamily.event_driven = ground arith

-- The reasons kept from the declaration order are canonical, whatever was in the set.
evaluate_family-is_valid_entry :
    (m : MarketEvaluationResult) (family : StrategyFamily)
    → is_valid_entry (evaluate_family m family) ≡ true
unfolding is_valid_entry evaluate_family
evaluate_family-is_valid_entry m family = ground arith

families_in_order :
    (m : MarketEvaluationResult)
    → same (map (λ e. e.family) (assemble m).eligibility) family_order ≡ true
unfolding assemble evaluate_family
families_in_order m = refl

assemble-is_valid : (m : MarketEvaluationResult) → is_valid (assemble m) ≡ true
unfolding is_valid assemble
assemble-is_valid m =
    let entry = evaluate_family-is_valid_entry m in
    &&-intro _ _
      (ground (
        arith,
        entry StrategyFamily.trend_following,
        entry StrategyFamily.mean_reversion,
        entry StrategyFamily.breakout,
        entry StrategyFamily.event_driven,
      ))
      (&&-intro _ _ (families_in_order m) (
        &&-intro _ _ (same_refl (assemble m).eligible_families)
          (is_refl (outcome_of (assemble m).eligible_families))))

-- On every evaluation the router returns its result: the validators of `StrategyRouterResult`
-- accept what it assembles.
pub route-total : (m : MarketEvaluationResult) → route m ≡ some (assemble m)
unfolding route
route-total m = rw (assemble-is_valid m)

-- The router's outcome is `ROUTED` exactly when trend following, breakout or event-driven trading
-- may inspect the evaluation. Mean reversion adds no case, since it needs what trend following
-- needs.
pub assemble-routed_iff :
    (m : MarketEvaluationResult)
    → ((assemble m).outcome ≡ StrategyRouterOutcome.routed) ↔ (
        MayInspect m StrategyFamily.trend_following
        ⊎ (MayInspect m StrategyFamily.breakout ⊎ MayInspect m StrategyFamily.event_driven))
unfolding assemble eligible_of
assemble-routed_iff m = ground (
  arith,
  evaluate_family-MayInspect m StrategyFamily.trend_following,
  evaluate_family-MayInspect m StrategyFamily.mean_reversion,
  evaluate_family-MayInspect m StrategyFamily.breakout,
  evaluate_family-MayInspect m StrategyFamily.event_driven,
)
