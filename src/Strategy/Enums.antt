-- ===== src/Strategy/Enums.antt =====
-- The enumerations of the strategy stages (app/core/enums/strategy_router.py, strategy_judge.py,
-- policy_gate.py). Members keep the declaration order of the source.
use ai_trading_advisor.Prelude.{ℕ, ◌≡◌, arith, Enum}

pub data StrategyFamily : Type 0 where
  trend_following mean_reversion breakout event_driven : StrategyFamily

abbrev pub family_index : StrategyFamily → ℕ
family_index StrategyFamily.trend_following = 0
family_index StrategyFamily.mean_reversion = 1
family_index StrategyFamily.breakout = 2
family_index StrategyFamily.event_driven = 3

pub family_index_injective : (a b : StrategyFamily) → family_index a ≡ family_index b → a ≡ b
family_index_injective a b h = ground arith

instance abbrev pub family_enum : Enum StrategyFamily
family_enum = record { index = family_index; index_injective = family_index_injective }

pub data StrategyRouterOutcome : Type 0 where
  routed no_eligible_strategy : StrategyRouterOutcome

abbrev pub router_outcome_index : StrategyRouterOutcome → ℕ
router_outcome_index StrategyRouterOutcome.routed = 0
router_outcome_index StrategyRouterOutcome.no_eligible_strategy = 1

pub router_outcome_index_injective :
    (a b : StrategyRouterOutcome) → router_outcome_index a ≡ router_outcome_index b → a ≡ b
router_outcome_index_injective a b h = ground arith

instance abbrev pub router_outcome_enum : Enum StrategyRouterOutcome
router_outcome_enum = record {
  index = router_outcome_index;
  index_injective = router_outcome_index_injective;
}

pub data StrategyIneligibilityReason : Type 0 where
  contour_missing contour_insufficient_evidence quality_unavailable external_scope_not_aligned :
      StrategyIneligibilityReason

abbrev pub ineligibility_index : StrategyIneligibilityReason → ℕ
ineligibility_index StrategyIneligibilityReason.contour_missing = 0
ineligibility_index StrategyIneligibilityReason.contour_insufficient_evidence = 1
ineligibility_index StrategyIneligibilityReason.quality_unavailable = 2
ineligibility_index StrategyIneligibilityReason.external_scope_not_aligned = 3

pub ineligibility_index_injective :
    (a b : StrategyIneligibilityReason) → ineligibility_index a ≡ ineligibility_index b → a ≡ b
ineligibility_index_injective a b h = ground arith

instance abbrev pub ineligibility_enum : Enum StrategyIneligibilityReason
ineligibility_enum = record {
  index = ineligibility_index;
  index_injective = ineligibility_index_injective;
}

pub data EvidenceRole : Type 0 where
  primary corroborating : EvidenceRole

abbrev pub role_index : EvidenceRole → ℕ
role_index EvidenceRole.primary = 0
role_index EvidenceRole.corroborating = 1

pub role_index_injective : (a b : EvidenceRole) → role_index a ≡ role_index b → a ≡ b
role_index_injective a b h = ground arith

instance abbrev pub role_enum : Enum EvidenceRole
role_enum = record { index = role_index; index_injective = role_index_injective }

pub data JudgeContour : Type 0 where
  technical flow external : JudgeContour

abbrev pub contour_index : JudgeContour → ℕ
contour_index JudgeContour.technical = 0
contour_index JudgeContour.flow = 1
contour_index JudgeContour.external = 2

pub contour_index_injective : (a b : JudgeContour) → contour_index a ≡ contour_index b → a ≡ b
contour_index_injective a b h = ground arith

instance abbrev pub contour_enum : Enum JudgeContour
contour_enum = record { index = contour_index; index_injective = contour_index_injective }

pub data DirectionalCandidate : Type 0 where
  long_candidate short_candidate : DirectionalCandidate

abbrev pub candidate_index : DirectionalCandidate → ℕ
candidate_index DirectionalCandidate.long_candidate = 0
candidate_index DirectionalCandidate.short_candidate = 1

pub candidate_index_injective :
    (a b : DirectionalCandidate) → candidate_index a ≡ candidate_index b → a ≡ b
candidate_index_injective a b h = ground arith

instance abbrev pub candidate_enum : Enum DirectionalCandidate
candidate_enum = record { index = candidate_index; index_injective = candidate_index_injective }

pub data JudgeOutcome : Type 0 where
  directional mixed insufficient_evidence : JudgeOutcome

abbrev pub judge_outcome_index : JudgeOutcome → ℕ
judge_outcome_index JudgeOutcome.directional = 0
judge_outcome_index JudgeOutcome.mixed = 1
judge_outcome_index JudgeOutcome.insufficient_evidence = 2

pub judge_outcome_index_injective :
    (a b : JudgeOutcome) → judge_outcome_index a ≡ judge_outcome_index b → a ≡ b
judge_outcome_index_injective a b h = ground arith

instance abbrev pub judge_outcome_enum : Enum JudgeOutcome
judge_outcome_enum = record {
  index = judge_outcome_index;
  index_injective = judge_outcome_index_injective;
}

pub data PolicyFamilyVerdict : Type 0 where
  eligible_for_risk_review blocked : PolicyFamilyVerdict

abbrev pub policy_verdict_index : PolicyFamilyVerdict → ℕ
policy_verdict_index PolicyFamilyVerdict.eligible_for_risk_review = 0
policy_verdict_index PolicyFamilyVerdict.blocked = 1

pub policy_verdict_index_injective :
    (a b : PolicyFamilyVerdict) → policy_verdict_index a ≡ policy_verdict_index b → a ≡ b
policy_verdict_index_injective a b h = ground arith

instance abbrev pub policy_verdict_enum : Enum PolicyFamilyVerdict
policy_verdict_enum = record {
  index = policy_verdict_index;
  index_injective = policy_verdict_index_injective;
}

pub data PolicyGateOutcome : Type 0 where
  some_eligible_for_risk_review no_eligible_family : PolicyGateOutcome

abbrev pub policy_outcome_index : PolicyGateOutcome → ℕ
policy_outcome_index PolicyGateOutcome.some_eligible_for_risk_review = 0
policy_outcome_index PolicyGateOutcome.no_eligible_family = 1

pub policy_outcome_index_injective :
    (a b : PolicyGateOutcome) → policy_outcome_index a ≡ policy_outcome_index b → a ≡ b
policy_outcome_index_injective a b h = ground arith

instance abbrev pub policy_outcome_enum : Enum PolicyGateOutcome
policy_outcome_enum = record {
  index = policy_outcome_index;
  index_injective = policy_outcome_index_injective;
}

pub data PolicyBlockReason : Type 0 where
  judge_outcome_mixed judge_outcome_insufficient_evidence disallowed_evidence_quality :
      PolicyBlockReason

abbrev pub policy_reason_index : PolicyBlockReason → ℕ
policy_reason_index PolicyBlockReason.judge_outcome_mixed = 0
policy_reason_index PolicyBlockReason.judge_outcome_insufficient_evidence = 1
policy_reason_index PolicyBlockReason.disallowed_evidence_quality = 2

pub policy_reason_index_injective :
    (a b : PolicyBlockReason) → policy_reason_index a ≡ policy_reason_index b → a ≡ b
policy_reason_index_injective a b h = ground arith

instance abbrev pub policy_reason_enum : Enum PolicyBlockReason
policy_reason_enum = record {
  index = policy_reason_index;
  index_injective = policy_reason_index_injective;
}
