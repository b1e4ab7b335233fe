-- ===== src/Money/Risk.antt =====
-- app/risk/engine.py, app/money_management/sizing.py and app/core/models/risk_gate_result.py: the risk
-- gate, with the errors that it raises and the validators of its result.
use ai_trading_advisor.Prelude.{
  Bool, true, false, ◌&&◌, Option, none, some, List, [], ◌∷◌, keep, if◌then◌else◌, negb, ◌is◌,
  member,
}
use ai_trading_advisor.Strategy.Enums.{
  StrategyFamily, PolicyFamilyVerdict, family_enum, policy_verdict_enum,
}
use ai_trading_advisor.Strategy.Policy.{PolicyFamilyResult, StrategyPolicyResult}
use ai_trading_advisor.Decimal.Context.{DecimalContext, min}
use ai_trading_advisor.Money.Enums.{
  RiskFamilyVerdict, RiskGateOutcome, RiskBlockReason, risk_verdict_enum, risk_outcome_enum,
  risk_reason_enum,
}
use ai_trading_advisor.Money.Account.{AccountRiskSnapshot, TradingCycleConfig}

pub record CandidateRiskInput (Decimal : Type 0) : Type 0 where
  pub family : StrategyFamily
  pub risk_per_unit : Decimal

pub record RiskFamilyResult (Decimal : Type 0) : Type 0 where
  pub family : StrategyFamily
  pub verdict : RiskFamilyVerdict
  pub reasons : List RiskBlockReason
  pub max_individual_risk : Option Decimal
  pub recommended_units : Option Decimal

pub record StrategyRiskResult (Decimal : Type 0) : Type 0 where
  pub strategy_policy_result : StrategyPolicyResult
  pub trading_cycle_config : TradingCycleConfig Decimal
  pub account_snapshot : AccountRiskSnapshot Decimal
  pub candidate_inputs : List (CandidateRiskInput Decimal)
  pub outcome : RiskGateOutcome
  pub family_results : List (RiskFamilyResult Decimal)

-- The exceptions of app/risk/errors.py, the `assert` of `_evaluate_family`, and a refused result.
pub data RiskError : Type 0 where
  duplicate_candidate_family unknown_candidate_family candidate_for_blocked_family : RiskError
  missing_candidate_for_eligible_family missing_candidate invalid_result : RiskError

pub data Outcome (A : Type 0) : Type 0 where
  ok : A → Outcome A
  err : RiskError → Outcome A

-- A dictionary by family, built from a list: a later entry replaces an earlier one.
abbrev pub later_or {ℓ} : {A : Type ℓ} → Option A → Bool → A → Option A
later_or (some b) here a = some b
later_or none true a = some a
later_or none false a = none

unfoldable pub policy_by_family :
    StrategyFamily → List PolicyFamilyResult → Option PolicyFamilyResult
policy_by_family family [] = none
policy_by_family family (p ∷ ps) = later_or (policy_by_family family ps) (p.family is family) p

abbrev pub is_eligible_policy : PolicyFamilyResult → Bool
is_eligible_policy p = p.verdict is PolicyFamilyVerdict.eligible_for_risk_review

-- `tuple(RiskBlockReason)`
abbrev pub reason_order : List RiskBlockReason
reason_order =
    RiskBlockReason.policy_not_eligible ∷ RiskBlockReason.zero_or_negative_risk_per_unit
    ∷ RiskBlockReason.daily_loss_limit_reached ∷ RiskBlockReason.insufficient_remaining_risk_budget
    ∷ []

-- The checks on one candidate, in the order of `_validate_candidate_inputs`.
abbrev pub check_policy : Option PolicyFamilyResult → Option RiskError
check_policy none = some RiskError.unknown_candidate_family
check_policy (some p) =
    if p.verdict is PolicyFamilyVerdict.blocked
    then some RiskError.candidate_for_blocked_family
    else none

unfoldable pub check_missing : List StrategyFamily → List PolicyFamilyResult → Option RiskError
check_missing seen [] = none
check_missing seen (p ∷ ps) =
    let rest = check_missing seen ps in
    if is_eligible_policy p && negb (member p.family seen)
    then some RiskError.missing_candidate_for_eligible_family
    else rest

abbrev pub first_error : Option RiskError → Option RiskError → Option RiskError
first_error (some e) rest = some e
first_error none rest = rest

-- The loop over the candidates, then the loop over the policy results.
unfoldable pub check_candidates :
    {Decimal : Type 0}
    → List PolicyFamilyResult
    → List StrategyFamily
    → List (CandidateRiskInput Decimal)
    → Option RiskError
check_candidates policy seen [] = check_missing seen policy
check_candidates policy seen (c ∷ cs) =
    let rest = check_candidates policy (c.family ∷ seen) cs in
    if member c.family seen
    then some RiskError.duplicate_candidate_family
    else first_error (check_policy (policy_by_family c.family policy)) rest

unfoldable pub candidate_by_family :
    {Decimal : Type 0}
    → StrategyFamily
    → List (CandidateRiskInput Decimal)
    → Option (CandidateRiskInput Decimal)
candidate_by_family family [] = none
candidate_by_family family (c ∷ cs) =
    later_or (candidate_by_family family cs) (c.family is family) c

abbrev pub blocked_by_risk :
    {Decimal : Type 0} → StrategyFamily → List RiskBlockReason → RiskFamilyResult Decimal
blocked_by_risk family reasons = record {
  family = family;
  verdict = RiskFamilyVerdict.blocked_by_risk;
  reasons = reasons;
  max_individual_risk = none;
  recommended_units = none;
}

module _ (C : DecimalContext) where
  open C use {Decimal, zero, div, le}

  -- app/money_management/sizing.py
  unfoldable pub calculate_recommended_units : Decimal → Decimal → Decimal
  calculate_recommended_units max_individual_risk risk_per_unit =
      div max_individual_risk risk_per_unit

  -- Whether a reason is in the set that `_evaluate_family` builds.
  abbrev pub in_reason_set : Decimal → Decimal → Decimal → RiskBlockReason → Bool
  in_reason_set rpu remaining available RiskBlockReason.policy_not_eligible = false
  in_reason_set rpu remaining available RiskBlockReason.zero_or_negative_risk_per_unit = le rpu zero
  in_reason_set rpu remaining available RiskBlockReason.daily_loss_limit_reached = le remaining zero
  in_reason_set rpu remaining available RiskBlockReason.insufficient_remaining_risk_budget =
      negb (le remaining zero) && le available zero

  unfoldable pub block_reasons : Decimal → Decimal → Decimal → List RiskBlockReason
  block_reasons rpu remaining available = keep (in_reason_set rpu remaining available) reason_order

  -- A candidate's result, once its reasons are known.
  abbrev pub by_reasons :
      StrategyFamily → List RiskBlockReason → Decimal → Decimal → RiskFamilyResult Decimal
  by_reasons family (r ∷ rs) max_individual_risk rpu = blocked_by_risk family (r ∷ rs)
  by_reasons family [] max_individual_risk rpu = record {
    family = family;
    verdict = RiskFamilyVerdict.eligible_for_portfolio_review;
    reasons = [];
    max_individual_risk = some max_individual_risk;
    recommended_units = some (calculate_recommended_units max_individual_risk rpu);
  }

  unfoldable pub evaluate_candidate :
      StrategyFamily
      → CandidateRiskInput Decimal
      → Decimal
      → Decimal
      → Decimal
      → RiskFamilyResult Decimal
  evaluate_candidate family candidate remaining available per_trade =
      by_reasons family (block_reasons candidate.risk_per_unit remaining available)
        (min C per_trade available) candidate.risk_per_unit

  abbrev pub evaluate_eligible :
      StrategyFamily
      → Option (CandidateRiskInput Decimal)
      → Decimal
      → Decimal
      → Decimal
      → Option (RiskFamilyResult Decimal)
  evaluate_eligible family none remaining available per_trade = none
  evaluate_eligible family (some candidate) remaining available per_trade =
      some (evaluate_candidate family candidate remaining available per_trade)

  -- `_evaluate_family`; `none` where its `assert` fails.
  unfoldable pub evaluate_family :
      PolicyFamilyResult
      → Option (CandidateRiskInput Decimal)
      → Decimal
      → Decimal
      → Decimal
      → Option (RiskFamilyResult Decimal)
  evaluate_family p candidate remaining available per_trade =
      if p.verdict is PolicyFamilyVerdict.blocked
      then some (blocked_by_risk p.family (RiskBlockReason.policy_not_eligible ∷ []))
      else evaluate_eligible p.family candidate remaining available per_trade
