-- ===== src/Money/Gate.antt =====
-- `RiskGate.evaluate` (app/risk/engine.py) and the validators of `RiskFamilyResult` and
-- `StrategyRiskResult` (app/core/models/risk_gate_result.py).
use ai_trading_advisor.Prelude.{
  Bool, true, false, ◌&&◌, Option, none, some, List, [], ◌∷◌, map, any_of, all_of, keep,
  if◌then◌else◌, negb, ◌is◌, member, same, is_sorted, no_duplicates,
}
use ai_trading_advisor.Strategy.Enums.{family_enum, family_index, policy_verdict_enum}
use ai_trading_advisor.Strategy.Router.{is_empty}
use ai_trading_advisor.Strategy.Policy.{PolicyFamilyResult, StrategyPolicyResult}
use ai_trading_advisor.Decimal.Context.{DecimalContext, lt, eq_option}
use ai_trading_advisor.Money.Enums.{
  RiskFamilyVerdict, RiskGateOutcome, RiskBlockReason, risk_verdict_enum, risk_outcome_enum,
  risk_reason_enum, risk_reason_index,
}
use ai_trading_advisor.Money.Account.{
  AccountRiskSnapshot, TradingCycleConfig, remaining_daily_loss_capacity, available_new_trade_risk,
  per_trade_risk_budget,
}
use ai_trading_advisor.Money.Risk.{
  CandidateRiskInput, RiskFamilyResult, StrategyRiskResult, RiskError, Outcome, ok, err,
  is_eligible_policy, check_candidates, candidate_by_family, evaluate_family,
}

abbrev pub is_risk_eligible : {Decimal : Type 0} → RiskFamilyResult Decimal → Bool
is_risk_eligible r = r.verdict is RiskFamilyVerdict.eligible_for_portfolio_review

unfoldable pub outcome_of : {Decimal : Type 0} → List (RiskFamilyResult Decimal) → RiskGateOutcome
outcome_of results =
    if any_of is_risk_eligible results
    then RiskGateOutcome.some_eligible_for_portfolio_review
    else RiskGateOutcome.no_risk_eligible_family

-- `_validate_candidate_inputs_match_eligible_families`: the two sets of families are equal.
abbrev pub covers_eligible :
    {Decimal : Type 0} → List PolicyFamilyResult → List (CandidateRiskInput Decimal) → Bool
covers_eligible policy candidates =
    let eligible = map (λ (p : PolicyFamilyResult). p.family) (keep is_eligible_policy policy) in
    let supplied = map (λ c. c.family) candidates in
    all_of (λ f. member f eligible) supplied && all_of (λ f. member f supplied) eligible

-- Prepends a family's result unless an earlier step failed.
abbrev pub cons_result : {A : Type 0} → Option A → Option (List A) → Option (List A)
cons_result (some a) (some as_) = some (a ∷ as_)
cons_result _ _ = none

module _ (C : DecimalContext) where
  open C use {Decimal, zero}

  abbrev pub is_positive : Option Decimal → Bool
  is_positive none = false
  is_positive (some d) = lt C zero d

  abbrev pub is_absent : Option Decimal → Bool
  is_absent none = true
  is_absent (some d) = false

  -- `_validate_sizing_fields`
  abbrev pub has_sizing : RiskFamilyVerdict → Option Decimal → Option Decimal → Bool
  has_sizing RiskFamilyVerdict.eligible_for_portfolio_review risk units =
      is_positive risk && is_positive units
  has_sizing RiskFamilyVerdict.blocked_by_risk risk units = is_absent risk && is_absent units

  -- The validators of `RiskFamilyResult`.
  unfoldable pub is_valid_family : RiskFamilyResult Decimal → Bool
  is_valid_family r =
      r.verdict is (
        if is_empty r.reasons
        then RiskFamilyVerdict.eligible_for_portfolio_review
        else RiskFamilyVerdict.blocked_by_risk)
      && ((is_sorted (map risk_reason_index r.reasons)
            && no_duplicates (map risk_reason_index r.reasons))
          && (negb (
                member RiskBlockReason.policy_not_eligible r.reasons
                && negb (same r.reasons (RiskBlockReason.policy_not_eligible ∷ [])))
              && (negb (
                    member RiskBlockReason.daily_loss_limit_reached r.reasons
                    && member RiskBlockReason.insufficient_remaining_risk_budget r.reasons)
                  && has_sizing r.verdict r.max_individual_risk r.recommended_units)))

  abbrev pub same_result : RiskFamilyResult Decimal → Option (RiskFamilyResult Decimal) → Bool
  same_result r none = false
  same_result r (some e) =
      (r.verdict is e.verdict && same r.reasons e.reasons)
      && (eq_option C r.max_individual_risk e.max_individual_risk
          && eq_option C r.recommended_units e.recommended_units)

  -- `_validate_family_results_match_policy_family_results` and `_validate_family_verdicts`. The latter
  -- leaves the sizing fields of a blocked family to `_validate_sizing_fields`, which wants none.
  unfoldable pub all_match :
      List (CandidateRiskInput Decimal)
      → Decimal
      → Decimal
      → Decimal
      → List PolicyFamilyResult
      → List (RiskFamilyResult Decimal)
      → Bool
  all_match candidates remaining available per_trade [] [] = true
  all_match candidates remaining available per_trade (p ∷ ps) (r ∷ rs) =
      r.family is p.family
      && (same_result r (
            evaluate_family C p (candidate_by_family p.family candidates) remaining available
              per_trade)
          && all_match candidates remaining available per_trade ps rs)
  all_match candidates remaining available per_trade _ _ = false

  -- The validators of `StrategyRiskResult`.
  unfoldable pub is_valid : StrategyRiskResult Decimal → Bool
  is_valid s =
      let policy = s.strategy_policy_result.family_results in
      no_duplicates (map (λ c. family_index c.family) s.candidate_inputs)
      && (covers_eligible policy s.candidate_inputs
          && (s.outcome is outcome_of s.family_results
              && all_match s.candidate_inputs
                  (remaining_daily_loss_capacity C s.account_snapshot s.trading_cycle_config)
                  (available_new_trade_risk C s.account_snapshot s.trading_cycle_config)
                  (per_trade_risk_budget C s.account_snapshot s.trading_cycle_config) policy
                  s.family_results))

  -- The results of the families in the order of the policy results; `none` where an `assert` fails.
  unfoldable pub evaluate_families :
      List (CandidateRiskInput Decimal)
      → Decimal
      → Decimal
      → Decimal
      → List PolicyFamilyResult
      → Option (List (RiskFamilyResult Decimal))
  evaluate_families candidates remaining available per_trade [] = some []
  evaluate_families candidates remaining available per_trade (p ∷ ps) =
      cons_result
        (evaluate_family C p (candidate_by_family p.family candidates) remaining available
          per_trade)
        (evaluate_families candidates remaining available per_trade ps)

  abbrev pub assemble :
      StrategyPolicyResult
      → AccountRiskSnapshot Decimal
      → List (CandidateRiskInput Decimal)
      → TradingCycleConfig Decimal
      → List (RiskFamilyResult Decimal)
      → StrategyRiskResult Decimal
  assemble policy account candidates config results = record {
    strategy_policy_result = policy;
    trading_cycle_config = config;
    account_snapshot = account;
    candidate_inputs = candidates;
    outcome = outcome_of results;
    family_results = results;
  }

  -- A constructor of the result models raises unless its validators pass.
  abbrev pub construct :
      StrategyPolicyResult
      → AccountRiskSnapshot Decimal
      → List (CandidateRiskInput Decimal)
      → TradingCycleConfig Decimal
      → Option (List (RiskFamilyResult Decimal))
      → Outcome (StrategyRiskResult Decimal)
  construct policy account candidates config none = err RiskError.missing_candidate
  construct policy account candidates config (some results) =
      if all_of is_valid_family results
        && is_valid (assemble policy account candidates config results)
      then ok (assemble policy account candidates config results)
      else err RiskError.invalid_result

  abbrev pub after_checks :
      Option RiskError → Outcome (StrategyRiskResult Decimal) → Outcome (StrategyRiskResult Decimal)
  after_checks (some e) result = err e
  after_checks none result = result

  -- `RiskGate.evaluate`
  unfoldable pub evaluate :
      StrategyPolicyResult
      → AccountRiskSnapshot Decimal
      → List (CandidateRiskInput Decimal)
      → TradingCycleConfig Decimal
      → Outcome (StrategyRiskResult Decimal)
  evaluate policy account candidates config =
      after_checks (check_candidates policy.family_results [] candidates) (
        construct policy account candidates config (
          evaluate_families candidates (remaining_daily_loss_capacity C account config)
            (available_new_trade_risk C account config) (per_trade_risk_budget C account config)
            policy.family_results))
