-- ===== src/Money/Portfolio.antt =====
-- `PortfolioSupervisor.evaluate` (app/diversification/supervisor.py) and the result models with their
-- validators (app/core/models/portfolio_result.py).
use ai_trading_advisor.Prelude.{
  Bool, true, false, ◌&&◌, Option, none, some, List, [], ◌∷◌, map, any_of, all_of, if◌then◌else◌,
  ◌is◌, same, ◌>>=◌,
}
use ai_trading_advisor.Strategy.Enums.{StrategyFamily, family_enum}
use ai_trading_advisor.Decimal.Context.{DecimalContext, max, min, eq_option, sum_from}
use ai_trading_advisor.Money.Enums.{
  RiskFamilyVerdict, PortfolioFamilyVerdict, PortfolioGateOutcome, PortfolioBlockReason,
  risk_verdict_enum, portfolio_verdict_enum, portfolio_outcome_enum, portfolio_reason_enum,
}
use ai_trading_advisor.Money.Account.{
  AccountRiskSnapshot, TradingCycleConfig, available_new_trade_risk, percent_of,
}
use ai_trading_advisor.Money.Risk.{RiskFamilyResult, StrategyRiskResult, later_or}
use ai_trading_advisor.Money.Gate.{is_risk_eligible, is_positive, is_absent, cons_result}

pub record PortfolioFamilyResult (Decimal : Type 0) : Type 0 where
  pub family : StrategyFamily
  pub verdict : PortfolioFamilyVerdict
  pub reasons : List PortfolioBlockReason
  pub portfolio_allocated_risk : Option Decimal

pub record StrategyPortfolioResult (Decimal : Type 0) : Type 0 where
  pub strategy_risk_result : StrategyRiskResult Decimal
  pub outcome : PortfolioGateOutcome
  pub family_results : List (PortfolioFamilyResult Decimal)

abbrev pub blocked_by :
    {Decimal : Type 0} → StrategyFamily → PortfolioBlockReason → PortfolioFamilyResult Decimal
blocked_by family reason = record {
  family = family;
  verdict = PortfolioFamilyVerdict.blocked_by_portfolio;
  reasons = reason ∷ [];
  portfolio_allocated_risk = none;
}

abbrev pub is_portfolio_eligible : {Decimal : Type 0} → PortfolioFamilyResult Decimal → Bool
is_portfolio_eligible r = r.verdict is PortfolioFamilyVerdict.eligible_for_session_review

unfoldable pub outcome_of :
    {Decimal : Type 0} → List (PortfolioFamilyResult Decimal) → PortfolioGateOutcome
outcome_of results =
    if any_of is_portfolio_eligible results
    then PortfolioGateOutcome.some_eligible_for_session_review
    else PortfolioGateOutcome.no_portfolio_eligible_family

-- The requests of the eligible families, which `sum` adds up; `none` where it would meet a `None`.
unfoldable pub requests :
    {Decimal : Type 0} → List (RiskFamilyResult Decimal) → Option (List Decimal)
requests [] = some []
requests (r ∷ rs) =
    let rest = requests rs in
    if is_risk_eligible r then cons_result r.max_individual_risk rest else rest

abbrev pub add_allocation : {Decimal : Type 0} → Option Decimal → List Decimal → List Decimal
add_allocation none rest = rest
add_allocation (some a) rest = a ∷ rest

-- The allocations that are not `None`.
unfoldable pub allocations :
    {Decimal : Type 0} → List (PortfolioFamilyResult Decimal) → List Decimal
allocations [] = []
allocations (r ∷ rs) = add_allocation r.portfolio_allocated_risk (allocations rs)

-- A dictionary of the risk results by family.
unfoldable pub risk_by_family :
    {Decimal : Type 0}
    → StrategyFamily
    → List (RiskFamilyResult Decimal)
    → Option (RiskFamilyResult Decimal)
risk_by_family family [] = none
risk_by_family family (r ∷ rs) = later_or (risk_by_family family rs) (r.family is family) r

module _ (C : DecimalContext) where
  open C use {Decimal, zero, sub, mul, div, le}

  unfoldable pub remaining_portfolio_capacity :
      AccountRiskSnapshot Decimal → TradingCycleConfig Decimal → Decimal
  remaining_portfolio_capacity account config =
      let budget = percent_of C account.current_equity config.portfolio_risk_limit_percent in
      max C zero (sub budget account.current_open_risk_to_stop)

  unfoldable pub allocate : Decimal → Decimal → Decimal → Decimal
  allocate joint total requested =
      if le total joint then requested else mul requested (div joint total)

  abbrev pub evaluate_requested :
      StrategyFamily → Option Decimal → Decimal → Decimal → Option (PortfolioFamilyResult Decimal)
  evaluate_requested family none joint total = none
  evaluate_requested family (some requested) joint total = some (record {
    family = family;
    verdict = PortfolioFamilyVerdict.eligible_for_session_review;
    reasons = [];
    portfolio_allocated_risk = some (allocate joint total requested);
  })

  -- `_evaluate_family`; `none` where its `assert` fails.
  unfoldable pub evaluate_family :
      RiskFamilyResult Decimal
      → Decimal
      → Decimal
      → Decimal
      → Decimal
      → Option (PortfolioFamilyResult Decimal)
  evaluate_family r stage7 stage8 joint total =
      if r.verdict is RiskFamilyVerdict.blocked_by_risk
      then some (blocked_by r.family PortfolioBlockReason.risk_not_eligible)
      else if le stage7 zero
      then some (blocked_by r.family PortfolioBlockReason.daily_risk_capacity_exhausted)
      else if le stage8 zero
      then some (blocked_by r.family PortfolioBlockReason.global_portfolio_cap_reached)
      else evaluate_requested r.family r.max_individual_risk joint total

  unfoldable pub evaluate_families :
      Decimal
      → Decimal
      → Decimal
      → Decimal
      → List (RiskFamilyResult Decimal)
      → Option (List (PortfolioFamilyResult Decimal))
  evaluate_families stage7 stage8 joint total [] = some []
  evaluate_families stage7 stage8 joint total (r ∷ rs) =
      cons_result (evaluate_family r stage7 stage8 joint total)
        (evaluate_families stage7 stage8 joint total rs)

  abbrev pub has_allocation : PortfolioFamilyVerdict → Option Decimal → Bool
  has_allocation PortfolioFamilyVerdict.eligible_for_session_review a = is_positive C a
  has_allocation PortfolioFamilyVerdict.blocked_by_portfolio a = is_absent C a

  -- A verdict goes with no reason when it is eligible and with exactly one when it is not.
  abbrev pub has_reasons : PortfolioFamilyVerdict → List PortfolioBlockReason → Bool
  has_reasons verdict [] = verdict is PortfolioFamilyVerdict.eligible_for_session_review
  has_reasons verdict (r ∷ []) = verdict is PortfolioFamilyVerdict.blocked_by_portfolio
  has_reasons verdict (r ∷ (s ∷ rs)) = false

  -- The validators of `PortfolioFamilyResult`.
  unfoldable pub is_valid_family : PortfolioFamilyResult Decimal → Bool
  is_valid_family r =
      has_reasons r.verdict r.reasons && has_allocation r.verdict r.portfolio_allocated_risk

  abbrev pub same_result :
      PortfolioFamilyResult Decimal → Option (PortfolioFamilyResult Decimal) → Bool
  same_result r none = false
  same_result r (some e) =
      r.verdict is e.verdict
      && (same r.reasons e.reasons
          && eq_option C r.portfolio_allocated_risk e.portfolio_allocated_risk)

  abbrev pub within : Option Decimal → Option Decimal → Bool
  within none limit = true
  within (some a) none = false
  within (some a) (some limit) = le a limit

  abbrev pub limit_of : Option (RiskFamilyResult Decimal) → Option Decimal
  limit_of none = none
  limit_of (some r) = r.max_individual_risk

  abbrev pub same_families :
      List (RiskFamilyResult Decimal) → List (PortfolioFamilyResult Decimal) → Bool
  same_families risk results = same (map (λ p. p.family) results) (map (λ r. r.family) risk)

  -- The validators of `StrategyPortfolioResult`, given the capacities and the total of the requests.
  unfoldable pub is_valid_for :
      Decimal → Decimal → Decimal → Decimal → StrategyPortfolioResult Decimal → Bool
  is_valid_for stage7 stage8 joint total s =
      let risk = s.strategy_risk_result.family_results in
      let allocated = sum_from C zero (allocations s.family_results) in
      same_families risk s.family_results
      && (s.outcome is outcome_of s.family_results
          && (all_of
                (λ p. same_result p (
                  risk_by_family p.family risk >>= λ r.
                  evaluate_family r stage7 stage8 joint total))
                s.family_results
              && (all_of
                    (λ p.
                      within p.portfolio_allocated_risk (limit_of (risk_by_family p.family risk)))
                    s.family_results
                  && (le allocated stage7 && (le allocated stage8 && le allocated joint)))))

  abbrev pub checked :
      Decimal
      → Decimal
      → Decimal
      → Decimal
      → StrategyPortfolioResult Decimal
      → Option (StrategyPortfolioResult Decimal)
  checked stage7 stage8 joint total s =
      if all_of is_valid_family s.family_results && is_valid_for stage7 stage8 joint total s
      then some s
      else none

  abbrev pub joint_capacity : StrategyRiskResult Decimal → Decimal
  joint_capacity s =
      min C (available_new_trade_risk C s.account_snapshot s.trading_cycle_config)
        (remaining_portfolio_capacity s.account_snapshot s.trading_cycle_config)

  -- `PortfolioSupervisor.evaluate`; `none` where it raises.
  unfoldable pub evaluate : StrategyRiskResult Decimal → Option (StrategyPortfolioResult Decimal)
  evaluate s = do
    let stage7 = available_new_trade_risk C s.account_snapshot s.trading_cycle_config
    let stage8 = remaining_portfolio_capacity s.account_snapshot s.trading_cycle_config
    xs ← requests s.family_results
    let total = sum_from C zero xs
    results ← evaluate_families stage7 stage8 (joint_capacity s) total s.family_results
    checked stage7 stage8 (joint_capacity s) total (record {
      strategy_risk_result = s;
      outcome = outcome_of results;
      family_results = results;
    })
