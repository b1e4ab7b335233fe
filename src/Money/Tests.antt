-- ===== src/Money/Tests.antt =====
-- The theorems of the money stages at one account, in a decimal context of four places.
use ai_trading_advisor.Prelude.{
  ℕ, ◌*◌, ◌≡◌, ◌≢◌, ◌↔◌, refl, List, [], ◌∷◌, Option, some, none, true, false, Bool,
}
use ai_trading_advisor.Decimal.FixedPoint.{
  ℤ, pos, fixed_point, fixed_point-OrderLaws, fixed_point_up-PositiveLaws,
  fixed_point-DifferenceLaws, fixed_point_down-ShrinkLaws,
}
use ai_trading_advisor.Strategy.Enums.{StrategyFamily, PolicyFamilyVerdict, PolicyGateOutcome}
use ai_trading_advisor.Strategy.Policy.{PolicyFamilyResult, StrategyPolicyResult}
use ai_trading_advisor.Money.Enums.{
  RiskFamilyVerdict, PortfolioFamilyVerdict, PortfolioGateOutcome, TradingSessionStatus,
  SessionFamilyVerdict,
}
use ai_trading_advisor.Money.Account.{
  AccountRiskSnapshot, TradingCycleConfig, available_new_trade_risk, per_trade_risk_budget,
  remaining_daily_loss_capacity, is_valid_snapshot, is_valid_config,
}
use ai_trading_advisor.Money.Risk
use ai_trading_advisor.Money.Risk.{
  CandidateRiskInput, RiskFamilyResult, StrategyRiskResult, RiskError, Outcome, block_reasons,
  evaluate_candidate, calculate_recommended_units,
}
use ai_trading_advisor.Money.Gate
use ai_trading_advisor.Money.GateTotal.{evaluate-ne-missing_candidate}
use ai_trading_advisor.Money.RiskVerdicts.{
  Affordable, WithinBudget, evaluate_family-Affordable, evaluate_family-WithinBudget,
  evaluate_family-is_valid,
}
use ai_trading_advisor.Money.Portfolio
use ai_trading_advisor.Money.Portfolio.{
  PortfolioFamilyResult, StrategyPortfolioResult, requests, allocations, allocate,
}
use ai_trading_advisor.Money.PortfolioCapacity.{
  HasCapacity, evaluate_family-HasCapacity, evaluate_family-allocation_le,
}
use ai_trading_advisor.Money.Session
use ai_trading_advisor.Money.Session.{
  SessionFamilyResult, StrategySessionResult, derive_session_status,
}
use ai_trading_advisor.Money.SessionVerdicts.{
  StatusCases, derive_session_status_iff, evaluate-total, evaluate_family-active_iff,
}
use ai_trading_advisor.Samples.{judged}

-- An amount in units of 0.0001.
abbrev amount : ℕ → ℤ
amount n = pos (n * 10000)

abbrev account : AccountRiskSnapshot ℤ
account = record {
  rollover_equity = amount 10000;
  current_equity = amount 9900;
  realized_daily_pnl = ℤ.negsuc 499999;
  floating_pnl = ℤ.negsuc 499999;
  current_open_risk_to_stop = amount 50;
}

abbrev config : TradingCycleConfig ℤ
config = record {
  starting_equity = amount 10000;
  target_profit_percent = amount 2;
  daily_risk_limit_percent = amount 3;
  per_trade_risk_limit_percent = amount 1;
  portfolio_risk_limit_percent = amount 4;
  max_cycle_drawdown_percent = amount 10;
  cycle_days = 14;
}

abbrev policy : PolicyFamilyResult
policy = record {
  family = StrategyFamily.trend_following;
  verdict = PolicyFamilyVerdict.eligible_for_risk_review;
  reasons = [];
  quality_violations = [];
}

abbrev policy_result : StrategyPolicyResult
policy_result = record {
  strategy_judge_result = judged;
  outcome = PolicyGateOutcome.some_eligible_for_risk_review;
  family_results = policy ∷ [];
}

abbrev candidate : CandidateRiskInput ℤ
candidate = record { family = StrategyFamily.trend_following; risk_per_unit = amount 4 }

evaluate-ne-missing_candidate_example :
    Gate.evaluate (fixed_point true) policy_result account (candidate ∷ []) config
    ≢ Outcome.err RiskError.missing_candidate
evaluate-ne-missing_candidate_example =
    evaluate-ne-missing_candidate (fixed_point true) policy_result account (candidate ∷ []) config

-- A family's risk result whose request is `n`.
abbrev requested : StrategyFamily → ℕ → RiskFamilyResult ℤ
requested family n = record {
  family = family;
  verdict = RiskFamilyVerdict.eligible_for_portfolio_review;
  reasons = [];
  max_individual_risk = some (amount n);
  recommended_units = some (amount 25);
}

evaluate_family-Affordable_example :
    (RiskFamilyVerdict.eligible_for_portfolio_review
      ≡ RiskFamilyVerdict.eligible_for_portfolio_review)
    ↔ ((policy.verdict ≡ PolicyFamilyVerdict.eligible_for_risk_review)
        × Affordable (fixed_point true) (amount 4) (amount 200) (amount 150))
unfolding Risk.evaluate_family evaluate_candidate block_reasons
evaluate_family-Affordable_example =
    evaluate_family-Affordable (fixed_point true) policy candidate (amount 200) (amount 150)
      (amount 100) refl

evaluate_family-WithinBudget_example :
    WithinBudget
      (fixed_point true)
      (requested StrategyFamily.trend_following 100)
      (amount 4)
      (amount 150)
      (amount 100)
unfolding Risk.evaluate_family evaluate_candidate block_reasons calculate_recommended_units
evaluate_family-WithinBudget_example =
    evaluate_family-WithinBudget (fixed_point true) (fixed_point-OrderLaws true) policy candidate
      (amount 200) (amount 150) (amount 100) refl refl

evaluate_family-is_valid_example :
    Gate.is_valid_family (fixed_point true) (requested StrategyFamily.trend_following 100) ≡ true
unfolding Risk.evaluate_family evaluate_candidate block_reasons calculate_recommended_units
    is_valid_snapshot is_valid_config remaining_daily_loss_capacity available_new_trade_risk
    per_trade_risk_budget
evaluate_family-is_valid_example =
    evaluate_family-is_valid (fixed_point true) fixed_point_up-PositiveLaws policy (some candidate)
      account config refl refl refl

-- Three requests of 100 against a joint capacity of 150.
abbrev three : List (RiskFamilyResult ℤ)
three =
    requested StrategyFamily.trend_following 100
    ∷ requested StrategyFamily.breakout 100
    ∷ requested StrategyFamily.event_driven 100
    ∷ []

-- A family's portfolio result with an allocation in units of 0.0001.
abbrev allocated : StrategyFamily → ℕ → PortfolioFamilyResult ℤ
allocated family n = record {
  family = family;
  verdict = PortfolioFamilyVerdict.eligible_for_session_review;
  reasons = [];
  portfolio_allocated_risk = some (pos n);
}

-- Their allocations: 50 each.
abbrev fifties : List (PortfolioFamilyResult ℤ)
fifties =
    allocated StrategyFamily.trend_following 500000
    ∷ allocated StrategyFamily.breakout 500000
    ∷ allocated StrategyFamily.event_driven 500000
    ∷ []

three_allocated :
    Portfolio.evaluate_families
      (fixed_point false)
      (amount 150)
      (amount 300)
      (amount 150)
      (amount 300)
      three
    ≡ some fifties
unfolding Portfolio.evaluate_families Portfolio.evaluate_family allocate
three_allocated = refl

evaluate_family-allocation_le_example : (fixed_point false).le (pos 500000) (amount 100) ≡ true
unfolding Portfolio.evaluate_family allocate
evaluate_family-allocation_le_example =
    evaluate_family-allocation_le (fixed_point false) (fixed_point-OrderLaws false)
      fixed_point_down-ShrinkLaws (requested StrategyFamily.trend_following 100) (amount 150)
      (amount 300) (amount 150) (amount 300) (amount 100) (pos 500000) refl refl refl refl refl

evaluate_family-HasCapacity_example :
    (PortfolioFamilyVerdict.eligible_for_session_review
      ≡ PortfolioFamilyVerdict.eligible_for_session_review)
    ↔ HasCapacity
        (fixed_point false)
        (requested StrategyFamily.trend_following 100)
        (amount 150)
        (amount 300)
unfolding Portfolio.evaluate_family allocate
evaluate_family-HasCapacity_example =
    evaluate_family-HasCapacity (fixed_point false) (requested StrategyFamily.trend_following 100)
      (amount 150) (amount 300) (amount 150) (amount 300) refl

abbrev portfolio_result : StrategyPortfolioResult ℤ
portfolio_result = record {
  strategy_risk_result =
      Gate.assemble (fixed_point false) policy_result account (candidate ∷ []) config three;
  outcome = PortfolioGateOutcome.some_eligible_for_session_review;
  family_results = fifties;
}

evaluate-total_example :
    (rs : List (SessionFamilyResult ℤ)) × (Session.evaluate
        (fixed_point false)
        portfolio_result
        false
      ≡ some (Session.assemble (fixed_point false) portfolio_result false rs))
unfolding Portfolio.is_valid_family
evaluate-total_example =
    evaluate-total (fixed_point false) (fixed_point-OrderLaws false) portfolio_result false refl

derive_session_status_iff_example :
    (derive_session_status (fixed_point true) account config false ≡ TradingSessionStatus.active)
    ↔ StatusCases (fixed_point true) account config false TradingSessionStatus.active
unfolding is_valid_snapshot is_valid_config
derive_session_status_iff_example =
    derive_session_status_iff (fixed_point true) account config (fixed_point-OrderLaws true)
      fixed_point_up-PositiveLaws (fixed_point-DifferenceLaws true) false
      TradingSessionStatus.active refl refl

-- A loss of 300 reaches the limit of 3 per cent.
loss_of_three_percent :
    derive_session_status
      (fixed_point true)
      (record account { realized_daily_pnl = ℤ.negsuc 2499999 })
      config
      false
    ≡ TradingSessionStatus.loss_limit_reached
unfolding derive_session_status remaining_daily_loss_capacity
loss_of_three_percent = refl

-- What the session gate makes of an allocation of 50 while the session is active.
abbrev session_allocated : SessionFamilyResult ℤ
session_allocated = record {
  family = StrategyFamily.breakout;
  verdict = SessionFamilyVerdict.eligible_for_runtime_review;
  reasons = [];
  session_allocated_risk = some (pos 500000);
}

evaluate_family-active_iff_example :
    ((session_allocated.verdict ≡ SessionFamilyVerdict.eligible_for_runtime_review) ↔ (
      ((allocated StrategyFamily.breakout 500000).verdict
        ≡ PortfolioFamilyVerdict.eligible_for_session_review)
      × (TradingSessionStatus.active ≡ TradingSessionStatus.active)))
    × (session_allocated.session_allocated_risk
        ≡ (allocated StrategyFamily.breakout 500000).portfolio_allocated_risk)
unfolding Session.evaluate_family
evaluate_family-active_iff_example =
    evaluate_family-active_iff (allocated StrategyFamily.breakout 500000)
      TradingSessionStatus.active {r = session_allocated} refl

abbrev risk_result : ℕ → StrategyRiskResult ℤ
risk_result n = Gate.assemble (fixed_point true) policy_result account (candidate ∷ []) config (
    requested StrategyFamily.trend_following n
    ∷ requested StrategyFamily.breakout n
    ∷ requested StrategyFamily.event_driven n
    ∷ [])

-- Where the quotient rounds up, the scaled requests of 70 exceed the capacity of 150 together, and
-- the supervisor raises instead of returning a result.
rounding_up_refused : Portfolio.evaluate (fixed_point true) (risk_result 70) ≡ none
unfolding Portfolio.evaluate requests Portfolio.evaluate_families Portfolio.evaluate_family allocate
    Portfolio.is_valid_family Portfolio.is_valid_for available_new_trade_risk
    Portfolio.remaining_portfolio_capacity remaining_daily_loss_capacity allocations
    Portfolio.risk_by_family Portfolio.outcome_of
rounding_up_refused = refl

abbrev returned : Option (StrategyPortfolioResult ℤ) → Bool
returned none = false
returned (some s) = true

-- Requests of 100 scale by exactly one half, and the supervisor returns.
halves_returned : returned (Portfolio.evaluate (fixed_point true) (risk_result 100)) ≡ true
unfolding Portfolio.evaluate requests Portfolio.evaluate_families Portfolio.evaluate_family allocate
    Portfolio.is_valid_family Portfolio.is_valid_for available_new_trade_risk
    Portfolio.remaining_portfolio_capacity remaining_daily_loss_capacity allocations
    Portfolio.risk_by_family Portfolio.outcome_of
halves_returned = refl
