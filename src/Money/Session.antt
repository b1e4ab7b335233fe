-- ===== src/Money/Session.antt =====
-- `SessionGate.evaluate` (app/statistics/session.py) and the result models with their validators
-- (app/core/models/session_result.py).
use ai_trading_advisor.Prelude.{
  Bool, true, false, ◌&&◌, Option, none, some, List, [], ◌∷◌, any_of, all_of, if◌then◌else◌, ◌is◌,
  same, ◌>>=◌,
}
use ai_trading_advisor.Strategy.Enums.{StrategyFamily, family_enum}
use ai_trading_advisor.Decimal.Context.{DecimalContext, eq_option}
use ai_trading_advisor.Money.Enums.{
  PortfolioFamilyVerdict, TradingSessionStatus, SessionFamilyVerdict, SessionGateOutcome,
  SessionBlockReason, portfolio_verdict_enum, session_status_enum, session_verdict_enum,
  session_outcome_enum, session_reason_enum,
}
use ai_trading_advisor.Money.Account.{
  AccountRiskSnapshot, TradingCycleConfig, percent_of, remaining_daily_loss_capacity,
}
use ai_trading_advisor.Money.Gate.{is_positive, is_absent, cons_result}
use ai_trading_advisor.Money.Portfolio.{PortfolioFamilyResult, StrategyPortfolioResult}

pub record SessionFamilyResult (Decimal : Type 0) : Type 0 where
  pub family : StrategyFamily
  pub verdict : SessionFamilyVerdict
  pub reasons : List SessionBlockReason
  pub session_allocated_risk : Option Decimal

pub record StrategySessionResult (Decimal : Type 0) : Type 0 where
  pub strategy_portfolio_result : StrategyPortfolioResult Decimal
  pub locked_override : Bool
  pub session_status : TradingSessionStatus
  pub outcome : SessionGateOutcome
  pub family_results : List (SessionFamilyResult Decimal)

-- `_SESSION_REASON_BY_STATUS`; `none` is its `KeyError`.
abbrev pub reason_by_status : TradingSessionStatus → Option SessionBlockReason
reason_by_status TradingSessionStatus.locked = some SessionBlockReason.session_locked
reason_by_status TradingSessionStatus.loss_limit_reached =
    some SessionBlockReason.loss_limit_reached
reason_by_status TradingSessionStatus.target_reached = some SessionBlockReason.target_reached
reason_by_status TradingSessionStatus.active = none
reason_by_status TradingSessionStatus.reduced_risk = none
reason_by_status TradingSessionStatus.capital_preservation = none

-- `_V1_REACHABLE_STATUSES`
abbrev pub is_reachable : TradingSessionStatus → Bool
is_reachable TradingSessionStatus.active = true
is_reachable TradingSessionStatus.loss_limit_reached = true
is_reachable TradingSessionStatus.target_reached = true
is_reachable TradingSessionStatus.locked = true
is_reachable TradingSessionStatus.reduced_risk = false
is_reachable TradingSessionStatus.capital_preservation = false

abbrev pub blocked_by :
    {Decimal : Type 0} → StrategyFamily → SessionBlockReason → SessionFamilyResult Decimal
blocked_by family reason = record {
  family = family;
  verdict = SessionFamilyVerdict.blocked_by_session;
  reasons = reason ∷ [];
  session_allocated_risk = none;
}

abbrev pub blocked_by_status :
    {Decimal : Type 0}
    → StrategyFamily
    → Option SessionBlockReason
    → Option (SessionFamilyResult Decimal)
blocked_by_status family none = none
blocked_by_status family (some reason) = some (blocked_by family reason)

-- `_evaluate_family`
unfoldable pub evaluate_family :
    {Decimal : Type 0}
    → PortfolioFamilyResult Decimal
    → TradingSessionStatus
    → Option (SessionFamilyResult Decimal)
evaluate_family p status =
    if p.verdict is PortfolioFamilyVerdict.blocked_by_portfolio
    then some (blocked_by p.family SessionBlockReason.portfolio_not_eligible)
    else if status is TradingSessionStatus.active
    then some (record {
      family = p.family;
      verdict = SessionFamilyVerdict.eligible_for_runtime_review;
      reasons = [];
      session_allocated_risk = p.portfolio_allocated_risk;
    })
    else blocked_by_status p.family (reason_by_status status)

unfoldable pub evaluate_families :
    {Decimal : Type 0}
    → TradingSessionStatus
    → List (PortfolioFamilyResult Decimal)
    → Option (List (SessionFamilyResult Decimal))
evaluate_families status [] = some []
evaluate_families status (p ∷ ps) =
    cons_result (evaluate_family p status) (evaluate_families status ps)

unfoldable pub outcome_of :
    {Decimal : Type 0} → List (SessionFamilyResult Decimal) → SessionGateOutcome
outcome_of results =
    if any_of (λ r. r.verdict is SessionFamilyVerdict.eligible_for_runtime_review) results
    then SessionGateOutcome.some_eligible_for_runtime_review
    else SessionGateOutcome.no_session_eligible_family

module _ (C : DecimalContext) where
  open C use {Decimal, zero, sub, le}

  -- `_derive_session_status`
  unfoldable pub derive_session_status :
      AccountRiskSnapshot Decimal → TradingCycleConfig Decimal → Bool → TradingSessionStatus
  derive_session_status account config locked_override =
      if locked_override
      then TradingSessionStatus.locked
      else if le (remaining_daily_loss_capacity C account config) zero
      then TradingSessionStatus.loss_limit_reached
      else if le (percent_of C account.rollover_equity config.target_profit_percent)
          (sub account.current_equity account.rollover_equity)
      then TradingSessionStatus.target_reached
      else TradingSessionStatus.active

  abbrev pub has_allocation : SessionFamilyVerdict → Option Decimal → Bool
  has_allocation SessionFamilyVerdict.eligible_for_runtime_review a = is_positive C a
  has_allocation SessionFamilyVerdict.blocked_by_session a = is_absent C a

  abbrev pub has_reasons : SessionFamilyVerdict → List SessionBlockReason → Bool
  has_reasons verdict [] = verdict is SessionFamilyVerdict.eligible_for_runtime_review
  has_reasons verdict (r ∷ []) = verdict is SessionFamilyVerdict.blocked_by_session
  has_reasons verdict (r ∷ (s ∷ rs)) = false

  -- The validators of `SessionFamilyResult`.
  unfoldable pub is_valid_family : SessionFamilyResult Decimal → Bool
  is_valid_family r =
      has_reasons r.verdict r.reasons && has_allocation r.verdict r.session_allocated_risk

  abbrev pub same_result : SessionFamilyResult Decimal → Option (SessionFamilyResult Decimal) → Bool
  same_result r none = false
  same_result r (some e) =
      r.verdict is e.verdict
      && (same r.reasons e.reasons && eq_option C r.session_allocated_risk e.session_allocated_risk)

  -- The validators of `StrategySessionResult` that compare it with the portfolio results.
  unfoldable pub all_match :
      TradingSessionStatus
      → List (PortfolioFamilyResult Decimal)
      → List (SessionFamilyResult Decimal)
      → Bool
  all_match status [] [] = true
  all_match status (p ∷ ps) (r ∷ rs) =
      r.family is p.family && (same_result r (evaluate_family p status) && all_match status ps rs)
  all_match status _ _ = false

  abbrev pub status_of : StrategyPortfolioResult Decimal → Bool → TradingSessionStatus
  status_of portfolio locked_override =
      derive_session_status portfolio.strategy_risk_result.account_snapshot
        portfolio.strategy_risk_result.trading_cycle_config locked_override

  -- The validators of `StrategySessionResult`.
  unfoldable pub is_valid : StrategySessionResult Decimal → Bool
  is_valid s =
      is_reachable s.session_status
      && (s.session_status is status_of s.strategy_portfolio_result s.locked_override
          && (s.outcome is outcome_of s.family_results
              && all_match s.session_status s.strategy_portfolio_result.family_results
                  s.family_results))

  abbrev pub checked : StrategySessionResult Decimal → Option (StrategySessionResult Decimal)
  checked s = if all_of is_valid_family s.family_results && is_valid s then some s else none

  abbrev pub assemble :
      StrategyPortfolioResult Decimal
      → Bool
      → List (SessionFamilyResult Decimal)
      → StrategySessionResult Decimal
  assemble portfolio locked_override results = record {
    strategy_portfolio_result = portfolio;
    locked_override = locked_override;
    session_status = status_of portfolio locked_override;
    outcome = outcome_of results;
    family_results = results;
  }

  -- `SessionGate.evaluate`; `none` where it raises.
  unfoldable pub evaluate :
      StrategyPortfolioResult Decimal → Bool → Option (StrategySessionResult Decimal)
  evaluate portfolio locked_override = do
    results ← evaluate_families (status_of portfolio locked_override) portfolio.family_results
    checked (assemble portfolio locked_override results)
