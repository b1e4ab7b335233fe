-- ===== src/Money/Enums.antt =====
-- The enumerations of the money stages (app/core/enums/risk_gate.py, portfolio.py, session.py,
-- session_gate.py). Members keep the declaration order of the source.
use ai_trading_advisor.Prelude.{ℕ, ◌≡◌, arith, Enum}

pub data RiskFamilyVerdict : Type 0 where
  eligible_for_portfolio_review blocked_by_risk : RiskFamilyVerdict

abbrev pub risk_verdict_index : RiskFamilyVerdict → ℕ
risk_verdict_index RiskFamilyVerdict.eligible_for_portfolio_review = 0
risk_verdict_index RiskFamilyVerdict.blocked_by_risk = 1

pub risk_verdict_index_injective :
    (a b : RiskFamilyVerdict) → risk_verdict_index a ≡ risk_verdict_index b → a ≡ b
risk_verdict_index_injective a b h = ground arith

instance abbrev pub risk_verdict_enum : Enum RiskFamilyVerdict
risk_verdict_enum = record {
  index = risk_verdict_index;
  index_injective = risk_verdict_index_injective;
}

pub data RiskGateOutcome : Type 0 where
  some_eligible_for_portfolio_review no_risk_eligible_family : RiskGateOutcome

abbrev pub risk_outcome_index : RiskGateOutcome → ℕ
risk_outcome_index RiskGateOutcome.some_eligible_for_portfolio_review = 0
risk_outcome_index RiskGateOutcome.no_risk_eligible_family = 1

pub risk_outcome_index_injective :
    (a b : RiskGateOutcome) → risk_outcome_index a ≡ risk_outcome_index b → a ≡ b
risk_outcome_index_injective a b h = ground arith

instance abbrev pub risk_outcome_enum : Enum RiskGateOutcome
risk_outcome_enum = record {
  index = risk_outcome_index;
  index_injective = risk_outcome_index_injective;
}

pub data RiskBlockReason : Type 0 where
  policy_not_eligible zero_or_negative_risk_per_unit daily_loss_limit_reached
        insufficient_remaining_risk_budget :
      RiskBlockReason

abbrev pub risk_reason_index : RiskBlockReason → ℕ
risk_reason_index RiskBlockReason.policy_not_eligible = 0
risk_reason_index RiskBlockReason.zero_or_negative_risk_per_unit = 1
risk_reason_index RiskBlockReason.daily_loss_limit_reached = 2
risk_reason_index RiskBlockReason.insufficient_remaining_risk_budget = 3

pub risk_reason_index_injective :
    (a b : RiskBlockReason) → risk_reason_index a ≡ risk_reason_index b → a ≡ b
risk_reason_index_injective a b h = ground arith

instance abbrev pub risk_reason_enum : Enum RiskBlockReason
risk_reason_enum = record {
  index = risk_reason_index;
  index_injective = risk_reason_index_injective;
}

pub data PortfolioFamilyVerdict : Type 0 where
  eligible_for_session_review blocked_by_portfolio : PortfolioFamilyVerdict

abbrev pub portfolio_verdict_index : PortfolioFamilyVerdict → ℕ
portfolio_verdict_index PortfolioFamilyVerdict.eligible_for_session_review = 0
portfolio_verdict_index PortfolioFamilyVerdict.blocked_by_portfolio = 1

pub portfolio_verdict_index_injective :
    (a b : PortfolioFamilyVerdict) → portfolio_verdict_index a ≡ portfolio_verdict_index b → a ≡ b
portfolio_verdict_index_injective a b h = ground arith

instance abbrev pub portfolio_verdict_enum : Enum PortfolioFamilyVerdict
portfolio_verdict_enum = record {
  index = portfolio_verdict_index;
  index_injective = portfolio_verdict_index_injective;
}

pub data PortfolioGateOutcome : Type 0 where
  some_eligible_for_session_review no_portfolio_eligible_family : PortfolioGateOutcome

abbrev pub portfolio_outcome_index : PortfolioGateOutcome → ℕ
portfolio_outcome_index PortfolioGateOutcome.some_eligible_for_session_review = 0
portfolio_outcome_index PortfolioGateOutcome.no_portfolio_eligible_family = 1

pub portfolio_outcome_index_injective :
    (a b : PortfolioGateOutcome) → portfolio_outcome_index a ≡ portfolio_outcome_index b → a ≡ b
portfolio_outcome_index_injective a b h = ground arith

instance abbrev pub portfolio_outcome_enum : Enum PortfolioGateOutcome
portfolio_outcome_enum = record {
  index = portfolio_outcome_index;
  index_injective = portfolio_outcome_index_injective;
}

pub data PortfolioBlockReason : Type 0 where
  risk_not_eligible daily_risk_capacity_exhausted global_portfolio_cap_reached :
      PortfolioBlockReason

abbrev pub portfolio_reason_index : PortfolioBlockReason → ℕ
portfolio_reason_index PortfolioBlockReason.risk_not_eligible = 0
portfolio_reason_index PortfolioBlockReason.daily_risk_capacity_exhausted = 1
portfolio_reason_index PortfolioBlockReason.global_portfolio_cap_reached = 2

pub portfolio_reason_index_injective :
    (a b : PortfolioBlockReason) → portfolio_reason_index a ≡ portfolio_reason_index b → a ≡ b
portfolio_reason_index_injective a b h = ground arith

instance abbrev pub portfolio_reason_enum : Enum PortfolioBlockReason
portfolio_reason_enum = record {
  index = portfolio_reason_index;
  index_injective = portfolio_reason_index_injective;
}

pub data TradingSessionStatus : Type 0 where
  active reduced_risk capital_preservation target_reached loss_limit_reached locked :
      TradingSessionStatus

abbrev pub session_status_index : TradingSessionStatus → ℕ
session_status_index TradingSessionStatus.active = 0
session_status_index TradingSessionStatus.reduced_risk = 1
session_status_index TradingSessionStatus.capital_preservation = 2
session_status_index TradingSessionStatus.target_reached = 3
session_status_index TradingSessionStatus.loss_limit_reached = 4
session_status_index TradingSessionStatus.locked = 5

pub session_status_index_injective :
    (a b : TradingSessionStatus) → session_status_index a ≡ session_status_index b → a ≡ b
session_status_index_injective a b h = ground arith

instance abbrev pub session_status_enum : Enum TradingSessionStatus
session_status_enum = record {
  index = session_status_index;
  index_injective = session_status_index_injective;
}

pub data SessionFamilyVerdict : Type 0 where
  eligible_for_runtime_review blocked_by_session : SessionFamilyVerdict

abbrev pub session_verdict_index : SessionFamilyVerdict → ℕ
session_verdict_index SessionFamilyVerdict.eligible_for_runtime_review = 0
session_verdict_index SessionFamilyVerdict.blocked_by_session = 1

pub session_verdict_index_injective :
    (a b : SessionFamilyVerdict) → session_verdict_index a ≡ session_verdict_index b → a ≡ b
session_verdict_index_injective a b h = ground arith

instance abbrev pub session_verdict_enum : Enum SessionFamilyVerdict
session_verdict_enum = record {
  index = session_verdict_index;
  index_injective = session_verdict_index_injective;
}

pub data SessionGateOutcome : Type 0 where
  some_eligible_for_runtime_review no_session_eligible_family : SessionGateOutcome

abbrev pub session_outcome_index : SessionGateOutcome → ℕ
session_outcome_index SessionGateOutcome.some_eligible_for_runtime_review = 0
session_outcome_index SessionGateOutcome.no_session_eligible_family = 1

pub session_outcome_index_injective :
    (a b : SessionGateOutcome) → session_outcome_index a ≡ session_outcome_index b → a ≡ b
session_outcome_index_injective a b h = ground arith

instance abbrev pub session_outcome_enum : Enum SessionGateOutcome
session_outcome_enum = record {
  index = session_outcome_index;
  index_injective = session_outcome_index_injective;
}

pub data SessionBlockReason : Type 0 where
  portfolio_not_eligible session_locked loss_limit_reached target_reached : SessionBlockReason

abbrev pub session_reason_index : SessionBlockReason → ℕ
session_reason_index SessionBlockReason.portfolio_not_eligible = 0
session_reason_index SessionBlockReason.session_locked = 1
session_reason_index SessionBlockReason.loss_limit_reached = 2
session_reason_index SessionBlockReason.target_reached = 3

pub session_reason_index_injective :
    (a b : SessionBlockReason) → session_reason_index a ≡ session_reason_index b → a ≡ b
session_reason_index_injective a b h = ground arith

instance abbrev pub session_reason_enum : Enum SessionBlockReason
session_reason_enum = record {
  index = session_reason_index;
  index_injective = session_reason_index_injective;
}
