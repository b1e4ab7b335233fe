-- ===== src/Money/RiskVerdicts.antt =====
-- The risk gate: which families it lets through and how much risk they may take
-- (app/risk/engine.py).
use ai_trading_advisor.Prelude.{
  ◌≡◌, ◌↔◌, refl, true, Option, none, some, [], ◌∷◌, Bool-cases, inl, inr, arith,
}
use ai_trading_advisor.Strategy.Enums.{
  PolicyFamilyVerdict, StrategyFamily, family_enum, policy_verdict_enum,
}
use ai_trading_advisor.Strategy.Policy.{PolicyFamilyResult}
use ai_trading_advisor.Decimal.Context.{DecimalContext, OrderLaws, PositiveLaws, lt, min, max}
use ai_trading_advisor.Money.Enums.{
  RiskFamilyVerdict, RiskBlockReason, risk_verdict_enum, risk_reason_enum,
}
use ai_trading_advisor.Money.Account.{
  AccountRiskSnapshot, TradingCycleConfig, available_new_trade_risk, per_trade_risk_budget,
  remaining_daily_loss_capacity, is_valid_snapshot, is_valid_config,
}
use ai_trading_advisor.Money.Risk.{
  CandidateRiskInput, RiskFamilyResult, blocked_by_risk, block_reasons, calculate_recommended_units,
  evaluate_candidate, evaluate_family,
}
use ai_trading_advisor.Money.Gate.{is_valid_family}

-- The conditions under which a candidate of a family that the policy allows gets a budget.
abbrev pub Affordable : (C : DecimalContext) → C.Decimal → C.Decimal → C.Decimal → Type 0
Affordable C rpu remaining available =
    (lt C C.zero rpu ≡ true) × ((lt C C.zero remaining ≡ true) × (lt C C.zero available ≡ true))

-- The result of a family that has a candidate is eligible exactly when the policy did not block the
-- family, and the candidate's risk per unit, the remaining daily loss capacity and the available
-- risk are all positive.
pub evaluate_family-Affordable :
    (C : DecimalContext) (p : PolicyFamilyResult) (candidate : CandidateRiskInput C.Decimal)
    (remaining available per_trade : C.Decimal) {r : RiskFamilyResult C.Decimal}
    → evaluate_family C p (some candidate) remaining available per_trade ≡ some r
    → (r.verdict ≡ RiskFamilyVerdict.eligible_for_portfolio_review) ↔ (
        (p.verdict ≡ PolicyFamilyVerdict.eligible_for_risk_review)
        × Affordable C candidate.risk_per_unit remaining available)
unfolding evaluate_family evaluate_candidate block_reasons
evaluate_family-Affordable C p candidate remaining available per_trade e = ground arith

pub min_le_left : (C : DecimalContext) → OrderLaws C → (a b : C.Decimal) → C.le (min C a b) a ≡ true
min_le_left C laws a b = elim (Bool-cases (C.le a b)) [
  | inl e ↦ rw e (laws.le_refl a)
  | inr e ↦ rw e (laws.le_total a b e)
]

pub min_le_right :
    (C : DecimalContext) → OrderLaws C → (a b : C.Decimal) → C.le (min C a b) b ≡ true
min_le_right C laws a b = elim (Bool-cases (C.le a b)) [
  | inl e ↦ rw e e
  | inr e ↦ rw e (laws.le_refl b)
]

-- What an eligible result promises.
abbrev pub WithinBudget :
    (C : DecimalContext) → RiskFamilyResult C.Decimal → C.Decimal → C.Decimal → C.Decimal → Type 0
WithinBudget C r rpu available per_trade =
    (m : C.Decimal) × ((r.max_individual_risk ≡ some m)
      × ((C.le m per_trade ≡ true)
          × ((C.le m available ≡ true)
              × (r.recommended_units ≡ some (calculate_recommended_units C m rpu)))))

-- In a decimal context with a total order, the result of a family that has a candidate, when it is
-- eligible, carries a maximum individual risk that is at most the per-trade budget and at most the
-- available risk, and the units that this risk buys at the candidate's risk per unit.
pub evaluate_family-WithinBudget :
    (C : DecimalContext)
    → OrderLaws C
    → (p : PolicyFamilyResult) (candidate : CandidateRiskInput C.Decimal)
      (remaining available per_trade : C.Decimal) {r : RiskFamilyResult C.Decimal}
    → evaluate_family C p (some candidate) remaining available per_trade ≡ some r
    → r.verdict ≡ RiskFamilyVerdict.eligible_for_portfolio_review
    → WithinBudget C r candidate.risk_per_unit available per_trade
unfolding evaluate_family evaluate_candidate block_reasons
evaluate_family-WithinBudget C laws p candidate remaining available per_trade e v = (
  min C per_trade available,
  (
    ground arith,
    (
      min_le_left C laws per_trade available,
      (min_le_right C laws per_trade available, ground arith),
    ),
  ),
)

pub max_zero_nonneg :
    (C : DecimalContext) → OrderLaws C → (a : C.Decimal) → C.le C.zero (max C C.zero a) ≡ true
max_zero_nonneg C laws a = elim (Bool-cases (C.le a C.zero)) [
  | inl e ↦ rw e (laws.le_refl C.zero)
  | inr e ↦ rw e (laws.le_total a C.zero e)
]

min_pos :
    (C : DecimalContext) (a b : C.Decimal)
    → lt C C.zero a ≡ true
    → lt C C.zero b ≡ true
    → lt C C.zero (min C a b) ≡ true
min_pos C a b h k = ground arith

-- The per-trade budget of a valid account under a valid configuration is positive.
budget_pos :
    (C : DecimalContext)
    → PositiveLaws C
    → (account : AccountRiskSnapshot C.Decimal) (config : TradingCycleConfig C.Decimal)
    → is_valid_snapshot C account ≡ true
    → is_valid_config C config ≡ true
    → lt C C.zero (per_trade_risk_budget C account config) ≡ true
unfolding is_valid_snapshot is_valid_config per_trade_risk_budget
budget_pos C laws account config v w =
    laws.mul_pos account.rollover_equity _ (ground arith)
      (laws.div_pos config.per_trade_risk_limit_percent C.hundred (ground arith) laws.hundred_pos)

-- Units for a positive amount, at a positive risk per unit, are positive.
units_pos :
    (C : DecimalContext)
    → PositiveLaws C
    → (a rpu : C.Decimal) → lt C C.zero a ≡ true
    → lt C C.zero rpu ≡ true
    → lt C C.zero (calculate_recommended_units C a rpu) ≡ true
unfolding calculate_recommended_units
units_pos C laws a rpu h k = laws.div_pos a rpu h k

candidate-is_valid :
    (C : DecimalContext)
    → PositiveLaws C
    → (family : StrategyFamily) (candidate : CandidateRiskInput C.Decimal)
      (remaining available per_trade : C.Decimal)
    → lt C C.zero per_trade ≡ true
    → is_valid_family C (evaluate_candidate C family candidate remaining available per_trade) ≡ true
unfolding evaluate_candidate block_reasons is_valid_family
candidate-is_valid C laws family candidate remaining available per_trade h = ground (
  arith,
  units_pos C laws (min C per_trade available) candidate.risk_per_unit,
  min_pos C per_trade available h,
)

blocked-is_valid :
    (C : DecimalContext) (family : StrategyFamily)
    → is_valid_family C (blocked_by_risk family (RiskBlockReason.policy_not_eligible ∷ [])) ≡ true
unfolding is_valid_family
blocked-is_valid C family = refl

family-is_valid :
    (C : DecimalContext)
    → PositiveLaws C
    → (p : PolicyFamilyResult) (candidate : Option (CandidateRiskInput C.Decimal))
      (remaining available per_trade : C.Decimal) {r : RiskFamilyResult C.Decimal}
    → lt C C.zero per_trade ≡ true
    → evaluate_family C p candidate remaining available per_trade ≡ some r
    → is_valid_family C r ≡ true
unfolding evaluate_family
family-is_valid C laws p none remaining available per_trade h e =
    ground (arith, blocked-is_valid C p.family)
family-is_valid C laws p (some candidate) remaining available per_trade h e = ground (
  arith,
  blocked-is_valid C p.family,
  candidate-is_valid C laws p.family candidate remaining available per_trade h,
)

-- For a valid account snapshot and a valid configuration, whatever the gate computes for a family
-- passes the validators of `RiskFamilyResult`. In the decimal context, products and quotients of
-- positive numbers are positive.
pub evaluate_family-is_valid :
    (C : DecimalContext)
    → PositiveLaws C
    → (p : PolicyFamilyResult) (candidate : Option (CandidateRiskInput C.Decimal))
      (account : AccountRiskSnapshot C.Decimal) (config : TradingCycleConfig C.Decimal)
      {r : RiskFamilyResult C.Decimal}
    → is_valid_snapshot C account ≡ true
    → is_valid_config C config ≡ true
    → evaluate_family C p candidate
        (remaining_daily_loss_capacity C account config)
        (available_new_trade_risk C account config)
        (per_trade_risk_budget C account config)
      ≡ some r
    → is_valid_family C r ≡ true
evaluate_family-is_valid C laws p candidate account config v w e =
    family-is_valid C laws p candidate _ _ _ (budget_pos C laws account config v w) e
