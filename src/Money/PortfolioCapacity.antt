-- ===== src/Money/PortfolioCapacity.antt =====
-- The portfolio supervisor: what a family is allocated, and which families are let through
-- (app/diversification/supervisor.py).
use ai_trading_advisor.Prelude.{◌≡◌, ◌↔◌, true, false, some, Bool-cases, inl, inr, arith}
use ai_trading_advisor.Decimal.Context.{DecimalContext, OrderLaws, ShrinkLaws, lt}
use ai_trading_advisor.Money.Enums.{
  RiskFamilyVerdict, PortfolioFamilyVerdict, risk_verdict_enum, portfolio_verdict_enum,
}
use ai_trading_advisor.Money.Risk.{RiskFamilyResult}
use ai_trading_advisor.Money.Portfolio.{PortfolioFamilyResult, allocate, evaluate_family}

-- The verdict of each family, by cases in the order of the source.
abbrev pub HasCapacity :
    (C : DecimalContext) → RiskFamilyResult C.Decimal → C.Decimal → C.Decimal → Type 0
HasCapacity C r stage7 stage8 =
    (r.verdict ≡ RiskFamilyVerdict.eligible_for_portfolio_review)
    × ((lt C C.zero stage7 ≡ true) × (lt C C.zero stage8 ≡ true))

lt_le : (C : DecimalContext) → OrderLaws C → (a b : C.Decimal) → lt C a b ≡ true → C.le a b ≡ true
lt_le C laws a b h = laws.le_total b a (ground arith)

le_lt :
    (C : DecimalContext)
    → OrderLaws C
    → (a b c : C.Decimal) → C.le a b ≡ true
    → C.le c b ≡ false
    → lt C a c ≡ true
le_lt C laws a b c h k = elim (Bool-cases (C.le c a)) [
  | inl e ↦ ground (arith, laws.le_trans c a b e h)
  | inr e ↦ ground arith
]

allocate_le :
    (C : DecimalContext)
    → OrderLaws C
    → ShrinkLaws C
    → (joint total x : C.Decimal) → C.le C.zero joint ≡ true
    → C.le C.zero x ≡ true
    → C.le (allocate C joint total x) x ≡ true
unfolding allocate
allocate_le C order shrink joint total x h k = elim (Bool-cases (C.le total joint)) [
  | inl e ↦ rw e (order.le_refl x)
  | inr e ↦ rw e (
      shrink.scale_le x joint total k h (le_lt C order C.zero joint total h e)
        (order.le_total total joint e))
]

-- The allocation of a family is at most its request, when neither the joint capacity nor the
-- request is negative. The decimal context has a total order, and scaling by a quotient that is at
-- most one does not enlarge an amount.
pub evaluate_family-allocation_le :
    (C : DecimalContext)
    → OrderLaws C
    → ShrinkLaws C
    → (r : RiskFamilyResult C.Decimal) (stage7 stage8 joint total requested a : C.Decimal)
      {p : PortfolioFamilyResult C.Decimal}
    → C.le C.zero joint ≡ true
    → C.le C.zero requested ≡ true
    → r.max_individual_risk ≡ some requested
    → evaluate_family C r stage7 stage8 joint total ≡ some p
    → p.portfolio_allocated_risk ≡ some a
    → C.le a requested ≡ true
unfolding evaluate_family
evaluate_family-allocation_le C order shrink r stage7 stage8 joint total requested a h k m e g =
    ground (arith, allocate_le C order shrink joint total requested h k)

-- When the portfolio supervisor has a result for a family, the result is eligible exactly when the
-- risk gate let the family through and both shared capacities are positive.
pub evaluate_family-HasCapacity :
    (C : DecimalContext) (r : RiskFamilyResult C.Decimal) (stage7 stage8 joint total : C.Decimal)
    {p : PortfolioFamilyResult C.Decimal}
    → evaluate_family C r stage7 stage8 joint total ≡ some p
    → (p.verdict ≡ PortfolioFamilyVerdict.eligible_for_session_review)
      ↔ HasCapacity C r stage7 stage8
unfolding evaluate_family
evaluate_family-HasCapacity C r stage7 stage8 joint total e = ground arith
