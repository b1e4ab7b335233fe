-- ===== src/Money/SessionVerdicts.antt =====
-- The session gate: it always produces its result, and it passes allocations on unchanged while the
-- session is active (app/statistics/session.py).
use ai_trading_advisor.Prelude.{
  ◌≡◌, ◌↔◌, refl, Bool, true, false, Option, none, some, List, [], ◌∷◌, all_of, if◌then◌else◌, ◌is◌,
  is_refl, same_refl, ◌∙◌, Bool-cases, &&-intro, &&-left, &&-right, Option-cases, inl, inr, arith,
}
use ai_trading_advisor.Strategy.Enums.{family_enum}
use ai_trading_advisor.Decimal.Context.{
  DecimalContext, OrderLaws, PositiveLaws, DifferenceLaws, eq_option, lt, max,
}
use ai_trading_advisor.Money.Enums.{
  PortfolioFamilyVerdict, TradingSessionStatus, SessionFamilyVerdict, portfolio_verdict_enum,
  session_status_enum, session_verdict_enum, session_outcome_enum, session_reason_enum,
}
use ai_trading_advisor.Money.Account.{
  AccountRiskSnapshot, TradingCycleConfig, is_valid_snapshot, is_valid_config,
  remaining_daily_loss_capacity,
}
use ai_trading_advisor.Money.Portfolio.{PortfolioFamilyResult, StrategyPortfolioResult}
use ai_trading_advisor.Money.Portfolio
use ai_trading_advisor.Money.Session.{
  SessionFamilyResult, is_reachable, evaluate_family, evaluate_families, derive_session_status,
  is_valid_family, all_match, status_of, is_valid, assemble, evaluate, same_result,
}

module _ (C : DecimalContext) (account : AccountRiskSnapshot C.Decimal)
    (config : TradingCycleConfig C.Decimal) where
  open C use {Decimal, zero, hundred, add, sub, mul, div, neg, le}

  -- The loss that a day may make, and the result that it aims for.
  abbrev pub loss_limit : Decimal
  loss_limit = mul account.rollover_equity (div config.daily_risk_limit_percent hundred)

  abbrev pub target : Decimal
  target = mul account.rollover_equity (div config.target_profit_percent hundred)

  -- The loss that the day has made, booked and floating; negative for a profit.
  abbrev pub loss : Decimal
  loss = neg (add account.realized_daily_pnl account.floating_pnl)

  abbrev pub gain : Decimal
  gain = sub account.current_equity account.rollover_equity

  -- The statuses by the loss and the gain of the day.
  abbrev pub StatusCases : Bool → TradingSessionStatus → Type 0
  StatusCases locked_override TradingSessionStatus.locked = locked_override ≡ true
  StatusCases locked_override TradingSessionStatus.loss_limit_reached =
      (locked_override ≡ false) × (le loss_limit loss ≡ true)
  StatusCases locked_override TradingSessionStatus.target_reached =
      (locked_override ≡ false) × ((le loss_limit loss ≡ false) × (le target gain ≡ true))
  StatusCases locked_override TradingSessionStatus.active =
      (locked_override ≡ false) × ((le loss_limit loss ≡ false) × (le target gain ≡ false))
  StatusCases locked_override TradingSessionStatus.reduced_risk = ⊥
  StatusCases locked_override TradingSessionStatus.capital_preservation = ⊥

  loss_limit_pos :
      PositiveLaws C
      → is_valid_snapshot C account ≡ true
      → is_valid_config C config ≡ true
      → lt C zero loss_limit ≡ true
  unfolding is_valid_snapshot is_valid_config
  loss_limit_pos laws va vc =
      laws.mul_pos account.rollover_equity (div config.daily_risk_limit_percent hundred)
        (ground (arith, va))
        (laws.div_pos config.daily_risk_limit_percent hundred (ground (arith, vc)) laws.hundred_pos)

  -- A positive limit is reached by the loss exactly when it is by the loss or zero, whichever is more.
  reached_by_max :
      OrderLaws C
      → (limit x : Decimal) → lt C zero limit ≡ true
      → le limit (max C zero x) ≡ le limit x
  reached_by_max order limit x h = elim (Bool-cases (le x zero)) [
    | inr e ↦ rw e refl
    | inl e ↦ elim (Bool-cases (le limit x)) [
      | inl f ↦ absurd (ground (arith, order.le_trans limit x zero f e, h))
      | inr f ↦ ground (arith, e, f, h)
    ]
  ]

  exhausted_iff : OrderLaws C → (x : Decimal) → le (max C zero x) zero ≡ le x zero
  exhausted_iff order x = elim (Bool-cases (le x zero)) [
    | inl e ↦ rw e (order.le_refl zero)
    | inr e ↦ rw (e, e) refl
  ]

  -- No capacity remains exactly when the loss has reached the limit.
  remaining_exhausted :
      OrderLaws C
      → DifferenceLaws C
      → lt C zero loss_limit ≡ true
      → le (remaining_daily_loss_capacity C account config) zero ≡ le loss_limit loss
  unfolding remaining_daily_loss_capacity
  remaining_exhausted order laws h =
      exhausted_iff order (sub loss_limit (max C zero loss))
      ∙ laws.sub_le_zero loss_limit (max C zero loss)
      ∙ reached_by_max order loss_limit loss h

  -- The chain of tests, given the outcome of the second.
  status_iff :
      (capacity : Decimal) (l : Bool) (status : TradingSessionStatus)
      → le capacity zero ≡ le loss_limit loss
      → ((if l
            then TradingSessionStatus.locked
            else if le capacity zero
            then TradingSessionStatus.loss_limit_reached
            else if le target gain
            then TradingSessionStatus.target_reached
            else TradingSessionStatus.active)
          ≡ status)
        ↔ StatusCases l status
  status_iff capacity l TradingSessionStatus.active e = rw e (ground arith)
  status_iff capacity l TradingSessionStatus.reduced_risk e = rw e (ground arith)
  status_iff capacity l TradingSessionStatus.capital_preservation e = rw e (ground arith)
  status_iff capacity l TradingSessionStatus.target_reached e = rw e (ground arith)
  status_iff capacity l TradingSessionStatus.loss_limit_reached e = rw e (ground arith)
  status_iff capacity l TradingSessionStatus.locked e = rw e (ground arith)

  -- For an account and a configuration that pass their validators, in a context with a total order
  -- whose products and quotients of positive numbers are positive and whose differences have the
  -- sign of the comparison, the session is `LOCKED` exactly under the operator lock; else
  -- `LOSS_LIMIT_REACHED` exactly when the day's loss, booked and floating, is at least the daily
  -- limit, the given percentage of the rollover equity; else `TARGET_REACHED` exactly when the
  -- equity gained since rollover is at least the target; else `ACTIVE`. `REDUCED_RISK` and
  -- `CAPITAL_PRESERVATION` never occur.
  pub derive_session_status_iff :
      OrderLaws C
      → PositiveLaws C
      → DifferenceLaws C
      → (locked_override : Bool) (status : TradingSessionStatus)
      → is_valid_snapshot C account ≡ true
      → is_valid_config C config ≡ true
      → (derive_session_status C account config locked_override ≡ status)
        ↔ StatusCases locked_override status
  unfolding derive_session_status
  derive_session_status_iff order positive laws l status va vc =
      let e = remaining_exhausted order laws (loss_limit_pos positive va vc) in
      status_iff (remaining_daily_loss_capacity C account config) l status e

status_reachable :
    (C : DecimalContext) (account : AccountRiskSnapshot C.Decimal)
    (config : TradingCycleConfig C.Decimal) (locked_override : Bool)
    → is_reachable (derive_session_status C account config locked_override) ≡ true
unfolding derive_session_status
status_reachable C account config l = ground arith

eq_option_refl :
    (C : DecimalContext) → OrderLaws C → (a : Option C.Decimal) → eq_option C a a ≡ true
eq_option_refl C laws none = refl
eq_option_refl C laws (some a) = &&-intro _ _ (laws.le_refl a) (laws.le_refl a)

same_result_refl :
    (C : DecimalContext)
    → OrderLaws C
    → (r : SessionFamilyResult C.Decimal) → same_result C r (some r) ≡ true
same_result_refl C laws r =
    &&-intro _ _ (is_refl (r.verdict))
      (&&-intro _ _ (same_refl (r.reasons)) (eq_option_refl C laws (r.session_allocated_risk)))

-- What the gate computes for one family of a valid portfolio result.
abbrev Settled :
    (C : DecimalContext)
    → PortfolioFamilyResult C.Decimal
    → TradingSessionStatus
    → SessionFamilyResult C.Decimal
    → Type 0
Settled C p status r =
    (evaluate_family p status ≡ some r) × ((is_valid_family C r ≡ true) × (r.family ≡ p.family))

family-defined :
    {Decimal : Type 0} (p : PortfolioFamilyResult Decimal) (status : TradingSessionStatus)
    → is_reachable status ≡ true
    → (r : SessionFamilyResult Decimal) × (evaluate_family p status ≡ some r)
unfolding evaluate_family
family-defined p status h = elim (Option-cases (evaluate_family p status)) [
  | inl e ↦ ground arith
  | inr (r, e) ↦ (r, e)
]

family-is_valid :
    (C : DecimalContext) (p : PortfolioFamilyResult C.Decimal) (status : TradingSessionStatus)
    {r : SessionFamilyResult C.Decimal}
    → Portfolio.is_valid_family C p ≡ true
    → evaluate_family p status ≡ some r
    → is_valid_family C r ≡ true
unfolding evaluate_family is_valid_family Portfolio.is_valid_family
family-is_valid C p status v e = ground arith

family-family :
    {Decimal : Type 0} (p : PortfolioFamilyResult Decimal) (status : TradingSessionStatus)
    {r : SessionFamilyResult Decimal}
    → evaluate_family p status ≡ some r
    → r.family ≡ p.family
unfolding evaluate_family
family-family p status e = ground arith

family_total :
    (C : DecimalContext) (p : PortfolioFamilyResult C.Decimal) (status : TradingSessionStatus)
    → Portfolio.is_valid_family C p ≡ true
    → is_reachable status ≡ true
    → (r : SessionFamilyResult C.Decimal) × Settled C p status r
family_total C p status v h =
    let (r, e) = family-defined p status h in
    (r, (e, (family-is_valid C p status v e, family-family p status e)))

families_total :
    (C : DecimalContext)
    → OrderLaws C
    → (status : TradingSessionStatus) (ps : List (PortfolioFamilyResult C.Decimal))
    → is_reachable status ≡ true
    → all_of (Portfolio.is_valid_family C) ps ≡ true
    → (rs : List (SessionFamilyResult C.Decimal)) × ((evaluate_families status ps ≡ some rs)
        × ((all_of (is_valid_family C) rs ≡ true) × (all_match C status ps rs ≡ true)))
unfolding evaluate_families all_match
families_total C laws status [] h v = ([], (refl, (refl, refl)))
families_total C laws status (p ∷ ps) h v =
    let (r, (e, (f, g))) =
      family_total C p status (&&-left (Portfolio.is_valid_family C p) _ v) h in
    let (rs, (es, (fs, gs))) =
      families_total C laws status ps h (&&-right (Portfolio.is_valid_family C p) _ v) in
    (
      r ∷ rs,
      (
        rw (e, es) refl,
        (
          &&-intro _ _ f fs,
          rw (g, e)
              (&&-intro _ _ (is_refl (p.family)) (&&-intro _ _ (same_result_refl C laws r) gs)),
        ),
      ),
    )

-- In a decimal context with a total order, the session gate returns a result on every portfolio
-- result whose family results pass their validators, whether the operator lock is set or not: its
-- own validators accept what it assembles, and no status lacks a block reason.
pub evaluate-total :
    (C : DecimalContext)
    → OrderLaws C
    → (portfolio : StrategyPortfolioResult C.Decimal) (locked_override : Bool)
    → all_of (Portfolio.is_valid_family C) portfolio.family_results ≡ true
    → (rs : List (SessionFamilyResult C.Decimal)) × (evaluate C portfolio locked_override
        ≡ some (assemble C portfolio locked_override rs))
unfolding evaluate is_valid
evaluate-total C laws portfolio l v =
    let (rs, (e, (f, g))) =
      families_total C laws (status_of C portfolio l) portfolio.family_results
        (status_reachable C _ _ l) v in
    let result = assemble C portfolio l rs in
    (
      rs,
      rw (e, f)
          (rw
            (
              status_reachable C portfolio.strategy_risk_result.account_snapshot
                  portfolio.strategy_risk_result.trading_cycle_config l,
              is_refl (result.session_status),
              is_refl (result.outcome),
              g,
            )
            refl),
    )

-- When the session gate has a result for a family, the result is eligible exactly when the
-- portfolio let the family through and the session is `ACTIVE`. An eligible result carries the
-- portfolio's allocation unchanged, a blocked one none.
pub evaluate_family-active_iff :
    {Decimal : Type 0} (p : PortfolioFamilyResult Decimal) (status : TradingSessionStatus)
    {r : SessionFamilyResult Decimal}
    → evaluate_family p status ≡ some r
    → ((r.verdict ≡ SessionFamilyVerdict.eligible_for_runtime_review) ↔ (
        (p.verdict ≡ PortfolioFamilyVerdict.eligible_for_session_review)
        × (status ≡ TradingSessionStatus.active)))
      × (r.session_allocated_risk ≡ (
          if r.verdict is SessionFamilyVerdict.eligible_for_runtime_review
          then p.portfolio_allocated_risk
          else none))
unfolding evaluate_family
evaluate_family-active_iff p TradingSessionStatus.active e = ground arith
evaluate_family-active_iff p TradingSessionStatus.reduced_risk e = ground arith
evaluate_family-active_iff p TradingSessionStatus.capital_preservation e = ground arith
evaluate_family-active_iff p TradingSessionStatus.target_reached e = ground arith
evaluate_family-active_iff p TradingSessionStatus.loss_limit_reached e = ground arith
evaluate_family-active_iff p TradingSessionStatus.locked e = ground arith
