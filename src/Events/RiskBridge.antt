-- ===== src/Events/RiskBridge.antt =====
-- A family that the event gate blocks gets no budget from the risk gate
-- (`to_event_adjusted_candidate_risk_inputs` of app/decision/high_impact_event_gate.py, app/risk/engine.py).
use ai_trading_advisor.Prelude.{
  ◌≡◌, refl, sym, ◌∙◌, ap, true, false, some, some-injective, List, [], ◌∷◌, map, member, ◌is◌,
  is→eq, is_refl, arith, Bool-cases, Option-cases, inl, inr,
}
use ai_trading_advisor.Strategy.Router.{is_empty}
use ai_trading_advisor.Strategy.Enums.{
  StrategyFamily, family_enum, PolicyFamilyVerdict, policy_verdict_enum,
}
use ai_trading_advisor.Strategy.Policy.{PolicyFamilyResult}
use ai_trading_advisor.Decimal.Context.{DecimalContext, OrderLaws}
use ai_trading_advisor.Money.Enums.{RiskFamilyVerdict, RiskBlockReason}
use ai_trading_advisor.Money.Risk.{
  CandidateRiskInput, RiskFamilyResult, candidate_by_family, blocked_by_risk, block_reasons,
  evaluate_candidate, evaluate_family,
}
use ai_trading_advisor.Events.Gate.{
  HighImpactEventFamilyResult, SetupConstructionResult, to_candidate_risk_inputs, blocked_families,
  adjust, to_event_adjusted_candidate_risk_inputs,
}

module _ (C : DecimalContext) where
  open C use {Decimal, zero, le}

  adjust-family :
      (fs : List StrategyFamily) (c : CandidateRiskInput Decimal)
      → (adjust C fs c).family ≡ c.family
  adjust-family fs c = elim (Bool-cases (member c.family fs)) [
    | inl e ↦ rw e refl
    | inr e ↦ rw e refl
  ]

  adjust-zero :
      (fs : List StrategyFamily) (f : StrategyFamily) (c : CandidateRiskInput Decimal)
      → member f fs ≡ true
      → c.family ≡ f
      → (adjust C fs c).risk_per_unit ≡ zero
  adjust-zero fs f c m e = let m' : member c.family fs ≡ true = rw e m in rw m' refl

  -- A candidate that is found for a blocked family has no risk per unit.
  found-zero :
      (fs : List StrategyFamily) (f : StrategyFamily) (cs : List (CandidateRiskInput Decimal))
      (c : CandidateRiskInput Decimal)
      → member f fs ≡ true
      → candidate_by_family f (map (adjust C fs) cs) ≡ some c
      → c.risk_per_unit ≡ zero
  unfolding candidate_by_family
  found-zero fs f [] c m e = absurd (ground (arith, e))
  found-zero fs f (x ∷ xs) c m e =
      elim (Option-cases (candidate_by_family f (map (adjust C fs) xs))) [
        | inr (d, k) ↦ found-zero fs f xs c m (k ∙ (rw k at e))
        | inl k ↦ elim (Bool-cases ((adjust C fs x).family is f)) [
          | inr n ↦ absurd (ground (arith, rw (k, n) at e))
          | inl y ↦
              ap (λ (z : CandidateRiskInput Decimal). z.risk_per_unit)
                (sym (some-injective (rw (k, y) at e)))
              ∙ adjust-zero fs f x m (sym (adjust-family fs x) ∙ is→eq (adjust C fs x).family f y)
        ]
      ]

  -- A family of the candidates has a candidate.
  found :
      (fs : List StrategyFamily) (f : StrategyFamily) (cs : List (CandidateRiskInput Decimal))
      → member f (map (λ c. c.family) cs) ≡ true
      → (c : CandidateRiskInput Decimal) × (candidate_by_family f (map (adjust C fs) cs) ≡ some c)
  unfolding candidate_by_family
  found fs f [] m = absurd (ground (arith, m))
  found fs f (x ∷ xs) m = elim (Option-cases (candidate_by_family f (map (adjust C fs) xs))) [
    | inr (d, k) ↦ (d, rw k refl)
    | inl k ↦ elim (Bool-cases (f is x.family)) [
      | inl y ↦
          let same = adjust-family fs x ∙ sym (is→eq f x.family y) in
          (adjust C fs x, rw (k, same, is_refl f) refl)
      | inr n ↦ let (d, e) = found fs f xs (rw n at m) in absurd (ground (arith, sym k ∙ e))
    ]
  ]

  nonempty :
      (f : StrategyFamily) (fs : List StrategyFamily) → member f fs ≡ true → is_empty fs ≡ false
  nonempty f [] m = absurd (ground (arith, m))
  nonempty f (g ∷ gs) m = refl

  candidate_families :
      (setups : List (SetupConstructionResult Decimal))
      → map (λ (c : CandidateRiskInput Decimal). c.family) (to_candidate_risk_inputs C setups)
        ≡ map (λ (r : SetupConstructionResult Decimal). r.family) setups
  unfolding to_candidate_risk_inputs
  candidate_families [] = refl
  candidate_families (r ∷ rs) = ap (λ fs. r.family ∷ fs) (candidate_families rs)

  denied :
      (laws : OrderLaws C) (p : PolicyFamilyResult) (c : CandidateRiskInput Decimal)
      (remaining available per_trade : Decimal)
      → c.risk_per_unit ≡ zero
      → (r : RiskFamilyResult Decimal) × (evaluate_family C p (some c) remaining available per_trade
          ≡ some r)
        × (r.verdict ≡ RiskFamilyVerdict.blocked_by_risk)
  unfolding evaluate_family evaluate_candidate block_reasons
  denied laws p c remaining available per_trade z =
      let nonpos : le c.risk_per_unit zero ≡ true = rw z (laws.le_refl zero) in
      elim (Bool-cases (p.verdict is PolicyFamilyVerdict.blocked)) [
        | inl e ↦
            rw e (blocked_by_risk p.family (RiskBlockReason.policy_not_eligible ∷ []), refl, refl)
        | inr e ↦ rw e (
          evaluate_candidate C p.family c remaining available per_trade,
          refl,
          ground (arith, nonpos),
        )
      ]

  -- In a context with a total order, a family with a setup result that the event gate blocks is
  -- evaluated by the risk gate on the adjusted candidates, and the result is `BLOCKED_BY_RISK`,
  -- whatever the policy and the capacities are.
  pub event_blocked-denied :
      OrderLaws C
      → (setups : List (SetupConstructionResult Decimal))
        (results : List HighImpactEventFamilyResult) (p : PolicyFamilyResult)
        (remaining available per_trade : Decimal)
      → member p.family (map (λ (r : SetupConstructionResult Decimal). r.family) setups) ≡ true
      → member p.family (blocked_families C results) ≡ true
      → (r : RiskFamilyResult Decimal) × (evaluate_family C p
            (candidate_by_family p.family
              (to_event_adjusted_candidate_risk_inputs C setups (some results)))
            remaining
            available
            per_trade
          ≡ some r)
        × (r.verdict ≡ RiskFamilyVerdict.blocked_by_risk)
  unfolding to_event_adjusted_candidate_risk_inputs
  event_blocked-denied laws setups results p remaining available per_trade m b =
      let fs = blocked_families C results in
      let base = to_candidate_risk_inputs C setups in
      let (c, e) = found fs p.family base (rw (candidate_families setups) m) in
      rw (nonempty p.family fs b, e)
        (denied laws p c remaining available per_trade (found-zero fs p.family base c b e))
