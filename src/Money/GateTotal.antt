-- ===== src/Money/GateTotal.antt =====
-- The risk gate's `assert` holds: once the checks on the candidates pass, every family that the policy
-- allows has a candidate (app/risk/engine.py).
use mathlib.Core.Path.{subst}
use ai_trading_advisor.Prelude.{
  ◌≡◌, ◌≢◌, refl, sym, Bool, true, false, ◌&&◌, Option, none, some, List, [], ◌∷◌, if◌then◌else◌,
  ◌is◌, is→eq, member, all_of, Bool-cases, Option-cases, inl, inr, ◌⊎◌, arith, is_refl,
}
use ai_trading_advisor.Strategy.Enums.{
  PolicyFamilyVerdict, StrategyFamily, family_enum, policy_verdict_enum,
}
use ai_trading_advisor.Strategy.Policy.{PolicyFamilyResult, StrategyPolicyResult}
use ai_trading_advisor.Decimal.Context.{DecimalContext}
use ai_trading_advisor.Money.Account.{
  AccountRiskSnapshot, TradingCycleConfig, remaining_daily_loss_capacity, available_new_trade_risk,
  per_trade_risk_budget,
}
use ai_trading_advisor.Money.Risk.{
  CandidateRiskInput, RiskFamilyResult, RiskError, Outcome, later_or, check_missing,
  check_candidates, candidate_by_family, evaluate_family,
}
use ai_trading_advisor.Money.Gate.{
  cons_result, evaluate_families, evaluate, is_valid, assemble, is_valid_family,
}

-- The families that the first loop has seen at its end.
abbrev seen_after :
    {Decimal : Type 0}
    → List StrategyFamily
    → List (CandidateRiskInput Decimal)
    → List StrategyFamily
seen_after seen [] = seen
seen_after seen (c ∷ cs) = seen_after (c.family ∷ seen) cs

check_candidates-missing :
    {Decimal : Type 0} (policy : List PolicyFamilyResult) (seen : List StrategyFamily)
    (cs : List (CandidateRiskInput Decimal))
    → check_candidates policy seen cs ≡ none
    → check_missing (seen_after seen cs) policy ≡ none
unfolding check_candidates
check_candidates-missing policy seen [] h = h
check_candidates-missing policy seen (c ∷ cs) h =
    check_candidates-missing policy (c.family ∷ seen) cs (ground arith)

later_or-some :
    {A : Type 0} (o : Option A) (here : Bool) (a : A)
    → (here ≡ true) ⊎ ((b : A) × (o ≡ some b))
    → (b : A) × (later_or o here a ≡ some b)
later_or-some (some b) here a h = (b, refl)
later_or-some none true a h = (a, refl)
later_or-some none false a (inl e) = absurd (ground (arith, e))
later_or-some none false a (inr (b, e)) = absurd (ground (arith, e))

seen_after-candidate :
    {Decimal : Type 0} (f : StrategyFamily) (seen : List StrategyFamily)
    (cs : List (CandidateRiskInput Decimal))
    → member f (seen_after seen cs) ≡ true
    → (member f seen ≡ true)
      ⊎ ((c : CandidateRiskInput Decimal) × (candidate_by_family f cs ≡ some c))
unfolding candidate_by_family
seen_after-candidate f seen [] h = inl h
seen_after-candidate f seen (c ∷ cs) h = elim (seen_after-candidate f (c.family ∷ seen) cs h) [
  | inl e ↦ elim (Bool-cases (f is c.family)) [
    | inl g ↦ inr (
        later_or-some (candidate_by_family f cs) (c.family is f) c (
          inl (
            subst (λ x. (c.family is x) ≡ true) (sym (is→eq f (c.family) g)) (is_refl (c.family)))))
    | inr g ↦ inl (rw g at e)
  ]
  | inr (d, e) ↦ inr (later_or-some (candidate_by_family f cs) (c.family is f) c (inr (d, e)))
]

seen-candidate :
    {Decimal : Type 0} (cs : List (CandidateRiskInput Decimal)) (f : StrategyFamily)
    → member f (seen_after [] cs) ≡ true
    → (c : CandidateRiskInput Decimal) × (candidate_by_family f cs ≡ some c)
seen-candidate cs f h = elim (seen_after-candidate f [] cs h) [
  | inl e ↦ absurd (ground (arith, e))
  | inr r ↦ r
]

family-total :
    (C : DecimalContext) (p : PolicyFamilyResult)
    (candidate : Option (CandidateRiskInput C.Decimal)) (remaining available per_trade : C.Decimal)
    → (p.verdict is PolicyFamilyVerdict.blocked ≡ true)
      ⊎ ((c : CandidateRiskInput C.Decimal) × (candidate ≡ some c))
    → (r : RiskFamilyResult C.Decimal) × (evaluate_family C p candidate remaining available
          per_trade
        ≡ some r)
unfolding evaluate_family
family-total C p candidate remaining available per_trade h =
    elim (Option-cases (evaluate_family C p candidate remaining available per_trade)) [
      | inl e ↦ absurd (ground (arith, e))
      | inr r ↦ r
    ]

cons_result-some :
    {A : Type 0} {o : Option A} {os : Option (List A)} {a : A} {rest : List A}
    → o ≡ some a
    → os ≡ some rest
    → (all : List A) × (cons_result o os ≡ some all)
cons_result-some {a = a} {rest = rest} e f = (a ∷ rest, rw (e, f) refl)

evaluate_families-total :
    (C : DecimalContext) (cs : List (CandidateRiskInput C.Decimal))
    (remaining available per_trade : C.Decimal) (seen : List StrategyFamily)
    (ps : List PolicyFamilyResult)
    → check_missing seen ps ≡ none
    → ((f : StrategyFamily)
        → member f seen ≡ true
        → (c : CandidateRiskInput C.Decimal) × (candidate_by_family f cs ≡ some c))
    → (rs : List (RiskFamilyResult C.Decimal)) × (evaluate_families C cs remaining available
          per_trade ps
        ≡ some rs)
unfolding evaluate_families evaluate_family check_missing
evaluate_families-total C cs remaining available per_trade seen [] h k = ([], refl)
evaluate_families-total C cs remaining available per_trade seen (p ∷ ps) h k =
    let (rs, e) =
      evaluate_families-total C cs remaining available per_trade seen ps (ground arith) k in
    let (r, g) =
      family-total C p (candidate_by_family p.family cs) remaining available per_trade
        (elim (Bool-cases (p.verdict is PolicyFamilyVerdict.blocked)) [
          | inl g ↦ inl g
          | inr g ↦ inr (k p.family (ground (arith, g, h)))
        ]) in
    cons_result-some g e

check_missing-ne :
    (seen : List StrategyFamily) (ps : List PolicyFamilyResult)
    → check_missing seen ps ≢ some RiskError.missing_candidate
unfolding check_missing
check_missing-ne seen [] h = ground arith
check_missing-ne seen (p ∷ ps) h = ground (arith, check_missing-ne seen ps)

check_candidates-ne :
    {Decimal : Type 0} (policy : List PolicyFamilyResult) (seen : List StrategyFamily)
    (cs : List (CandidateRiskInput Decimal))
    → check_candidates policy seen cs ≢ some RiskError.missing_candidate
unfolding check_candidates
check_candidates-ne policy seen [] h = check_missing-ne seen policy h
check_candidates-ne policy seen (c ∷ cs) h =
    ground (arith, check_candidates-ne policy (c.family ∷ seen) cs)

refused-ne :
    {A : Type 0} (b : Bool) (a : A)
    → (if b then Outcome.ok a else Outcome.err RiskError.invalid_result)
      ≢ Outcome.err RiskError.missing_candidate
refused-ne true a h = ground arith
refused-ne false a h = ground arith

-- Whatever its inputs are, the risk gate never reaches an eligible family that has no candidate:
-- its checks on the candidates have raised before that, so the `assert` of `_evaluate_family` never
-- fails.
pub evaluate-ne-missing_candidate :
    (C : DecimalContext) (policy : StrategyPolicyResult) (account : AccountRiskSnapshot C.Decimal)
    (candidates : List (CandidateRiskInput C.Decimal)) (config : TradingCycleConfig C.Decimal)
    → evaluate C policy account candidates config ≢ Outcome.err RiskError.missing_candidate
unfolding evaluate
evaluate-ne-missing_candidate C policy account candidates config h =
    elim (Option-cases (check_candidates policy.family_results [] candidates)) [
      | inl e ↦
          let (rs, g) =
            evaluate_families-total C candidates (remaining_daily_loss_capacity C account config)
              (available_new_trade_risk C account config) (per_trade_risk_budget C account config)
              (seen_after [] candidates) policy.family_results
              (check_candidates-missing policy.family_results [] candidates e)
              (seen-candidate candidates) in
          refused-ne
            (all_of (is_valid_family C) rs
              && is_valid C (assemble C policy account candidates config rs))
            (assemble C policy account candidates config rs) (rw (e, g) at h)
      | inr (x, e) ↦ ground (arith, check_candidates-ne policy.family_results [] candidates)
    ]
