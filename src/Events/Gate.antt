-- ===== src/Events/Gate.antt =====
-- The verdict of the gate on a family's setup, and the bridge to the risk gate
-- (app/decision/high_impact_event_gate.py, `to_candidate_risk_inputs` of
-- app/decision/setup_construction.py). Times are seconds; one of the first five minutes of the year 1,
-- which Python refuses to move back, starts its windows at zero.
use Prim.Native.String.{compare}
use text.Mathlib.Text.{is_le}
use ai_trading_advisor.Prelude.{
  ℕ, ◌+◌, ◌-◌, Bool, true, false, ◌&&◌, ◌||◌, Option, none, some, List, [], ◌∷◌, ◌++◌, map, keep,
  if◌then◌else◌, ltb, ◌==◌, member, negb,
}
use ai_trading_advisor.Decimal.Context.{DecimalContext}
use ai_trading_advisor.Strategy.Enums.{StrategyFamily, family_enum}
use ai_trading_advisor.Market.Result.{MarketEvaluationContext}
use ai_trading_advisor.Strategy.Router.{is_empty}
use ai_trading_advisor.Money.Risk.{CandidateRiskInput}
use ai_trading_advisor.Tracking.Lifecycle.{latest}
use ai_trading_advisor.Events.Calendar.{
  HighImpactEventRecord, HighImpactEventSymbolOverride, instrument_scope_tags, is_relevant,
  is_hard_block_eligible,
}

pub data HighImpactEventVerdict : Type 0 where
  allowed warned blocked : HighImpactEventVerdict

-- The fields of a result that the verdict decides.
pub record HighImpactEventFamilyResult : Type 0 where
  pub family : StrategyFamily
  pub verdict : HighImpactEventVerdict
  pub relevant_events : List HighImpactEventRecord
  pub next_safe_time : Option ℕ

-- A setup, as far as the gate and the bridge read it.
pub record CandidateTradeSetup (Decimal : Type 0) : Type 0 where
  pub signal_time : ℕ
  pub valid_until : ℕ
  pub risk_per_unit : Decimal

-- A result of the setup construction, which is constructed exactly when it has a setup.
pub record SetupConstructionResult (Decimal : Type 0) : Type 0 where
  pub family : StrategyFamily
  pub setup : Option (CandidateTradeSetup Decimal)

-- `BLOCK_PRE_WINDOW`, `BLOCK_POST_WINDOW`, `WARN_PRE_WINDOW`, `WARN_POST_WINDOW`
abbrev pub block_pre_window : ℕ
block_pre_window = 300

abbrev pub block_post_window : ℕ
block_post_window = 300

abbrev pub warn_pre_window : ℕ
warn_pre_window = 900

abbrev pub warn_post_window : ℕ
warn_post_window = 600

-- `_overlaps`
abbrev pub overlaps : ℕ → ℕ → ℕ → ℕ → Bool
overlaps signal_time valid_until window_start window_end =
    ltb signal_time window_end && ltb window_start valid_until

abbrev pub block_end : HighImpactEventRecord → ℕ
block_end e = e.event_time + block_post_window

abbrev pub blocks : ℕ → ℕ → HighImpactEventRecord → Bool
blocks signal_time valid_until e =
    is_hard_block_eligible e
    && overlaps signal_time valid_until (e.event_time - block_pre_window) (block_end e)

abbrev pub warns : ℕ → ℕ → HighImpactEventRecord → Bool
warns signal_time valid_until e =
    overlaps signal_time valid_until (e.event_time - warn_pre_window)
      (e.event_time + warn_post_window)

-- `_event_verdict`, whose second result is `block_end` exactly when the first is `BLOCKED`.
unfoldable pub event_verdict : ℕ → ℕ → HighImpactEventRecord → HighImpactEventVerdict × Option ℕ
event_verdict signal_time valid_until e =
    if blocks signal_time valid_until e
    then (HighImpactEventVerdict.blocked, some (block_end e))
    else if warns signal_time valid_until e
    then (HighImpactEventVerdict.warned, none)
    else (HighImpactEventVerdict.allowed, none)

-- `_VERDICT_SEVERITY`
abbrev pub severity : HighImpactEventVerdict → ℕ
severity HighImpactEventVerdict.allowed = 0
severity HighImpactEventVerdict.warned = 1
severity HighImpactEventVerdict.blocked = 2

abbrev pub worse : HighImpactEventVerdict → HighImpactEventVerdict → HighImpactEventVerdict
worse worst v = if ltb (severity worst) (severity v) then v else worst

abbrev pub add_end : HighImpactEventVerdict × Option ℕ → List ℕ → List ℕ
add_end (HighImpactEventVerdict.blocked, some end_) ends = ends ++ (end_ ∷ [])
add_end _ ends = ends

-- The loop of `_evaluate_family`.
unfoldable pub judge_events :
    ℕ
    → ℕ
    → HighImpactEventVerdict
    → List ℕ
    → List HighImpactEventRecord
    → HighImpactEventVerdict × List ℕ
judge_events signal_time valid_until worst ends [] = (worst, ends)
judge_events signal_time valid_until worst ends (e ∷ es) =
    judge_events signal_time valid_until (worse worst (event_verdict signal_time valid_until e).0)
      (add_end (event_verdict signal_time valid_until e) ends) es

-- The key `(event_time, provider_event_id)`, in which an event comes no later than another.
abbrev pub comes_first : HighImpactEventRecord → HighImpactEventRecord → Bool
comes_first a b =
    ltb a.event_time b.event_time
    || (a.event_time == b.event_time && is_le (compare a.provider_event_id b.provider_event_id))

abbrev pub insert_event :
    HighImpactEventRecord → List HighImpactEventRecord → List HighImpactEventRecord
insert_event a [] = a ∷ []
insert_event a (x ∷ xs) =
    let rest = insert_event a xs in if comes_first a x then a ∷ x ∷ xs else x ∷ rest

unfoldable pub sort_events : List HighImpactEventRecord → List HighImpactEventRecord
sort_events [] = []
sort_events (e ∷ es) = insert_event e (sort_events es)

-- The constructor calls of `_evaluate_family`.
abbrev pub result_of :
    StrategyFamily
    → List HighImpactEventRecord
    → HighImpactEventVerdict
    → List ℕ
    → HighImpactEventFamilyResult
result_of family relevant HighImpactEventVerdict.blocked ends = record {
  family = family;
  verdict = HighImpactEventVerdict.blocked;
  relevant_events = relevant;
  next_safe_time = latest ends;
}
result_of family relevant verdict ends = record {
  family = family;
  verdict = verdict;
  relevant_events = relevant;
  next_safe_time = none;
}

-- `_evaluate_family`, with the relevant events in order.
abbrev pub evaluate_relevant :
    StrategyFamily → ℕ → ℕ → List HighImpactEventRecord → HighImpactEventFamilyResult
evaluate_relevant family signal_time valid_until relevant =
    let judged = judge_events signal_time valid_until HighImpactEventVerdict.allowed [] relevant in
    result_of family relevant judged.0 judged.1

unfoldable pub evaluate_family :
    StrategyFamily
    → ℕ
    → ℕ
    → (HighImpactEventRecord → Bool)
    → List HighImpactEventRecord
    → HighImpactEventFamilyResult
evaluate_family family signal_time valid_until relevant events =
    evaluate_relevant family signal_time valid_until (sort_events (keep relevant events))

module _ (C : DecimalContext) where
  open C use {Decimal, zero}

  abbrev pub evaluate_setup :
      (HighImpactEventRecord → Bool)
      → List HighImpactEventRecord
      → StrategyFamily
      → Option (CandidateTradeSetup Decimal)
      → List HighImpactEventFamilyResult
      → List HighImpactEventFamilyResult
  evaluate_setup relevant events family none rest = rest
  evaluate_setup relevant events family (some s) rest =
      evaluate_family family s.signal_time s.valid_until relevant events ∷ rest

  abbrev pub evaluate_setups :
      (HighImpactEventRecord → Bool)
      → List HighImpactEventRecord
      → List (SetupConstructionResult Decimal)
      → List HighImpactEventFamilyResult
  evaluate_setups relevant events [] = []
  evaluate_setups relevant events (r ∷ rs) =
      evaluate_setup relevant events r.family r.setup (evaluate_setups relevant events rs)

  -- The family results of `HighImpactEventGate.evaluate`; without a context there are no events.
  unfoldable pub evaluate :
      MarketEvaluationContext
      → Option (List HighImpactEventRecord)
      → Option (List HighImpactEventSymbolOverride)
      → List (SetupConstructionResult Decimal)
      → List HighImpactEventFamilyResult
  evaluate context none config setups =
      evaluate_setups (is_relevant context.symbol (instrument_scope_tags context) config) [] setups
  evaluate context (some events) config setups =
      evaluate_setups (is_relevant context.symbol (instrument_scope_tags context) config) events
        setups

  abbrev pub unit_risk : Option (CandidateTradeSetup Decimal) → Decimal
  unit_risk none = zero
  unit_risk (some s) = s.risk_per_unit

  -- `to_candidate_risk_inputs`
  unfoldable pub to_candidate_risk_inputs :
      List (SetupConstructionResult Decimal) → List (CandidateRiskInput Decimal)
  to_candidate_risk_inputs =
      map (λ r. record { family = r.family; risk_per_unit = unit_risk r.setup })

  abbrev pub is_blocked : HighImpactEventVerdict → Bool
  is_blocked HighImpactEventVerdict.blocked = true
  is_blocked _ = false

  -- `blocked_families`
  abbrev pub blocked_families : List HighImpactEventFamilyResult → List StrategyFamily
  blocked_families results = map (λ r. r.family) (keep (λ r. is_blocked r.verdict) results)

  abbrev pub adjust : List StrategyFamily → CandidateRiskInput Decimal → CandidateRiskInput Decimal
  adjust families c =
      if negb (member c.family families)
      then c
      else record { family = c.family; risk_per_unit = zero }

  unfoldable pub to_event_adjusted_candidate_risk_inputs :
      List (SetupConstructionResult Decimal)
      → Option (List HighImpactEventFamilyResult)
      → List (CandidateRiskInput Decimal)
  to_event_adjusted_candidate_risk_inputs setups none = to_candidate_risk_inputs setups
  to_event_adjusted_candidate_risk_inputs setups (some results) =
      let base = to_candidate_risk_inputs setups in
      if is_empty (blocked_families results)
      then base
      else map (adjust (blocked_families results)) base
