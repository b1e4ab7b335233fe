-- ===== src/Broker/RolloverDays.antt =====
-- The rollover state over many runtime cycles: a day's equity is fixed, and days only advance
-- (app/mt5/rollover.py).
use ai_trading_advisor.Prelude.{
  ℕ, ◌≡◌, ◌≤◌, refl, Bool, true, Option, none, some, List, [], ◌∷◌, All, arith, Option-cases, inl,
  inr,
}
use ai_trading_advisor.Market.Result.{is_some}
use ai_trading_advisor.Decimal.Context.{DecimalContext, lt}
use ai_trading_advisor.Broker.Rollover.{
  Mt5RolloverState, Mt5RolloverPolicyConfig, Cycle, Decision, PersistedStateReadStatus,
  decide_rollover, decide_persisted, has_state, step, run,
}

-- A valid read comes with a state.
abbrev pub paired :
    {Decimal : Type 0} → PersistedStateReadStatus → Option (Mt5RolloverState Decimal) → Bool
paired PersistedStateReadStatus.valid s = is_some s
paired PersistedStateReadStatus.absent s = true
paired PersistedStateReadStatus.corrupt s = true
paired PersistedStateReadStatus.unavailable s = true

decide_persisted-has_state :
    (C : DecimalContext) (policy : Mt5RolloverPolicyConfig) (key : ℕ) (equity : C.Decimal)
    (as_of : ℕ) (s : Mt5RolloverState C.Decimal)
    → lt C C.zero equity ≡ true
    → (d : Decision C.Decimal) × (decide_persisted C policy key equity as_of s ≡ some d)
      × (has_state d ≡ true)
unfolding decide_persisted
decide_persisted-has_state C policy key equity as_of s pos =
    elim (Option-cases (decide_persisted C policy key equity as_of s)) [
      | inl e ↦ absurd (ground (arith, pos, e))
      | inr (d, e) ↦ (d, e, ground (arith, pos, e))
    ]

-- When a read that reports `VALID` comes with a state, and the account's equity is positive, the
-- rollover decision returns an outcome, and it carries a state exactly when the outcome is `READY`
-- or `BOOTSTRAPPED_MIDDAY`, as the snapshot's validator wants.
pub decide_rollover-total :
    (C : DecimalContext) (policy : Mt5RolloverPolicyConfig) (key : ℕ) (equity : C.Decimal)
    (as_of : ℕ) (status : PersistedStateReadStatus) (s : Option (Mt5RolloverState C.Decimal))
    → paired status s ≡ true
    → lt C C.zero equity ≡ true
    → (d : Decision C.Decimal) × (decide_rollover C policy key equity as_of status s ≡ some d)
      × (has_state d ≡ true)
unfolding decide_rollover
decide_rollover-total C policy key equity as_of PersistedStateReadStatus.absent s h pos =
    rw pos (_, refl, refl)
decide_rollover-total C policy key equity as_of PersistedStateReadStatus.corrupt s h pos =
    (_, refl, refl)
decide_rollover-total C policy key equity as_of PersistedStateReadStatus.unavailable s h pos =
    (_, refl, refl)
decide_rollover-total C policy key equity as_of PersistedStateReadStatus.valid none h pos =
    absurd (ground (arith, h))
decide_rollover-total C policy key equity as_of PersistedStateReadStatus.valid (some s) h pos =
    decide_persisted-has_state C policy key equity as_of s pos

-- A cycle of the same day, or of an earlier one, leaves the stored state alone.
step-same_day :
    (C : DecimalContext) (policy : Mt5RolloverPolicyConfig) (s : Mt5RolloverState C.Decimal)
    (c : Cycle C.Decimal)
    → c.trading_day_key ≤ s.trading_day_key
    → step C policy (some s) c ≡ some s
unfolding step decide_rollover decide_persisted
step-same_day C policy s c h = ground arith

step-advances :
    (C : DecimalContext) (policy : Mt5RolloverPolicyConfig) (s : Mt5RolloverState C.Decimal)
    (c : Cycle C.Decimal)
    → (t : Mt5RolloverState C.Decimal) × (step C policy (some s) c ≡ some t)
      × (s.trading_day_key ≤ t.trading_day_key)
unfolding step decide_rollover decide_persisted
step-advances C policy s c = elim (Option-cases (step C policy (some s) c)) [
  | inl e ↦ absurd (ground (arith, e))
  | inr (t, e) ↦ (t, e, ground (arith, e))
]

-- Over any number of runtime cycles of the stored trading day or of earlier ones, whatever equity
-- they see and whether reads and writes succeed, the stored rollover state, its equity included,
-- stays the same.
pub run-frozen :
    (C : DecimalContext) (policy : Mt5RolloverPolicyConfig) (s : Mt5RolloverState C.Decimal)
    (cs : List (Cycle C.Decimal))
    → All (λ c. c.trading_day_key ≤ s.trading_day_key) cs
    → run C policy (some s) cs ≡ some s
unfolding run
run-frozen C policy s [] h = refl
run-frozen C policy s (c ∷ cs) (h, all) =
    rw (step-same_day C policy s c h) (run-frozen C policy s cs all)

-- Over any number of runtime cycles, whatever they see and whether reads and writes succeed, a
-- stored rollover state remains, and its trading day never moves back.
pub run-monotone :
    (C : DecimalContext) (policy : Mt5RolloverPolicyConfig) (s : Mt5RolloverState C.Decimal)
    (cs : List (Cycle C.Decimal))
    → (t : Mt5RolloverState C.Decimal) × (run C policy (some s) cs ≡ some t)
      × (s.trading_day_key ≤ t.trading_day_key)
unfolding run
run-monotone C policy s [] = (s, refl, ground arith)
run-monotone C policy s (c ∷ cs) =
    let (t, e, h) = step-advances C policy s c in
    let (u, f, k) = run-monotone C policy t cs in (u, rw e f, ground (arith, h, k))
