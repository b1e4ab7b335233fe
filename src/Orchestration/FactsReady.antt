-- ===== src/Orchestration/FactsReady.antt =====
-- The account snapshot is there exactly when all that it is made of is (app/orchestration/facts.py with
-- app/mt5/history.py and app/mt5/risk.py).
use Prim.Native.String.{String}
use ai_trading_advisor.Prelude.{
  ℕ, ◌≡◌, ◌↔◌, refl, Bool, true, ◌&&◌, Option, none, some, List, [], ◌∷◌, map, if◌then◌else◌, negb,
  All, no_duplicates, arith, ==→eq, ==_refl, ◌>>=◌, &&-left, &&-right,
}
use ai_trading_advisor.Market.Result.{is_some}
use ai_trading_advisor.Decimal.Context.{DecimalContext, OrderLaws, SignLaws, lt}
use ai_trading_advisor.Money.Account.{is_valid_snapshot}
use ai_trading_advisor.Broker.Sizing.{Mt5SymbolFacts}
use ai_trading_advisor.Broker.Rollover.{Mt5RolloverState, is_usable}
use ai_trading_advisor.Broker.Deals.{Mt5Deal, Mt5RealizedPnlOutcome}
use ai_trading_advisor.Broker.History.{realized_daily_pnl_fields, compute_realized_daily_pnl}
use ai_trading_advisor.Broker.DayPnl.{
  SafeDeal, realized_daily_pnl_fields-SafeDeal, compute_realized_daily_pnl-returns,
}
use ai_trading_advisor.Broker.OpenRisk.{
  Mt5OpenRiskOutcome, Mt5Position, is_nonnegative, is_valid, open_risk_fields, assess_open_risk,
}
use ai_trading_advisor.Broker.OpenRiskTotal.{Assessable, assess_open_risk-Assessable}
use ai_trading_advisor.Broker.OpenRiskValid.{assess_open_risk-is_valid}
use ai_trading_advisor.Orchestration.Facts.{
  RuntimeFactAssemblyOutcome, RuntimeFactAssemblyBlockReason, Mt5RolloverSnapshot, Stamps,
  AccountRiskSnapshotAssembly, is_realized, is_assessed, timestamps_coherent, assembly_reasons,
  has_positive_equity, is_valid_rollover, conclude, assemble_account_risk_snapshot, is_same_day,
  are_canonical,
}

no_reasons_iff :
    (u p o c : Bool)
    → (assembly_reasons u p o c ≡ []) ↔ ((u ≡ true) × (p ≡ true) × (o ≡ true) × (c ≡ true))
no_reasons_iff u p o c = ground arith

reasons_canonical : (u p o c : Bool) → are_canonical (assembly_reasons u p o c) ≡ true
reasons_canonical u p o c = ground arith

-- The trading day of the state, if there is one.
abbrev pub IsDay : {Decimal : Type 0} → Option (Mt5RolloverState Decimal) → ℕ → Type 0
IsDay none key = Unit
IsDay (some s) key = s.trading_day_key ≡ key

-- Everything was observed at one instant, and of one day.
abbrev pub Coherent : {Decimal : Type 0} → ℕ → Mt5RolloverSnapshot Decimal → Stamps → Type 0
Coherent as_of rollover stamps =
    (rollover.as_of ≡ as_of)
    × (stamps.realized_as_of ≡ as_of)
    × (stamps.open_risk_as_of ≡ as_of)
    × IsDay rollover.rollover_state stamps.realized_trading_day_key

is_same_day_iff :
    {Decimal : Type 0} (state : Option (Mt5RolloverState Decimal)) (key : ℕ)
    → (is_same_day state key ≡ true) ↔ IsDay state key
is_same_day_iff none key = ground arith
is_same_day_iff (some s) key = ground (arith, ==→eq s.trading_day_key key)

Coherent-iff :
    {Decimal : Type 0} (as_of : ℕ) (rollover : Mt5RolloverSnapshot Decimal) (stamps : Stamps)
    → (timestamps_coherent as_of rollover stamps ≡ true) ↔ Coherent as_of rollover stamps
unfolding timestamps_coherent
Coherent-iff as_of rollover stamps =
    let (f, g) = is_same_day_iff rollover.rollover_state stamps.realized_trading_day_key in
    (
      λ h. (
        ground (arith, h, ==→eq rollover.as_of as_of),
        ground (arith, h, ==→eq stamps.realized_as_of as_of),
        ground (arith, h, ==→eq stamps.open_risk_as_of as_of),
        f (ground (arith, h)),
      ),
      λ c. rw (c.0, c.1, c.2, g c.3, ==_refl as_of) refl,
    )

is_realized_iff :
    (o : Mt5RealizedPnlOutcome) → (is_realized o ≡ true) ↔ (o ≡ Mt5RealizedPnlOutcome.ready)
is_realized_iff Mt5RealizedPnlOutcome.ready = ground arith
is_realized_iff Mt5RealizedPnlOutcome.blocked = ground arith

is_assessed_iff : (o : Mt5OpenRiskOutcome) → (is_assessed o ≡ true) ↔ (o ≡ Mt5OpenRiskOutcome.ready)
is_assessed_iff Mt5OpenRiskOutcome.ready = ground arith
is_assessed_iff Mt5OpenRiskOutcome.blocked = ground arith

module _ (C : DecimalContext) where
  open C use {Decimal, zero, le}

  -- The assembly, given that without a reason its facts make a valid snapshot.
  conclude-ready_iff :
      (rs : List RuntimeFactAssemblyBlockReason) (rollover : Mt5RolloverSnapshot Decimal)
      (realized risk : Option Decimal)
      → are_canonical rs ≡ true
      → (rs ≡ []
          → (a : AccountRiskSnapshotAssembly Decimal) × (conclude C [] rollover realized risk
              ≡ some a)
            × (a.outcome ≡ RuntimeFactAssemblyOutcome.ready))
      → (a : AccountRiskSnapshotAssembly Decimal) × (conclude C rs rollover realized risk ≡ some a)
        × ((a.outcome ≡ RuntimeFactAssemblyOutcome.ready) ↔ (rs ≡ []))
  conclude-ready_iff [] rollover realized risk v h =
      let (a, e, r) = h refl in (a, e, (λ _. refl, λ _. r))
  conclude-ready_iff (x ∷ xs) rollover realized risk v h = (
    record {
      outcome = RuntimeFactAssemblyOutcome.blocked;
      account_snapshot = none;
      reasons = x ∷ xs;
    },
    rw v refl,
    (λ e. absurd (ground (arith, e)), λ e. absurd (ground (arith, e))),
  )

  realized-is_some :
      (deals : List (Mt5Deal Decimal)) (start end_ : ℕ)
      → (realized_daily_pnl_fields C deals start end_).outcome ≡ Mt5RealizedPnlOutcome.ready
      → is_some (realized_daily_pnl_fields C deals start end_).realized_daily_pnl ≡ true
  unfolding realized_daily_pnl_fields
  realized-is_some deals start end_ e = ground (arith, e)

  risk-is_some :
      (positions : List (Mt5Position Decimal)) (facts : List (String × Mt5SymbolFacts Decimal))
      → (open_risk_fields C positions facts).outcome ≡ Mt5OpenRiskOutcome.ready
      → is_some (open_risk_fields C positions facts).current_open_risk_to_stop ≡ true
  unfolding open_risk_fields
  risk-is_some positions facts e = ground (arith, e)

  -- Facts that are there make a valid snapshot.
  complete :
      (rollover : Mt5RolloverSnapshot Decimal) (state : Option (Mt5RolloverState Decimal))
      (realized risk : Option Decimal)
      → rollover.rollover_state ≡ state
      → is_some state ≡ true
      → is_some realized ≡ true
      → is_some risk ≡ true
      → lt C zero rollover.current_equity ≡ true
      → has_positive_equity C state ≡ true
      → is_nonnegative C risk ≡ true
      → (a : AccountRiskSnapshotAssembly Decimal) × (conclude C [] rollover realized risk ≡ some a)
        × (a.outcome ≡ RuntimeFactAssemblyOutcome.ready)
  unfolding is_valid_snapshot
  complete rollover none realized risk e s p r q h n = absurd (ground (arith, s))
  complete rollover (some st) none risk e s p r q h n = absurd (ground (arith, p))
  complete rollover (some st) (some pnl) none e s p r q h n = absurd (ground (arith, r))
  complete rollover (some st) (some pnl) (some risk) e s p r q h n = (
    record {
      outcome = RuntimeFactAssemblyOutcome.ready;
      account_snapshot = some (record {
        rollover_equity = st.rollover_equity;
        current_equity = rollover.current_equity;
        realized_daily_pnl = pnl;
        floating_pnl = rollover.floating_pnl;
        current_open_risk_to_stop = risk;
      });
      reasons = [];
    },
    rw (e, h, q, n) refl,
    refl,
  )

-- The presence that the validator of a rollover snapshot wants.
abbrev has_presence : {Decimal : Type 0} → Mt5RolloverSnapshot Decimal → Bool
has_presence r =
    if is_usable r.rollover_outcome
    then is_some r.rollover_state
    else negb (is_some r.rollover_state)

presence-is_some :
    {Decimal : Type 0} (r : Mt5RolloverSnapshot Decimal)
    → is_usable r.rollover_outcome ≡ true
    → has_presence r ≡ true
    → is_some r.rollover_state ≡ true
presence-is_some r u p = rw u at p

nonnegative-risk :
    (C : DecimalContext)
    → OrderLaws C
    → SignLaws C
    → (positions : List (Mt5Position C.Decimal)) (facts : List (String × Mt5SymbolFacts C.Decimal))
    → no_duplicates (map (λ p. p.ticket) positions) ≡ true
    → All (λ p. C.le C.zero p.volume ≡ true) positions
    → is_nonnegative C (open_risk_fields C positions facts).current_open_risk_to_stop ≡ true
unfolding is_valid
nonnegative-risk C order signs positions facts d n =
    let risk = open_risk_fields C positions facts in
    &&-left (is_nonnegative C risk.current_open_risk_to_stop) _
      (assess_open_risk-is_valid C order signs positions facts d n).0

-- The facts of the account are usable: the rollover, every deal, every position, and the time stamps.
abbrev pub FactsUsable :
    (C : DecimalContext)
    → ℕ
    → Mt5RolloverSnapshot C.Decimal
    → Stamps
    → List (Mt5Deal C.Decimal)
    → ℕ
    → ℕ
    → List (Mt5Position C.Decimal)
    → List (String × Mt5SymbolFacts C.Decimal)
    → Type 0
FactsUsable C as_of rollover stamps deals start end_ positions facts =
    (is_usable rollover.rollover_outcome ≡ true)
    × All (SafeDeal start end_) deals
    × All (Assessable C facts) positions
    × Coherent as_of rollover stamps

fields-FactsUsable :
    (C : DecimalContext)
    → OrderLaws C
    → SignLaws C
    → (as_of : ℕ) (rollover : Mt5RolloverSnapshot C.Decimal) (stamps : Stamps)
      (deals : List (Mt5Deal C.Decimal)) (start end_ : ℕ) (positions : List (Mt5Position C.Decimal))
      (facts : List (String × Mt5SymbolFacts C.Decimal))
    → is_valid_rollover C rollover ≡ true
    → no_duplicates (map (λ p. p.ticket) positions) ≡ true
    → All (λ p. C.le C.zero p.volume ≡ true) positions
    → (a : AccountRiskSnapshotAssembly C.Decimal) × (assemble_account_risk_snapshot C as_of rollover
          stamps
          (realized_daily_pnl_fields C deals start end_)
          (open_risk_fields C positions facts)
        ≡ some a)
      × ((a.outcome ≡ RuntimeFactAssemblyOutcome.ready)
          ↔ FactsUsable C as_of rollover stamps deals start end_ positions facts)
unfolding assemble_account_risk_snapshot
fields-FactsUsable C order signs as_of rollover stamps deals start end_ positions facts v d n =
    let pnl = realized_daily_pnl_fields C deals start end_ in
    let risk = open_risk_fields C positions facts in
    let u = is_usable rollover.rollover_outcome in
    let c = timestamps_coherent as_of rollover stamps in
    let (f, g) = no_reasons_iff u (is_realized pnl.outcome) (is_assessed risk.outcome) c in
    let (agree, coherent) = Coherent-iff as_of rollover stamps in
    let (realize, unrealize) = is_realized_iff pnl.outcome in
    let (assess, unassess) = is_assessed_iff risk.outcome in
    let (safe, unsafe) = realized_daily_pnl_fields-SafeDeal C deals start end_ in
    let (assessable, unassessable) = assess_open_risk-Assessable C positions facts in
    let equities =
      &&-right (lt C C.zero rollover.current_equity)
        (has_positive_equity C rollover.rollover_state && has_presence rollover) v in
    let (a, e, (h, k)) =
      conclude-ready_iff C
        (assembly_reasons u (is_realized pnl.outcome) (is_assessed risk.outcome) c) rollover
        pnl.realized_daily_pnl risk.current_open_risk_to_stop
        (reasons_canonical u (is_realized pnl.outcome) (is_assessed risk.outcome) c)
        (λ z.
          let (u', p', o', _) = f z in
          complete C rollover rollover.rollover_state pnl.realized_daily_pnl
            risk.current_open_risk_to_stop refl
            (presence-is_some rollover u' (
              &&-right (has_positive_equity C rollover.rollover_state) (has_presence rollover)
                equities))
            (realized-is_some C deals start end_ (realize p'))
            (risk-is_some C positions facts (assess o'))
            (&&-left (lt C C.zero rollover.current_equity)
              (has_positive_equity C rollover.rollover_state && has_presence rollover) v)
            (&&-left (has_positive_equity C rollover.rollover_state) (has_presence rollover)
              equities)
            (nonnegative-risk C order signs positions facts d n)) in
    (
      a,
      e,
      (
        λ r.
            let (u', p', o', c') = f (h r) in
            (u', safe (realize p'), assessable (assess o'), agree c'),
        λ w. k (g (w.0, unrealize (unsafe w.1), unassess (unassessable w.2), coherent w.3)),
      ),
    )

-- For a valid rollover snapshot, deals with distinct tickets, and positions with distinct tickets
-- and volumes that are not negative, in a context with a total order and the rules of signs, the
-- day's result, the open risk and the assembly of the account snapshot from them all return; the
-- assembly is `READY` exactly when the rollover is usable, every deal of the history can be
-- accounted for, the open risk of every position can be assessed, all was observed at the same
-- instant, and the day's result is of the day of the rollover state, if there is one.
pub assemble_account_risk_snapshot-FactsUsable :
    (C : DecimalContext)
    → OrderLaws C
    → SignLaws C
    → (as_of : ℕ) (rollover : Mt5RolloverSnapshot C.Decimal) (stamps : Stamps)
      (deals : List (Mt5Deal C.Decimal)) (start end_ : ℕ) (positions : List (Mt5Position C.Decimal))
      (facts : List (String × Mt5SymbolFacts C.Decimal))
    → is_valid_rollover C rollover ≡ true
    → no_duplicates (map (λ d. d.ticket) deals) ≡ true
    → no_duplicates (map (λ p. p.ticket) positions) ≡ true
    → All (λ p. C.le C.zero p.volume ≡ true) positions
    → (a : AccountRiskSnapshotAssembly C.Decimal) × ((compute_realized_daily_pnl C deals start end_
          >>= (λ pnl.
              assess_open_risk C positions facts
              >>= (λ risk. assemble_account_risk_snapshot C as_of rollover stamps pnl risk)))
        ≡ some a)
      × ((a.outcome ≡ RuntimeFactAssemblyOutcome.ready)
          ↔ FactsUsable C as_of rollover stamps deals start end_ positions facts)
assemble_account_risk_snapshot-FactsUsable C order signs as_of rollover stamps deals start end_
      positions facts v t d n =
    let (_, assessed) = assess_open_risk-is_valid C order signs positions facts d n in
    rw (compute_realized_daily_pnl-returns C deals start end_ t, assessed)
      (fields-FactsUsable C order signs as_of rollover stamps deals start end_ positions facts v d
        n)
