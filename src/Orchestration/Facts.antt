-- ===== src/Orchestration/Facts.antt =====
-- The account snapshot of a cycle, from the rollover, the realized result and the open risk
-- (`assemble_account_risk_snapshot` of app/orchestration/facts.py, app/core/models/mt5_rollover.py,
-- app/core/models/runtime_fact_assembly.py). An assertion that fails and a constructor that raises are
-- `none`.
use ai_trading_advisor.Prelude.{
  ℕ, Bool, true, false, ◌&&◌, Option, none, some, List, [], ◌∷◌, keep, if◌then◌else◌, negb, ◌==◌,
  ◌>>=◌, map, is_sorted, no_duplicates,
}
use ai_trading_advisor.Strategy.Router.{is_empty}
use ai_trading_advisor.Market.Result.{is_some}
use ai_trading_advisor.Decimal.Context.{DecimalContext, lt}
use ai_trading_advisor.Money.Account.{AccountRiskSnapshot, is_valid_snapshot}
use ai_trading_advisor.Broker.Rollover.{Mt5RolloverOutcome, Mt5RolloverState, is_usable}
use ai_trading_advisor.Broker.Deals.{Mt5RealizedPnlOutcome}
use ai_trading_advisor.Broker.History.{Mt5RealizedDailyPnlAssessment}
use ai_trading_advisor.Broker.OpenRisk.{Mt5OpenRiskOutcome, Mt5OpenRiskAssessment}

pub data RuntimeFactAssemblyOutcome : Type 0 where
  ready blocked : RuntimeFactAssemblyOutcome

pub data RuntimeFactAssemblyBlockReason : Type 0 where
  rollover_unavailable realized_pnl_unavailable : RuntimeFactAssemblyBlockReason
  open_risk_unavailable timestamp_mismatch : RuntimeFactAssemblyBlockReason

pub record Mt5RolloverSnapshot (Decimal : Type 0) : Type 0 where
  pub as_of : ℕ
  pub rollover_outcome : Mt5RolloverOutcome
  pub rollover_state : Option (Mt5RolloverState Decimal)
  pub current_equity : Decimal
  pub floating_pnl : Decimal

-- The time stamps and the day that the assessments carry.
pub record Stamps : Type 0 where
  pub realized_as_of : ℕ
  pub realized_trading_day_key : ℕ
  pub open_risk_as_of : ℕ

pub record AccountRiskSnapshotAssembly (Decimal : Type 0) : Type 0 where
  pub outcome : RuntimeFactAssemblyOutcome
  pub account_snapshot : Option (AccountRiskSnapshot Decimal)
  pub reasons : List RuntimeFactAssemblyBlockReason

abbrev pub assembly_reason_index : RuntimeFactAssemblyBlockReason → ℕ
assembly_reason_index RuntimeFactAssemblyBlockReason.rollover_unavailable = 0
assembly_reason_index RuntimeFactAssemblyBlockReason.realized_pnl_unavailable = 1
assembly_reason_index RuntimeFactAssemblyBlockReason.open_risk_unavailable = 2
assembly_reason_index RuntimeFactAssemblyBlockReason.timestamp_mismatch = 3

-- `tuple(RuntimeFactAssemblyBlockReason)`
abbrev pub assembly_reason_order : List RuntimeFactAssemblyBlockReason
assembly_reason_order =
    RuntimeFactAssemblyBlockReason.rollover_unavailable
    ∷ RuntimeFactAssemblyBlockReason.realized_pnl_unavailable
    ∷ RuntimeFactAssemblyBlockReason.open_risk_unavailable
    ∷ RuntimeFactAssemblyBlockReason.timestamp_mismatch ∷ []

abbrev pub is_realized : Mt5RealizedPnlOutcome → Bool
is_realized Mt5RealizedPnlOutcome.ready = true
is_realized Mt5RealizedPnlOutcome.blocked = false

abbrev pub is_assessed : Mt5OpenRiskOutcome → Bool
is_assessed Mt5OpenRiskOutcome.ready = true
is_assessed Mt5OpenRiskOutcome.blocked = false

abbrev pub is_same_day : {Decimal : Type 0} → Option (Mt5RolloverState Decimal) → ℕ → Bool
is_same_day none key = true
is_same_day (some s) key = s.trading_day_key == key

-- `_timestamps_coherent`
unfoldable pub timestamps_coherent :
    {Decimal : Type 0} → ℕ → Mt5RolloverSnapshot Decimal → Stamps → Bool
timestamps_coherent as_of rollover stamps =
    rollover.as_of == as_of
    && (stamps.realized_as_of == as_of
        && (stamps.open_risk_as_of == as_of
            && is_same_day rollover.rollover_state stamps.realized_trading_day_key))

-- Whether a reason is in the set that is built, by the three usable flags and the coherence.
abbrev pub is_reason : Bool → Bool → Bool → Bool → RuntimeFactAssemblyBlockReason → Bool
is_reason u p o c RuntimeFactAssemblyBlockReason.rollover_unavailable = negb u
is_reason u p o c RuntimeFactAssemblyBlockReason.realized_pnl_unavailable = negb p
is_reason u p o c RuntimeFactAssemblyBlockReason.open_risk_unavailable = negb o
is_reason u p o c RuntimeFactAssemblyBlockReason.timestamp_mismatch = negb c

abbrev pub assembly_reasons : Bool → Bool → Bool → Bool → List RuntimeFactAssemblyBlockReason
assembly_reasons u p o c = keep (is_reason u p o c) assembly_reason_order

-- `_validate_snapshot_presence`
abbrev pub has_expected_snapshot :
    {Decimal : Type 0} → RuntimeFactAssemblyOutcome → AccountRiskSnapshotAssembly Decimal → Bool
has_expected_snapshot RuntimeFactAssemblyOutcome.ready a =
    is_some a.account_snapshot && is_empty a.reasons
has_expected_snapshot RuntimeFactAssemblyOutcome.blocked a =
    negb (is_some a.account_snapshot) && negb (is_empty a.reasons)

-- `_validate_reasons_canonical_and_unique`
abbrev pub are_canonical : List RuntimeFactAssemblyBlockReason → Bool
are_canonical rs =
    is_sorted (map assembly_reason_index rs) && no_duplicates (map assembly_reason_index rs)

-- `AccountRiskSnapshotAssembly(...)`
abbrev pub assembly_of :
    {Decimal : Type 0}
    → AccountRiskSnapshotAssembly Decimal
    → Option (AccountRiskSnapshotAssembly Decimal)
assembly_of a =
    if has_expected_snapshot a.outcome a && are_canonical a.reasons then some a else none

module _ (C : DecimalContext) where
  open C use {Decimal, zero}

  -- The constraints and the validator of a rollover snapshot that has a state or none.
  abbrev pub has_positive_equity : Option (Mt5RolloverState Decimal) → Bool
  has_positive_equity none = true
  has_positive_equity (some s) = lt C zero s.rollover_equity

  abbrev pub is_valid_rollover : Mt5RolloverSnapshot Decimal → Bool
  is_valid_rollover r =
      lt C zero r.current_equity
      && (has_positive_equity r.rollover_state
          && (if is_usable r.rollover_outcome
              then is_some r.rollover_state
              else negb (is_some r.rollover_state)))

  -- `AccountRiskSnapshot(...)` and the assembly that carries it.
  abbrev pub with_snapshot :
      AccountRiskSnapshot Decimal → Option (AccountRiskSnapshotAssembly Decimal)
  with_snapshot a =
      if is_valid_snapshot C a
      then assembly_of (record {
        outcome = RuntimeFactAssemblyOutcome.ready;
        account_snapshot = some a;
        reasons = [];
      })
      else none

  -- The end of `assemble_account_risk_snapshot`, by the reasons in order.
  abbrev pub conclude :
      List RuntimeFactAssemblyBlockReason
      → Mt5RolloverSnapshot Decimal
      → Option Decimal
      → Option Decimal
      → Option (AccountRiskSnapshotAssembly Decimal)
  conclude (r ∷ rs) rollover realized risk = assembly_of (record {
    outcome = RuntimeFactAssemblyOutcome.blocked;
    account_snapshot = none;
    reasons = r ∷ rs;
  })
  conclude [] rollover realized risk = rollover.rollover_state >>= (λ s. realized >>= (λ pnl.
      risk >>= (λ open_risk. with_snapshot (record {
        rollover_equity = s.rollover_equity;
        current_equity = rollover.current_equity;
        realized_daily_pnl = pnl;
        floating_pnl = rollover.floating_pnl;
        current_open_risk_to_stop = open_risk;
      }))))

  unfoldable pub assemble_account_risk_snapshot :
      ℕ
      → Mt5RolloverSnapshot Decimal
      → Stamps
      → Mt5RealizedDailyPnlAssessment Decimal
      → Mt5OpenRiskAssessment Decimal
      → Option (AccountRiskSnapshotAssembly Decimal)
  assemble_account_risk_snapshot as_of rollover stamps realized risk =
      conclude
        (assembly_reasons (is_usable rollover.rollover_outcome) (is_realized realized.outcome)
          (is_assessed risk.outcome) (timestamps_coherent as_of rollover stamps))
        rollover realized.realized_daily_pnl risk.current_open_risk_to_stop
