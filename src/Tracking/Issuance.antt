-- ===== src/Tracking/Issuance.antt =====
-- The creation of a tracked recommendation (`create_tracked_recommendation` of app/mt5/tracker.py), and
-- the guard of a netting account (`_evaluate_netting_guard` of app/orchestration/runtime_cycle.py). What
-- raises is `none`.
use Prim.Native.String.{String}
use text.Mathlib.Text.{◌==◌ as str_eq}
use ai_trading_advisor.Prelude.{
  ℕ, Bool, true, false, ◌&&◌, Option, none, some, List, [], ◌∷◌, map, keep, contains, any_of,
  if◌then◌else◌, ◌==◌, ◌>>=◌,
}
use ai_trading_advisor.Decimal.Context.{DecimalContext}
use ai_trading_advisor.Broker.OpenRisk.{Mt5Position}
use ai_trading_advisor.Tracking.Groups.{sorted, min_from}
use ai_trading_advisor.Tracking.Tracker.{
  TradeStatus, PositionRecord, Mt5TrackedRecommendation, with_updates, with_record_updates,
}
use ai_trading_advisor.Tracking.Sweep.{Tracked}

-- `MT5PositionsReadStatus`
pub data Mt5PositionsReadStatus : Type 0 where
  ok unavailable unmappable_position_side : Mt5PositionsReadStatus

pub data CreationOutcome : Type 0 where
  created snapshot_unavailable : CreationOutcome

pub record CreationResult (Decimal : Type 0) : Type 0 where
  pub outcome : CreationOutcome
  pub tracked_recommendation : Option (Mt5TrackedRecommendation Decimal)

pub data NettingIssuanceOutcome : Type 0 where
  blocked_existing_broker_position : NettingIssuanceOutcome
  blocked_existing_unresolved_recommendation : NettingIssuanceOutcome
  no_actionable_recommendations allowed : NettingIssuanceOutcome
  blocked_multiple_actionable_recommendations : NettingIssuanceOutcome

abbrev pub is_read : Mt5PositionsReadStatus → Bool
is_read Mt5PositionsReadStatus.ok = true
is_read _ = false

-- A set of numbers, made of a list.
abbrev pub distinct : List ℕ → List ℕ
distinct [] = []
distinct (x ∷ xs) = let rest = distinct xs in if contains x rest then rest else x ∷ rest

-- `_LOCK_HOLDING_STATUSES`
abbrev pub holds_lock : TradeStatus → Bool
holds_lock TradeStatus.pending = true
holds_lock TradeStatus.open_ = true
holds_lock _ = false

module _ (C : DecimalContext) where
  open C use {Decimal}

  -- `tuple(sorted({position.ticket for position in positions if position.symbol == symbol}))`
  unfoldable pub position_ids_of : String → List (Mt5Position Decimal) → List ℕ
  position_ids_of symbol positions =
      sorted (distinct (map (λ p. p.ticket) (keep (λ p. str_eq p.symbol symbol) positions)))

  -- The record of a new recommendation: pending, and nothing of a fill.
  abbrev pub pending_record : PositionRecord Decimal → PositionRecord Decimal
  pending_record r = record r {
    status = TradeStatus.pending;
    actual_entry = none;
    actual_entry_time = none;
    exit_price = none;
    exit_time = none;
    pnl = none;
  }

  abbrev pub fresh_tracking :
      PositionRecord Decimal → Decimal → List ℕ → Mt5TrackedRecommendation Decimal
  fresh_tracking r volume ids = record {
    position_record = r;
    approved_broker_volume = volume;
    pre_existing_position_ids = ids;
    matched_position_id = none;
    last_match_outcome = none;
    last_read_at = none;
  }

  abbrev pub without_snapshot : CreationResult Decimal
  without_snapshot = record {
    outcome = CreationOutcome.snapshot_unavailable;
    tracked_recommendation = none;
  }

  -- The arguments that describe the recommendation are the fields of a record, of which the status and
  -- the fields of a fill are not read.
  unfoldable pub create_tracked_recommendation :
      PositionRecord Decimal
      → Decimal
      → Mt5PositionsReadStatus
      → List (Mt5Position Decimal)
      → Option (CreationResult Decimal)
  create_tracked_recommendation r volume Mt5PositionsReadStatus.ok positions =
      with_record_updates C (pending_record r) >>= (λ p.
        with_updates C (fresh_tracking p volume (position_ids_of r.symbol positions)) >>= (λ t.
          some (record { outcome = CreationOutcome.created; tracked_recommendation = some t })))
  create_tracked_recommendation r volume _ positions = some without_snapshot

  -- A tracked recommendation that holds the lock of a symbol.
  abbrev pub is_unresolved : String → Tracked C → Bool
  is_unresolved symbol t =
      str_eq t.1.position_record.symbol symbol && holds_lock t.1.position_record.status

  -- `_symbol_has_unresolved_tracking`
  abbrev pub symbol_has_unresolved_tracking : List (Tracked C) → String → Bool
  symbol_has_unresolved_tracking tracked symbol = any_of (is_unresolved symbol) tracked

  unfoldable pub evaluate_netting_guard :
      String
      → Mt5PositionsReadStatus
      → List (Mt5Position Decimal)
      → List (Tracked C)
      → ℕ
      → NettingIssuanceOutcome
  evaluate_netting_guard symbol status positions tracked actionable_count =
      if is_read status && any_of (λ p. str_eq p.symbol symbol) positions
      then NettingIssuanceOutcome.blocked_existing_broker_position
      else if symbol_has_unresolved_tracking tracked symbol
      then NettingIssuanceOutcome.blocked_existing_unresolved_recommendation
      else if actionable_count == 0
      then NettingIssuanceOutcome.no_actionable_recommendations
      else if actionable_count == 1
      then NettingIssuanceOutcome.allowed
      else NettingIssuanceOutcome.blocked_multiple_actionable_recommendations

  -- `_compute_history_start`
  unfoldable pub compute_history_start : ℕ → List (Tracked C) → ℕ
  compute_history_start trading_day_start tracked =
      min_from trading_day_start (map (λ t. t.1.position_record.signal_time) tracked)
