-- ===== src/Tracking/Tracker.antt =====
-- The tracked recommendation (app/core/models/mt5_tracking.py, app/core/models/position.py) and the
-- update of one in a cycle (app/mt5/tracker.py). What raises is `none`. The market and the percentage of
-- a `PositionRecord` and the constraints on its texts, which no update touches, are left out.
use Prim.Native.String.{String}
use ai_trading_advisor.Prelude.{
  ℕ, Bool, true, false, ◌&&◌, Option, none, some, List, contains, no_duplicates, if◌then◌else◌, leb,
  ltb, negb, ◌>>=◌, all_of,
}
use ai_trading_advisor.Decimal.Context.{DecimalContext, lt}
use ai_trading_advisor.Broker.Sizing.{TradeDirection}
use ai_trading_advisor.Broker.Deals.{Mt5RealizedPnlOutcome}
use ai_trading_advisor.Broker.OpenRisk.{is_nonnegative}
use ai_trading_advisor.Tracking.Matching.{
  Mt5MatchOutcome, MatchQuery, HistoryRead, is_ok, is_positive_id, match_recommendation,
}
use ai_trading_advisor.Tracking.Lifecycle.{
  Mt5PositionLifecycleAssessment, reconstruct_position_lifecycle,
}

pub data TradeStatus : Type 0 where
  pending filled open_ closed win loss breakeven not_filled expired cancelled : TradeStatus

pub record PositionRecord (Decimal : Type 0) : Type 0 where
  pub trade_id : String
  pub symbol : String
  pub direction : TradeDirection
  pub signal_time : ℕ
  pub valid_until : ℕ
  pub status : TradeStatus
  pub planned_entry : Decimal
  pub actual_entry : Option Decimal
  pub actual_entry_time : Option ℕ
  pub stop_loss : Decimal
  pub take_profit_levels : List Decimal
  pub exit_price : Option Decimal
  pub exit_time : Option ℕ
  pub pnl : Option Decimal

pub record Mt5TrackedRecommendation (Decimal : Type 0) : Type 0 where
  pub position_record : PositionRecord Decimal
  pub approved_broker_volume : Decimal
  pub pre_existing_position_ids : List ℕ
  pub matched_position_id : Option ℕ
  pub last_match_outcome : Option Mt5MatchOutcome
  pub last_read_at : Option ℕ

-- `_POST_MATCH_STATUSES` and `_PRE_MATCH_STATUSES`
abbrev pub is_post_match : TradeStatus → Bool
is_post_match TradeStatus.open_ = true
is_post_match TradeStatus.win = true
is_post_match TradeStatus.loss = true
is_post_match TradeStatus.breakeven = true
is_post_match _ = false

abbrev pub is_pre_match : TradeStatus → Bool
is_pre_match TradeStatus.pending = true
is_pre_match TradeStatus.not_filled = true
is_pre_match _ = false

-- `_validate_status_matches_match_state`
abbrev pub status_matches : Option ℕ → TradeStatus → Bool
status_matches none status = is_pre_match status
status_matches (some id) status = is_post_match status

-- `_validate_matched_id_not_pre_existing`
abbrev pub is_not_pre_existing : Option ℕ → List ℕ → Bool
is_not_pre_existing none ids = true
is_not_pre_existing (some id) ids = negb (contains id ids)

abbrev pub in_order : Option ℕ → Option ℕ → Bool
in_order (some entry) (some exit) = leb entry exit
in_order _ _ = true

module _ (C : DecimalContext) where
  open C use {Decimal, zero, le}

  -- The constraints on the numbers of a `PositionRecord` and `_validate_timeline`.
  abbrev pub is_valid_record : PositionRecord Decimal → Bool
  is_valid_record r =
      ((le zero r.planned_entry && le zero r.stop_loss)
        && (all_of (le zero) r.take_profit_levels
            && (is_nonnegative C r.actual_entry && is_nonnegative C r.exit_price)))
      && (ltb r.signal_time r.valid_until && in_order r.actual_entry_time r.exit_time)

  -- The field constraints and the validators of `MT5TrackedRecommendation`.
  unfoldable pub is_valid_tracked : Mt5TrackedRecommendation Decimal → Bool
  is_valid_tracked t =
      (is_valid_record t.position_record
        && (lt C zero t.approved_broker_volume && is_positive_id t.matched_position_id))
      && (no_duplicates t.pre_existing_position_ids
          && (is_not_pre_existing t.matched_position_id t.pre_existing_position_ids
              && status_matches t.matched_position_id t.position_record.status))

  -- `_with_updates`, on the updated fields.
  abbrev pub with_updates :
      Mt5TrackedRecommendation Decimal → Option (Mt5TrackedRecommendation Decimal)
  with_updates t = if is_valid_tracked t then some t else none

  abbrev pub with_record_updates : PositionRecord Decimal → Option (PositionRecord Decimal)
  with_record_updates r = if is_valid_record r then some r else none

  -- `_classify_terminal_status`
  unfoldable pub classify_terminal_status : Decimal → TradeStatus
  classify_terminal_status pnl =
      if lt C zero pnl
      then TradeStatus.win
      else if lt C pnl zero
      then TradeStatus.loss
      else TradeStatus.breakeven

  -- `_with_updates(tracked, last_read_at=as_of)`
  abbrev pub read_only :
      ℕ → Mt5TrackedRecommendation Decimal → Option (Mt5TrackedRecommendation Decimal)
  read_only as_of t = with_updates (record t { last_read_at = some as_of })

  abbrev pub with_record :
      ℕ
      → Mt5TrackedRecommendation Decimal
      → PositionRecord Decimal
      → Option (Mt5TrackedRecommendation Decimal)
  with_record as_of t r = with_record_updates r >>= (λ updated.
      with_updates (record t { position_record = updated; last_read_at = some as_of }))

  -- The update by a lifecycle that is closed, with what the assertions want.
  abbrev pub close_position :
      ℕ
      → Mt5TrackedRecommendation Decimal
      → Mt5PositionLifecycleAssessment Decimal
      → Option (Mt5TrackedRecommendation Decimal)
  close_position as_of t l = l.realized_pnl >>= (λ pnl. l.exit_price >>= (λ price.
      l.exit_time >>= (λ time. with_record as_of t (record t.position_record {
        status = classify_terminal_status pnl;
        actual_entry = l.actual_entry;
        actual_entry_time = l.actual_entry_time;
        exit_price = some price;
        exit_time = some time;
        pnl = some pnl;
      }))))

  abbrev pub keep_open :
      ℕ
      → Mt5TrackedRecommendation Decimal
      → Mt5PositionLifecycleAssessment Decimal
      → Option (Mt5TrackedRecommendation Decimal)
  keep_open as_of t l = with_record as_of t (record t.position_record {
    status = TradeStatus.open_;
    actual_entry = l.actual_entry;
    actual_entry_time = l.actual_entry_time;
  })

  -- `not lifecycle.is_fully_closed`, where an absent value counts as open.
  abbrev pub is_closed : Option Bool → Bool
  is_closed none = false
  is_closed (some b) = b

  abbrev pub settle_lifecycle :
      Mt5RealizedPnlOutcome
      → ℕ
      → Mt5TrackedRecommendation Decimal
      → Mt5PositionLifecycleAssessment Decimal
      → Option (Mt5TrackedRecommendation Decimal)
  settle_lifecycle Mt5RealizedPnlOutcome.blocked as_of t l = read_only as_of t
  settle_lifecycle Mt5RealizedPnlOutcome.ready as_of t l =
      if is_closed l.is_fully_closed then close_position as_of t l else keep_open as_of t l

  -- `advance_tracked_recommendation` from where the position is known.
  unfoldable pub follow_position :
      ℕ
      → Mt5TrackedRecommendation Decimal
      → HistoryRead Decimal
      → ℕ
      → Option (Mt5TrackedRecommendation Decimal)
  follow_position as_of t history id =
      if is_ok history.history_read_status
      then reconstruct_position_lifecycle C id history.deals
        >>= (λ l. settle_lifecycle l.outcome as_of t l)
      else read_only as_of t

  abbrev pub query_of : Mt5TrackedRecommendation Decimal → List ℕ → MatchQuery Decimal
  query_of t claimed = record {
    symbol = t.position_record.symbol;
    direction = t.position_record.direction;
    signal_time = t.position_record.signal_time;
    valid_until = t.position_record.valid_until;
    approved_broker_volume = t.approved_broker_volume;
    pre_existing_position_ids = t.pre_existing_position_ids;
    already_claimed_position_ids = claimed;
  }

  -- The update by a result that names no position.
  abbrev pub keep_unmatched :
      ℕ
      → Mt5TrackedRecommendation Decimal
      → Mt5MatchOutcome
      → Option (Mt5TrackedRecommendation Decimal)
  keep_unmatched as_of t outcome =
      with_updates (record t { last_match_outcome = some outcome; last_read_at = some as_of })

  abbrev pub expire :
      ℕ → Mt5TrackedRecommendation Decimal → Option (Mt5TrackedRecommendation Decimal)
  expire as_of t =
      with_record_updates (record t.position_record { status = TradeStatus.not_filled })
      >>= (λ updated. with_updates (record t {
        position_record = updated;
        last_match_outcome = some Mt5MatchOutcome.expired_confirmed_unfilled;
        last_read_at = some as_of;
      }))

  -- The tracked recommendation with its position, before the lifecycle is reconstructed.
  abbrev pub assign :
      ℕ → Mt5TrackedRecommendation Decimal → ℕ → Option (Mt5TrackedRecommendation Decimal)
  assign as_of t id =
      with_record_updates (record t.position_record { status = TradeStatus.open_ }) >>= (λ updated.
        with_updates (record t {
          position_record = updated;
          matched_position_id = some id;
          last_match_outcome = some Mt5MatchOutcome.matched;
          last_read_at = some as_of;
        }))

  abbrev pub settle_match :
      Mt5MatchOutcome
      → Option ℕ
      → ℕ
      → Mt5TrackedRecommendation Decimal
      → HistoryRead Decimal
      → Option (Mt5TrackedRecommendation Decimal)
  settle_match Mt5MatchOutcome.expired_confirmed_unfilled id as_of t history = expire as_of t
  settle_match Mt5MatchOutcome.matched none as_of t history = none
  settle_match Mt5MatchOutcome.matched (some id) as_of t history =
      assign as_of t id >>= (λ u. follow_position as_of u history id)
  settle_match outcome id as_of t history = keep_unmatched as_of t outcome

  abbrev pub advance_from :
      Option ℕ
      → ℕ
      → Mt5TrackedRecommendation Decimal
      → HistoryRead Decimal
      → List ℕ
      → Option (Mt5TrackedRecommendation Decimal)
  advance_from (some id) as_of t history claimed = follow_position as_of t history id
  advance_from none as_of t history claimed =
      match_recommendation C (query_of t claimed) history
      >>= (λ r. settle_match r.outcome r.matched_position_id as_of t history)

  unfoldable pub advance_tracked_recommendation :
      ℕ
      → Mt5TrackedRecommendation Decimal
      → HistoryRead Decimal
      → List ℕ
      → Option (Mt5TrackedRecommendation Decimal)
  advance_tracked_recommendation as_of t history claimed =
      advance_from t.matched_position_id as_of t history claimed
