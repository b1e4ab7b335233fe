-- ===== src/Tracking/Tests.antt =====
-- The tracking theorems at a recommendation whose order was filled in two parts, in a decimal context of
-- four places.
use ai_trading_advisor.Prelude.{
  ℕ, ◌≡◌, ◌≢◌, ◌++◌, ◌+◌, ◌↔◌, refl, true, false, none, some, List, [], ◌∷◌, no_duplicates, arith,
}
use ai_trading_advisor.Decimal.FixedPoint.{ℤ, pos, fixed_point}
use ai_trading_advisor.Broker.Tally.{tally}
use ai_trading_advisor.Broker.Sizing.{TradeDirection}
use ai_trading_advisor.Broker.Deals.{
  Mt5Deal, Mt5DealType, Mt5DealEntry, Mt5HistoryReadStatus, epoch, classify_trading_deal,
}
use ai_trading_advisor.Tracking.Groups.{append_to, sorted}
use ai_trading_advisor.Tracking.Matching.{
  Mt5MatchOutcome, Mt5MatchResult, HistoryRead, match_recommendation, match_fields, group_deals,
  eligible_position_ids, qualifies_structurally, is_first_lifecycle_consistent, is_valid,
}
use ai_trading_advisor.Tracking.Ownership.{matched_with, IsMatch, match_recommendation-IsMatch}
use ai_trading_advisor.Tracking.MatchResult.{match_recommendation-total}
use ai_trading_advisor.Tracking.Lifecycle.{
  is_valid as is_valid_lifecycle, book_deal, reconstruct_position_lifecycle,
}
use ai_trading_advisor.Tracking.Tracker.{
  TradeStatus, PositionRecord, Mt5TrackedRecommendation, is_valid_tracked, query_of,
  classify_terminal_status, follow_position, advance_tracked_recommendation,
}
use ai_trading_advisor.Tracking.Following.{
  KeepsOrFinds, advance_tracked_recommendation-KeepsOrFinds,
}
use ai_trading_advisor.Tracking.Sweep.{advance_all_existing_tracking, run}
use ai_trading_advisor.Tracking.Claims.{position_ids}
use ai_trading_advisor.Tracking.Upkeep.{
  StillHas, IsUnchanged, run-keeps_claims, advance_tracked_recommendation-unread,
}
use ai_trading_advisor.Tracking.Issuance.{
  Mt5PositionsReadStatus, CreationOutcome, CreationResult, position_ids_of,
  create_tracked_recommendation, evaluate_netting_guard, NettingIssuanceOutcome,
}
use ai_trading_advisor.Tracking.IssuanceLock.{
  NoneOpen, NoneLive, evaluate_netting_guard-allowed_iff, create_tracked_recommendation-locks,
}

abbrev pending : PositionRecord ℤ
pending = record {
  trade_id = "A";
  symbol = "EURUSD";
  direction = TradeDirection.long;
  signal_time = epoch + 100;
  valid_until = epoch + 200;
  status = TradeStatus.pending;
  planned_entry = pos 11000;
  actual_entry = none;
  actual_entry_time = none;
  stop_loss = pos 10000;
  take_profit_levels = [];
  exit_price = none;
  exit_time = none;
  pnl = none;
}

abbrev tracked : Mt5TrackedRecommendation ℤ
tracked = record {
  position_record = pending;
  approved_broker_volume = pos 30000;
  pre_existing_position_ids = 4 ∷ [];
  matched_position_id = none;
  last_match_outcome = none;
  last_read_at = none;
}

abbrev fill : ℕ → ℕ → ℕ → ℤ → Mt5DealEntry → Mt5DealType → ℤ → Mt5Deal ℤ
fill ticket position seconds volume entry type profit = record {
  ticket = ticket;
  position_id = position;
  time = epoch + seconds;
  symbol = some "EURUSD";
  deal_type = type;
  entry = entry;
  volume = volume;
  price = pos 11000;
  profit = profit;
  commission = pos 0;
  swap = pos 0;
  fee = pos 0;
}

-- Two parts of one position, and a deal of a position that was open before.
abbrev fills : List (Mt5Deal ℤ)
fills =
    fill 1 9 110 (pos 10000) Mt5DealEntry.opening Mt5DealType.buy (pos 0)
    ∷ fill 2 4 115 (pos 30000) Mt5DealEntry.opening Mt5DealType.buy (pos 0)
    ∷ fill 3 9 120 (pos 20000) Mt5DealEntry.opening Mt5DealType.buy (pos 0)
    ∷ []

abbrev history : List (Mt5Deal ℤ) → HistoryRead ℤ
history deals = record {
  deals = deals;
  history_read_status = Mt5HistoryReadStatus.ok;
  history_covers_until = epoch + 150;
}

abbrev unread : HistoryRead ℤ
unread = record (history []) { history_read_status = Mt5HistoryReadStatus.unavailable }

abbrev closed_fills : List (Mt5Deal ℤ)
closed_fills = fill 4 9 160 (pos 30000) Mt5DealEntry.closing Mt5DealType.sell (pos 50000) ∷ fills

filled :
    match_recommendation
      (fixed_point false)
      (query_of (fixed_point false) tracked [])
      (history fills)
    ≡ some (matched_with (fixed_point false) 9)
unfolding match_recommendation match_fields group_deals eligible_position_ids qualifies_structurally
    is_first_lifecycle_consistent is_valid append_to sorted
filled = refl

match_recommendation-IsMatch_example :
    (match_recommendation
        (fixed_point false)
        (query_of (fixed_point false) tracked [])
        (history fills)
      ≡ some (matched_with (fixed_point false) 9))
    ↔ IsMatch (fixed_point false) (query_of (fixed_point false) tracked []) (history fills) 9
match_recommendation-IsMatch_example =
    match_recommendation-IsMatch (fixed_point false) (query_of (fixed_point false) tracked [])
      (history fills) 9 (ground arith)

match_recommendation-total_example :
    (r : Mt5MatchResult) × (match_recommendation
        (fixed_point false)
        (query_of (fixed_point false) tracked [])
        (history fills)
      ≡ some r)
match_recommendation-total_example =
    match_recommendation-total (fixed_point false) (query_of (fixed_point false) tracked [])
      (history fills) (ground arith, (ground arith, (ground arith, tt)))

-- The two parts make an open position, and the closing deal a win.
abbrev opened : Mt5TrackedRecommendation ℤ
opened = record tracked {
  position_record = record pending {
    status = TradeStatus.open_;
    actual_entry = some (pos 11000);
    actual_entry_time = some (epoch + 110);
  };
  matched_position_id = some 9;
  last_match_outcome = some Mt5MatchOutcome.matched;
  last_read_at = some (epoch + 150);
}

abbrev won : Mt5TrackedRecommendation ℤ
won = record opened {
  position_record = record (opened.position_record) {
    status = TradeStatus.win;
    exit_price = some (pos 11000);
    exit_time = some (epoch + 160);
    pnl = some (pos 50000);
  };
  last_read_at = some (epoch + 170);
}

abbrev cycles : List (ℕ × HistoryRead ℤ)
cycles = (epoch + 150, history fills) ∷ (epoch + 170, history closed_fills) ∷ []

opening :
    advance_tracked_recommendation (fixed_point false) (epoch + 150) tracked (history fills) []
    ≡ some opened
unfolding advance_tracked_recommendation match_recommendation match_fields group_deals
    eligible_position_ids qualifies_structurally is_first_lifecycle_consistent is_valid append_to
    sorted follow_position reconstruct_position_lifecycle is_valid_tracked tally book_deal
    classify_trading_deal is_valid_lifecycle
opening = refl

-- Both cycles: the match and the opening, then the closing.
winning : run (fixed_point false) cycles (("A", tracked) ∷ []) ≡ some (("A", won) ∷ [])
unfolding run advance_all_existing_tracking advance_tracked_recommendation match_recommendation
    match_fields group_deals eligible_position_ids qualifies_structurally
    is_first_lifecycle_consistent is_valid append_to sorted follow_position
    reconstruct_position_lifecycle is_valid_tracked tally book_deal classify_trading_deal
    is_valid_lifecycle classify_terminal_status
winning = refl

run-keeps_claims_example :
    (no_duplicates (position_ids (fixed_point false) (("A", won) ∷ [])) ≡ true)
    × StillHas (fixed_point false) (("A", tracked) ∷ []) (("A", won) ∷ [])
unfolding position_ids
run-keeps_claims_example =
    run-keeps_claims (fixed_point false) cycles (("A", tracked) ∷ []) (("A", won) ∷ []) refl winning

advance_tracked_recommendation-KeepsOrFinds_example :
    (is_valid_tracked (fixed_point false) opened ≡ true)
    × KeepsOrFinds (fixed_point false) none tracked opened (history fills) []
advance_tracked_recommendation-KeepsOrFinds_example =
    advance_tracked_recommendation-KeepsOrFinds (fixed_point false) (epoch + 150) tracked opened
      (history fills) [] opening

advance_tracked_recommendation-unread_example :
    (u : Mt5TrackedRecommendation ℤ) × (advance_tracked_recommendation
        (fixed_point false)
        (epoch + 150)
        tracked
        unread
        []
      ≡ some u)
    × IsUnchanged (fixed_point false) tracked u
unfolding is_valid_tracked
advance_tracked_recommendation-unread_example =
    advance_tracked_recommendation-unread (fixed_point false) (epoch + 150) tracked unread [] refl
      refl

-- Nothing is open and nothing is tracked, so the one recommendation is issued.
abbrev issued : CreationResult ℤ
issued = record {
  outcome = CreationOutcome.created;
  tracked_recommendation = some (record tracked { pre_existing_position_ids = [] });
}

creating :
    create_tracked_recommendation
      (fixed_point false)
      pending
      (pos 30000)
      Mt5PositionsReadStatus.ok
      []
    ≡ some issued
unfolding create_tracked_recommendation is_valid_tracked position_ids_of sorted
creating = refl

abbrev actionable : ℕ
actionable = 1

evaluate_netting_guard-allowed_iff_example :
    (evaluate_netting_guard
        (fixed_point false)
        "EURUSD"
        Mt5PositionsReadStatus.ok
        []
        (("A", tracked) ∷ [])
        actionable
      ≡ NettingIssuanceOutcome.allowed)
    ↔ (NoneOpen (fixed_point false) "EURUSD" Mt5PositionsReadStatus.ok []
        × NoneLive (fixed_point false) "EURUSD" (("A", tracked) ∷ [])
        × (actionable ≡ 1))
unfolding is_valid_tracked
evaluate_netting_guard-allowed_iff_example =
    evaluate_netting_guard-allowed_iff (fixed_point false) "EURUSD" Mt5PositionsReadStatus.ok []
      (("A", tracked) ∷ []) actionable refl

create_tracked_recommendation-locks_example :
    evaluate_netting_guard
      (fixed_point false)
      "EURUSD"
      Mt5PositionsReadStatus.unavailable
      []
      ([] ++ ("B", record tracked { pre_existing_position_ids = [] }) ∷ ("A", tracked) ∷ [])
      actionable
    ≢ NettingIssuanceOutcome.allowed
create_tracked_recommendation-locks_example =
    create_tracked_recommendation-locks (fixed_point false) pending (pos 30000)
      Mt5PositionsReadStatus.ok [] issued (record tracked { pre_existing_position_ids = [] }) "B" []
      (("A", tracked) ∷ []) Mt5PositionsReadStatus.unavailable [] actionable creating refl
