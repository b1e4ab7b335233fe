-- ===== src/Tracking/Lifecycle.antt =====
-- The lifecycle of a matched position (`reconstruct_position_lifecycle` of app/mt5/tracker.py) and the
-- validators of its assessment (app/core/models/mt5_tracking.py). What raises is `none`: a failed
-- assertion, a volume of zero to divide by, a constructor that refuses its fields.
use ai_trading_advisor.Prelude.{
  ℕ, Bool, true, false, ◌&&◌, Option, none, some, List, [], ◌∷◌, map, keep, no_duplicates,
  is_sorted, if◌then◌else◌, leb, ltb, ◌==◌, negb, ◌>>=◌,
}
use ai_trading_advisor.Market.Result.{is_some}
use ai_trading_advisor.Strategy.Router.{is_empty}
use ai_trading_advisor.Decimal.Context.{DecimalContext, sum_from, eq}
use ai_trading_advisor.Broker.Tally.{Assessed, contributes, fails, Round, Tally, tally}
use ai_trading_advisor.Broker.Deals.{
  Mt5Deal, Mt5DealType, Mt5RealizedPnlOutcome, Mt5RealizedPnlBlockReason, pnl_reason_index, epoch,
  classify_trading_deal,
}
use ai_trading_advisor.Broker.History.{canonical_reasons}
use ai_trading_advisor.Broker.OpenRisk.{is_nonnegative}
use ai_trading_advisor.Tracking.Groups.{earliest}
use ai_trading_advisor.Tracking.Matching.{is_opening}

pub record Mt5PositionLifecycleAssessment (Decimal : Type 0) : Type 0 where
  pub position_id : ℕ
  pub outcome : Mt5RealizedPnlOutcome
  pub is_fully_closed : Option Bool
  pub actual_entry : Option Decimal
  pub actual_entry_time : Option ℕ
  pub exit_price : Option Decimal
  pub exit_time : Option ℕ
  pub realized_pnl : Option Decimal
  pub blocked_reasons : List Mt5RealizedPnlBlockReason
  pub unsafe_deal_tickets : List ℕ

-- `max(times)`, of which there is at least one.
abbrev pub max_from : ℕ → List ℕ → ℕ
max_from a [] = a
max_from a (x ∷ xs) = if leb x a then max_from a xs else max_from x xs

abbrev pub latest : List ℕ → Option ℕ
latest [] = none
latest (x ∷ xs) = some (max_from x xs)

-- `_validate_ready_fields`, by the outcome and whether the position is closed.
abbrev pub exit_fields : {Decimal : Type 0} → Bool → Option Decimal → Option ℕ → Bool
exit_fields true price time = is_some price && is_some time
exit_fields false price time = negb (is_some price) && negb (is_some time)

abbrev pub closed_fields : {Decimal : Type 0} → Option Bool → Option Decimal → Option ℕ → Bool
closed_fields none price time = false
closed_fields (some closed) price time = exit_fields closed price time

abbrev pub has_ready_fields :
    {Decimal : Type 0} → Mt5RealizedPnlOutcome → Mt5PositionLifecycleAssessment Decimal → Bool
has_ready_fields Mt5RealizedPnlOutcome.ready a =
    closed_fields a.is_fully_closed a.exit_price a.exit_time
    && ((is_some a.actual_entry && is_some a.actual_entry_time)
        && (is_some a.realized_pnl
            && (is_empty a.blocked_reasons && is_empty a.unsafe_deal_tickets)))
has_ready_fields Mt5RealizedPnlOutcome.blocked a =
    negb (is_some a.is_fully_closed)
    && ((negb (is_some a.actual_entry) && negb (is_some a.actual_entry_time))
        && ((negb (is_some a.exit_price) && negb (is_some a.exit_time))
            && (negb (is_some a.realized_pnl)
                && (negb (is_empty a.blocked_reasons) && negb (is_empty a.unsafe_deal_tickets)))))

module _ (C : DecimalContext) where
  open C use {Decimal, zero, add, sub, mul, div, le}

  -- The field constraints and the validators of `MT5PositionLifecycleAssessment`.
  unfoldable pub is_valid : Mt5PositionLifecycleAssessment Decimal → Bool
  is_valid a =
      (ltb 0 a.position_id && (is_nonnegative C a.actual_entry && is_nonnegative C a.exit_price))
      && (has_ready_fields a.outcome a
          && ((is_sorted (map pnl_reason_index a.blocked_reasons)
                && no_duplicates (map pnl_reason_index a.blocked_reasons))
              && no_duplicates a.unsafe_deal_tickets))

  abbrev pub construct :
      Mt5PositionLifecycleAssessment Decimal → Option (Mt5PositionLifecycleAssessment Decimal)
  construct a = if is_valid a then some a else none

  -- A deal that is booked, with its contribution.
  abbrev pub Booked : Type 0
  Booked = Mt5Deal Decimal × Decimal

  abbrev pub book :
      Mt5Deal Decimal
      → Assessed Mt5RealizedPnlBlockReason Decimal
      → Round Mt5RealizedPnlBlockReason Booked
  book d (contributes v) = Round.adds (d, v)
  book d (fails r) = Round.refuses r

  abbrev pub book_by_type : Mt5DealType → Mt5Deal Decimal → Round Mt5RealizedPnlBlockReason Booked
  book_by_type Mt5DealType.non_trading d = Round.skips
  book_by_type Mt5DealType.unknown d = Round.refuses Mt5RealizedPnlBlockReason.unmappable_deal_type
  book_by_type _ d = book d (classify_trading_deal C d)

  -- A round of the loop.
  unfoldable pub book_deal : Mt5Deal Decimal → Round Mt5RealizedPnlBlockReason Booked
  book_deal d =
      if leb d.time epoch
      then Round.refuses Mt5RealizedPnlBlockReason.malformed_timestamp
      else book_by_type d.deal_type d

  -- The loop's net volume.
  abbrev pub net_from : Decimal → List (Mt5Deal Decimal) → Decimal
  net_from net [] = net
  net_from net (d ∷ ds) =
      net_from (if is_opening d.entry then add net d.volume else sub net d.volume) ds

  abbrev pub total_volume : List (Mt5Deal Decimal) → Decimal
  total_volume ds = sum_from C zero (map (λ d. d.volume) ds)

  -- The average price of deals; Python refuses a total volume of zero.
  abbrev pub average_price : List (Mt5Deal Decimal) → Option Decimal
  average_price ds =
      if eq C (total_volume ds) zero
      then none
      else some (div (sum_from C zero (map (λ d. mul d.price d.volume) ds)) (total_volume ds))

  -- The constructor call for an open position, and for a closed one.
  abbrev pub open_lifecycle :
      ℕ → Decimal → ℕ → Decimal → Option (Mt5PositionLifecycleAssessment Decimal)
  open_lifecycle id entry entry_time pnl = construct (record {
    position_id = id;
    outcome = Mt5RealizedPnlOutcome.ready;
    is_fully_closed = some false;
    actual_entry = some entry;
    actual_entry_time = some entry_time;
    exit_price = none;
    exit_time = none;
    realized_pnl = some pnl;
    blocked_reasons = [];
    unsafe_deal_tickets = [];
  })

  abbrev pub closed_lifecycle :
      ℕ
      → Decimal
      → ℕ
      → Decimal
      → List (Mt5Deal Decimal)
      → Option (Mt5PositionLifecycleAssessment Decimal)
  closed_lifecycle id entry entry_time pnl out_deals =
      latest (map (λ d. d.time) out_deals) >>= (λ exit_time.
        average_price out_deals >>= (λ exit_price. construct (record {
          position_id = id;
          outcome = Mt5RealizedPnlOutcome.ready;
          is_fully_closed = some true;
          actual_entry = some entry;
          actual_entry_time = some entry_time;
          exit_price = some exit_price;
          exit_time = some exit_time;
          realized_pnl = some pnl;
          blocked_reasons = [];
          unsafe_deal_tickets = [];
        })))

  -- The end of the function when nothing is blocked.
  abbrev pub conclude_ready : ℕ → List Booked → Option (Mt5PositionLifecycleAssessment Decimal)
  conclude_ready id booked =
      let booked_deals = map (λ b. b.0) booked in
      let in_deals = keep (λ d. is_opening d.entry) booked_deals in
      let pnl = sum_from C zero (map (λ b. b.1) booked) in
      earliest (map (λ d. d.time) in_deals) >>= (λ entry_time. average_price in_deals >>= (λ entry.
        if le (net_from zero booked_deals) zero
        then closed_lifecycle id entry entry_time pnl
            (keep (λ d. negb (is_opening d.entry)) booked_deals)
        else open_lifecycle id entry entry_time pnl))

  abbrev pub conclude :
      ℕ → Tally Mt5RealizedPnlBlockReason Booked → Option (Mt5PositionLifecycleAssessment Decimal)
  conclude id t =
      if is_empty t.blocked_reasons
      then conclude_ready id t.contributions
      else construct (record {
        position_id = id;
        outcome = Mt5RealizedPnlOutcome.blocked;
        is_fully_closed = none;
        actual_entry = none;
        actual_entry_time = none;
        exit_price = none;
        exit_time = none;
        realized_pnl = none;
        blocked_reasons = canonical_reasons t.blocked_reasons;
        unsafe_deal_tickets = t.unsafe_tickets;
      })

  unfoldable pub reconstruct_position_lifecycle :
      ℕ → List (Mt5Deal Decimal) → Option (Mt5PositionLifecycleAssessment Decimal)
  reconstruct_position_lifecycle position_id deals =
      conclude position_id
        (tally (λ d. d.ticket) book_deal (keep (λ d. d.position_id == position_id) deals))
