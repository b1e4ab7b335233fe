-- ===== src/Broker/History.antt =====
-- The realized result of a trading day (app/mt5/history.py) and the validators of its assessment
-- (app/core/models/mt5_history.py).
use ai_trading_advisor.Prelude.{
  ℕ, Bool, ◌&&◌, Option, none, some, List, [], map, keep, member, is_sorted, no_duplicates,
  if◌then◌else◌, negb, leb, ltb,
}
use ai_trading_advisor.Strategy.Router.{is_empty}
use ai_trading_advisor.Market.Result.{is_some}
use ai_trading_advisor.Decimal.Context.{DecimalContext, sum_from}
use ai_trading_advisor.Broker.Tally.{Round, Tally, by_assessment, tally}
use ai_trading_advisor.Broker.Deals.{
  Mt5Deal, Mt5DealType, Mt5RealizedPnlOutcome, Mt5RealizedPnlBlockReason, pnl_reason_enum,
  pnl_reason_index, pnl_reason_order, epoch, classify_trading_deal,
}

pub record Mt5RealizedDailyPnlAssessment (Decimal : Type 0) : Type 0 where
  pub outcome : Mt5RealizedPnlOutcome
  pub realized_daily_pnl : Option Decimal
  pub blocked_reasons : List Mt5RealizedPnlBlockReason
  pub unsafe_deal_tickets : List ℕ

-- `window_start <= time < window_end`
abbrev pub in_window : ℕ → ℕ → ℕ → Bool
in_window start end_ time = leb start time && ltb time end_

-- The reasons of a set in their canonical order.
abbrev pub canonical_reasons : List Mt5RealizedPnlBlockReason → List Mt5RealizedPnlBlockReason
canonical_reasons found = keep (λ r. member r found) pnl_reason_order

-- `_validate_ready_fields`
abbrev pub has_ready_fields :
    {Decimal : Type 0} → Mt5RealizedPnlOutcome → Mt5RealizedDailyPnlAssessment Decimal → Bool
has_ready_fields Mt5RealizedPnlOutcome.ready a =
    is_some a.realized_daily_pnl && (is_empty a.blocked_reasons && is_empty a.unsafe_deal_tickets)
has_ready_fields Mt5RealizedPnlOutcome.blocked a =
    negb (is_some a.realized_daily_pnl)
    && (negb (is_empty a.blocked_reasons) && negb (is_empty a.unsafe_deal_tickets))

-- The validators of `MT5RealizedDailyPnLAssessment`, but for the form of its day key.
unfoldable pub is_valid : {Decimal : Type 0} → Mt5RealizedDailyPnlAssessment Decimal → Bool
is_valid a =
    has_ready_fields a.outcome a
    && ((is_sorted (map pnl_reason_index a.blocked_reasons)
          && no_duplicates (map pnl_reason_index a.blocked_reasons))
        && no_duplicates a.unsafe_deal_tickets)

module _ (C : DecimalContext) where
  open C use {Decimal, zero}

  abbrev pub assess_by_type :
      Mt5DealType → Mt5Deal Decimal → Round Mt5RealizedPnlBlockReason Decimal
  assess_by_type Mt5DealType.non_trading d = Round.adds zero
  assess_by_type Mt5DealType.unknown d =
      Round.refuses Mt5RealizedPnlBlockReason.unmappable_deal_type
  assess_by_type Mt5DealType.buy d = by_assessment (classify_trading_deal C d)
  assess_by_type Mt5DealType.sell d = by_assessment (classify_trading_deal C d)

  -- One round of the loop of `compute_realized_daily_pnl`.
  unfoldable pub assess_deal : ℕ → ℕ → Mt5Deal Decimal → Round Mt5RealizedPnlBlockReason Decimal
  assess_deal start end_ d =
      if leb d.time epoch
      then Round.refuses Mt5RealizedPnlBlockReason.malformed_timestamp
      else if negb (in_window start end_ d.time)
      then Round.skips
      else assess_by_type d.deal_type d

  -- The end of `compute_realized_daily_pnl`.
  abbrev pub conclude :
      Tally Mt5RealizedPnlBlockReason Decimal → Mt5RealizedDailyPnlAssessment Decimal
  conclude t =
      if is_empty t.blocked_reasons
      then record {
        outcome = Mt5RealizedPnlOutcome.ready;
        realized_daily_pnl = some (sum_from C zero t.contributions);
        blocked_reasons = [];
        unsafe_deal_tickets = [];
      }
      else record {
        outcome = Mt5RealizedPnlOutcome.blocked;
        realized_daily_pnl = none;
        blocked_reasons = canonical_reasons t.blocked_reasons;
        unsafe_deal_tickets = t.unsafe_tickets;
      }

  -- What `compute_realized_daily_pnl` gives to the constructor of its assessment.
  unfoldable pub realized_daily_pnl_fields :
      List (Mt5Deal Decimal) → ℕ → ℕ → Mt5RealizedDailyPnlAssessment Decimal
  realized_daily_pnl_fields deals start end_ =
      conclude (tally (λ d. d.ticket) (assess_deal start end_) deals)

  -- `compute_realized_daily_pnl`; `none` where the constructor raises, as it does on unsafe deals that
  -- share a ticket.
  unfoldable pub compute_realized_daily_pnl :
      List (Mt5Deal Decimal) → ℕ → ℕ → Option (Mt5RealizedDailyPnlAssessment Decimal)
  compute_realized_daily_pnl deals start end_ =
      let assessment = realized_daily_pnl_fields deals start end_ in
      if is_valid assessment then some assessment else none
