-- ===== src/Tracking/Matching.antt =====
-- The matching of a recommendation with a broker position (app/mt5/matching.py) and the validators of
-- its result (app/core/models/mt5_matching.py). A constructor that raises is `none`.
use Prim.Native.String.{String}
use text.Mathlib.Text.{◌==◌ as str_eq}
use ai_trading_advisor.Prelude.{
  ℕ, Bool, true, false, ◌&&◌, Option, none, some, List, [], ◌∷◌, map, keep, contains, no_duplicates,
  is_sorted, if◌then◌else◌, leb, ltb, ◌==◌, negb, ◌is◌, length,
}
use ai_trading_advisor.Market.Result.{is_some}
use ai_trading_advisor.Strategy.Router.{is_empty}
use ai_trading_advisor.Decimal.Context.{DecimalContext, sum_from, eq, lt}
use ai_trading_advisor.Broker.Sizing.{TradeDirection}
use ai_trading_advisor.Broker.Deals.{
  Mt5Deal, Mt5DealType, Mt5DealEntry, Mt5HistoryReadStatus, deal_type_enum,
}
use ai_trading_advisor.Tracking.Groups.{sorted, earliest, same_time, find_group, append_to, keys}

pub data Mt5MatchOutcome : Type 0 where
  matched ambiguous partial_fill volume_mismatch : Mt5MatchOutcome
  no_candidate_yet expired_confirmed_unfilled read_unavailable : Mt5MatchOutcome

pub record Mt5MatchResult : Type 0 where
  pub outcome : Mt5MatchOutcome
  pub matched_position_id : Option ℕ
  pub candidate_position_ids : List ℕ

-- The arguments of `match_recommendation` that describe the recommendation.
pub record MatchQuery (Decimal : Type 0) : Type 0 where
  pub symbol : String
  pub direction : TradeDirection
  pub signal_time : ℕ
  pub valid_until : ℕ
  pub approved_broker_volume : Decimal
  pub pre_existing_position_ids : List ℕ
  pub already_claimed_position_ids : List ℕ

-- What was read of the broker's history, and how far the read reached.
pub record HistoryRead (Decimal : Type 0) : Type 0 where
  pub deals : List (Mt5Deal Decimal)
  pub history_read_status : Mt5HistoryReadStatus
  pub history_covers_until : ℕ

-- `_DIRECTION_TO_DEAL_TYPE.get(direction)`
abbrev pub expected_deal_type : TradeDirection → Option Mt5DealType
expected_deal_type TradeDirection.long = some Mt5DealType.buy
expected_deal_type TradeDirection.short = some Mt5DealType.sell
expected_deal_type TradeDirection.neutral = none
expected_deal_type TradeDirection.wait = none

abbrev pub is_of_type : Option Mt5DealType → Mt5DealType → Bool
is_of_type none t = false
is_of_type (some expected) t = t is expected

abbrev pub is_opening : Mt5DealEntry → Bool
is_opening Mt5DealEntry.opening = true
is_opening _ = false

abbrev pub is_symbol : Option String → String → Bool
is_symbol none symbol = false
is_symbol (some s) symbol = str_eq s symbol

abbrev pub is_ok : Mt5HistoryReadStatus → Bool
is_ok Mt5HistoryReadStatus.ok = true
is_ok _ = false

-- `_validate_fields_match_outcome`
abbrev pub fields_match : Mt5MatchOutcome → Option ℕ → List ℕ → Bool
fields_match Mt5MatchOutcome.matched id candidates = is_some id && is_empty candidates
fields_match Mt5MatchOutcome.ambiguous id candidates =
    negb (is_some id) && leb 2 (length candidates)
fields_match Mt5MatchOutcome.partial_fill id candidates =
    negb (is_some id) && negb (is_empty candidates)
fields_match Mt5MatchOutcome.volume_mismatch id candidates =
    negb (is_some id) && negb (is_empty candidates)
fields_match _ id candidates = negb (is_some id) && is_empty candidates

-- `Field(gt=0)`
abbrev pub is_positive_id : Option ℕ → Bool
is_positive_id none = true
is_positive_id (some id) = ltb 0 id

-- The field constraint and the validators of `MT5MatchResult`.
unfoldable pub is_valid : Mt5MatchResult → Bool
is_valid r =
    is_positive_id r.matched_position_id
    && (fields_match r.outcome r.matched_position_id r.candidate_position_ids
        && (is_sorted r.candidate_position_ids && no_duplicates r.candidate_position_ids))

-- `MT5MatchResult(...)`
abbrev pub construct : Mt5MatchResult → Option Mt5MatchResult
construct r = if is_valid r then some r else none

abbrev pub without_match : Mt5MatchOutcome → List ℕ → Mt5MatchResult
without_match outcome candidates = record {
  outcome = outcome;
  matched_position_id = none;
  candidate_position_ids = candidates;
}

module _ (C : DecimalContext) where
  open C use {Decimal, zero, le}

  -- `_qualifies_structurally`
  unfoldable pub qualifies_structurally : MatchQuery Decimal → Mt5Deal Decimal → Bool
  qualifies_structurally q d =
      is_of_type (expected_deal_type q.direction) d.deal_type
      && (is_opening d.entry
          && (is_symbol d.symbol q.symbol
              && ((leb q.signal_time d.time && leb d.time q.valid_until)
                  && (negb (contains d.position_id q.pre_existing_position_ids)
                      && negb (contains d.position_id q.already_claimed_position_ids)))))

  abbrev pub times : List (Mt5Deal Decimal) → List ℕ
  times = map (λ d. d.time)

  -- `_is_first_lifecycle_consistent`
  unfoldable pub is_first_lifecycle_consistent :
      ℕ → List (Mt5Deal Decimal) → List (Mt5Deal Decimal) → Bool
  is_first_lifecycle_consistent position_id group deals =
      same_time (earliest (times (keep (λ d. d.position_id == position_id) deals)))
        (earliest (times group))

  -- The loop of `match_recommendation` that groups the qualifying deals.
  unfoldable pub group_deals :
      MatchQuery Decimal
      → List (ℕ × List (Mt5Deal Decimal))
      → List (Mt5Deal Decimal)
      → List (ℕ × List (Mt5Deal Decimal))
  group_deals q groups [] = groups
  group_deals q groups (d ∷ ds) =
      group_deals q
        (if qualifies_structurally q d then append_to d.position_id d groups else groups) ds

  unfoldable pub eligible_position_ids :
      List (ℕ × List (Mt5Deal Decimal)) → List (Mt5Deal Decimal) → List ℕ
  eligible_position_ids groups deals =
      sorted (keys (keep (λ g. is_first_lifecycle_consistent g.0 g.1 deals) groups))

  -- The outcome of the only eligible position, by the volume of its openings.
  abbrev pub judge_volume : Decimal → Decimal → ℕ → Mt5MatchResult
  judge_volume total approved position_id =
      if eq C total approved
      then record {
        outcome = Mt5MatchOutcome.matched;
        matched_position_id = some position_id;
        candidate_position_ids = [];
      }
      else if lt C total approved
      then without_match Mt5MatchOutcome.partial_fill (position_id ∷ [])
      else without_match Mt5MatchOutcome.volume_mismatch (position_id ∷ [])

  -- The end of `match_recommendation`, with the groups and the eligible ids.
  abbrev pub judge_eligible :
      MatchQuery Decimal
      → HistoryRead Decimal
      → List (ℕ × List (Mt5Deal Decimal))
      → List ℕ
      → Mt5MatchResult
  judge_eligible q history groups [] =
      if leb q.valid_until history.history_covers_until
      then without_match Mt5MatchOutcome.expired_confirmed_unfilled []
      else without_match Mt5MatchOutcome.no_candidate_yet []
  judge_eligible q history groups (id ∷ []) =
      judge_volume (sum_from C zero (map (λ d. d.volume) (find_group id groups)))
        q.approved_broker_volume id
  judge_eligible q history groups (id ∷ other ∷ rest) =
      without_match Mt5MatchOutcome.ambiguous (id ∷ other ∷ rest)

  -- The fields of the result that `match_recommendation` constructs.
  unfoldable pub match_fields : MatchQuery Decimal → HistoryRead Decimal → Mt5MatchResult
  match_fields q history =
      let groups = group_deals q [] history.deals in
      if is_ok history.history_read_status
      then judge_eligible q history groups (eligible_position_ids groups history.deals)
      else without_match Mt5MatchOutcome.read_unavailable []

  unfoldable pub match_recommendation :
      MatchQuery Decimal → HistoryRead Decimal → Option Mt5MatchResult
  match_recommendation q history = construct (match_fields q history)
