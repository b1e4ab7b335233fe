-- ===== src/Broker/Tests.antt =====
-- The rollover theorems over the cycles of three days, and the sizing theorem at one candidate in a
-- decimal context of four places.
use ai_trading_advisor.Prelude.{
  ◌>>=◌, ℕ, ◌≡◌, ◌≤◌, ◌+◌, ◌↔◌, inr, All, List, refl, none, Bool, true, false, some, [], ◌∷◌, arith,
}
use ai_trading_advisor.Broker.Rollover.{
  Mt5RolloverState, Mt5RolloverPolicyConfig, Mt5RolloverEstablishmentMode, Cycle, Decision,
  PersistedStateReadStatus, decide_rollover, decide_persisted, has_state, step, run,
}
use ai_trading_advisor.Decimal.FixedPoint.{
  ℤ, pos, negsuc, fixed_point, fixed_point-OrderLaws, fixed_point-DifferenceLaws,
}
use ai_trading_advisor.Decimal.FixedGrid.{fixed_point-GridLaws}
use ai_trading_advisor.Decimal.ExactFixedPoint.{fixed_point-ExactAddLaws, fixed_point-SignLaws}
use ai_trading_advisor.Broker.Tally.{tally}
use ai_trading_advisor.Broker.Deals.{
  Mt5Deal, Mt5DealType, Mt5DealEntry, Mt5RealizedPnlOutcome, epoch, classify_trading_deal,
}
use ai_trading_advisor.Broker.History.{
  Mt5RealizedDailyPnlAssessment, assess_deal, realized_daily_pnl_fields, compute_realized_daily_pnl,
  is_valid as is_valid_day,
}
use ai_trading_advisor.Broker.DayPnl.{SafeDeal, compute_realized_daily_pnl-SafeDeal}
use ai_trading_advisor.Broker.DaySplit.{realized_daily_pnl-split}
use ai_trading_advisor.Broker.OpenRisk.{
  OrderSide, Mt5Position, Mt5OpenRiskOutcome, Mt5OpenRiskBlockReason, open_risk_fields,
  assess_open_risk, position_contribution, is_valid,
}
use ai_trading_advisor.Broker.OpenRiskTotal.{Assessable, assess_open_risk-Assessable}
use ai_trading_advisor.Broker.OpenRiskValid.{assess_open_risk-is_valid}
use ai_trading_advisor.Broker.Sizing.{
  TradeDirection, Mt5SymbolTradeMode, Mt5SizingOutcome, Mt5BrokerSizingRequest, Mt5SymbolFacts,
  compute_broker_sizing, size_at, floor_volume_to_step,
}
use ai_trading_advisor.Broker.SizingRisk.{Reference, SafeAt, compute_broker_sizing-SafeAt}
use ai_trading_advisor.Broker.RolloverDays.{decide_rollover-total, run-frozen, run-monotone}

abbrev policy : Mt5RolloverPolicyConfig
policy = record { rollover_timezone = "Europe/Athens"; rollover_hour = 0 }

abbrev stored : Mt5RolloverState ℤ
stored = record {
  trading_day_key = 20;
  rollover_equity = pos 1000;
  established_at = 5;
  rollover_timezone = "Europe/Athens";
  rollover_hour = 0;
  establishment_mode = Mt5RolloverEstablishmentMode.midday_bootstrap;
}

abbrev cycle : ℕ → ℕ → Bool → Cycle ℤ
cycle key equity writable = record {
  trading_day_key = key;
  current_equity = pos equity;
  as_of = 6;
  readable = true;
  writable = writable;
}

decide_rollover-total_example :
    (d : Decision ℤ) × (decide_rollover
        (fixed_point false)
        policy
        21
        (pos 900)
        6
        PersistedStateReadStatus.valid
        (some stored)
      ≡ some d)
    × (has_state d ≡ true)
decide_rollover-total_example =
    decide_rollover-total (fixed_point false) policy 21 (pos 900) 6 PersistedStateReadStatus.valid
      (some stored) refl refl

run-frozen_example :
    run
      (fixed_point false)
      policy
      (some stored)
      (cycle 20 900 true ∷ cycle 19 800 true ∷ cycle 20 700 true ∷ [])
    ≡ some stored
run-frozen_example =
    run-frozen (fixed_point false) policy stored
      (cycle 20 900 true ∷ cycle 19 800 true ∷ cycle 20 700 true ∷ []) (ground arith)

run-monotone_example :
    (t : Mt5RolloverState ℤ) × (run
        (fixed_point false)
        policy
        (some stored)
        (cycle 21 900 true ∷ cycle 22 800 false ∷ [])
      ≡ some t)
    × (20 ≤ t.trading_day_key)
run-monotone_example =
    run-monotone (fixed_point false) policy stored (cycle 21 900 true ∷ cycle 22 800 false ∷ [])

-- The day 21 is established, and the failed write of day 22 leaves it.
new_day :
    run (fixed_point false) policy (some stored) (cycle 21 900 true ∷ cycle 22 800 false ∷ [])
    ≡ some (record {
      trading_day_key = 21;
      rollover_equity = pos 900;
      established_at = 6;
      rollover_timezone = "Europe/Athens";
      rollover_hour = 0;
      establishment_mode = Mt5RolloverEstablishmentMode.post_boundary_first_observation;
    })
unfolding run step decide_rollover decide_persisted
new_day = refl

abbrev request : Mt5BrokerSizingRequest ℤ
request = record {
  direction = TradeDirection.long;
  stop_loss = pos 990000;
  entry_price = none;
  session_allocated_risk = pos 1250000;
}

abbrev facts : Mt5SymbolFacts ℤ
facts = record {
  trade_tick_size = pos 1000;
  trade_tick_value_loss = pos 10000;
  volume_min = pos 10000;
  volume_max = pos 1000000;
  volume_step = pos 10000;
  trade_mode = Mt5SymbolTradeMode.full;
  bid = pos 999000;
  ask = pos 1000000;
}

-- A stop one below the ask costs 10 for a volume of one, so 125 buys a volume of 12.
twelve : compute_broker_sizing (fixed_point false) request facts ≡ record {
  outcome = Mt5SizingOutcome.actionable;
  broker_volume = some (pos 120000);
  actual_monetary_risk = some (pos 1200000);
}
unfolding compute_broker_sizing size_at floor_volume_to_step
twelve = refl

compute_broker_sizing-SafeAt_example :
    (price : ℤ) × (distance : ℤ) × (volume : ℤ) × (Reference
      (fixed_point false)
      request
      facts
      price)
    × SafeAt
        (fixed_point false)
        request
        facts
        (compute_broker_sizing (fixed_point false) request facts)
        price
        distance
        volume
unfolding compute_broker_sizing size_at floor_volume_to_step
compute_broker_sizing-SafeAt_example =
    compute_broker_sizing-SafeAt (fixed_point false) (fixed_point-OrderLaws false)
      fixed_point-SignLaws (fixed_point-DifferenceLaws false) fixed_point-GridLaws request facts
      refl

abbrev deal : ℕ → ℕ → Mt5DealEntry → ℤ → Mt5Deal ℤ
deal ticket seconds entry profit = record {
  ticket = ticket;
  position_id = 7;
  time = epoch + seconds;
  symbol = some "EURUSD";
  deal_type = Mt5DealType.buy;
  entry = entry;
  volume = pos 10000;
  price = pos 11000;
  profit = profit;
  commission = negsuc 999;
  swap = pos 0;
  fee = pos 0;
}

-- An opening at ten seconds and a closing at twenty.
abbrev deals : List (Mt5Deal ℤ)
deals = deal 1 10 Mt5DealEntry.opening (pos 0) ∷ deal 2 20 Mt5DealEntry.closing (pos 50000) ∷ []

-- The profit of five less both commissions of a tenth.
booked :
    (realized_daily_pnl_fields (fixed_point false) deals epoch (epoch + 30)).realized_daily_pnl
    ≡ some (pos 48000)
unfolding realized_daily_pnl_fields tally assess_deal classify_trading_deal
booked = refl

-- A deal that closes by another blocks the day.
unbookable :
    (realized_daily_pnl_fields
      (fixed_point false)
      (deal 3 5 Mt5DealEntry.out_by (pos 0) ∷ deals)
      epoch
      (epoch + 30)).outcome
    ≡ Mt5RealizedPnlOutcome.blocked
unfolding realized_daily_pnl_fields tally assess_deal classify_trading_deal
unbookable = refl

-- Two unsafe deals of one ticket are refused by the constructor.
twice_unsafe :
    compute_realized_daily_pnl
      (fixed_point false)
      (deal 3 5 Mt5DealEntry.out_by (pos 0) ∷ deal 3 6 Mt5DealEntry.out_by (pos 0) ∷ [])
      epoch
      (epoch + 30)
    ≡ none
unfolding compute_realized_daily_pnl realized_daily_pnl_fields tally assess_deal
    classify_trading_deal is_valid_day
twice_unsafe = refl

compute_realized_daily_pnl-SafeDeal_example :
    ((a : Mt5RealizedDailyPnlAssessment ℤ) × (compute_realized_daily_pnl
          (fixed_point false)
          deals
          epoch
          (epoch + 30)
        ≡ some a)
      × (a.outcome ≡ Mt5RealizedPnlOutcome.ready))
    ↔ All (SafeDeal epoch (epoch + 30)) deals
compute_realized_daily_pnl-SafeDeal_example =
    compute_realized_daily_pnl-SafeDeal (fixed_point false) deals epoch (epoch + 30)

realized_daily_pnl-split_example :
    (x : ℤ) × (y : ℤ) × ((compute_realized_daily_pnl (fixed_point false) deals epoch (epoch + 15)
        >>= (λ r. r.realized_daily_pnl))
      ≡ some x)
    × ((compute_realized_daily_pnl (fixed_point false) deals (epoch + 15) (epoch + 30)
          >>= (λ r. r.realized_daily_pnl))
        ≡ some y)
    × ((compute_realized_daily_pnl (fixed_point false) deals epoch (epoch + 30)
          >>= (λ r. r.realized_daily_pnl))
        ≡ some ((fixed_point false).add x y))
realized_daily_pnl-split_example =
    realized_daily_pnl-split (fixed_point false) fixed_point-ExactAddLaws deals epoch (epoch + 15)
      (epoch + 30) (ground arith) (ground arith)
      ((ground arith, inr tt), ((ground arith, inr tt), tt))

abbrev position : Mt5Position ℤ
position = record {
  ticket = 7;
  symbol = "EURUSD";
  side = OrderSide.buy;
  volume = pos 20000;
  price_open = pos 1000000;
  price_current = pos 1000000;
  stop_loss = some (pos 990000);
}

abbrev listed : List (Mt5Position ℤ)
listed = position ∷ record position { ticket = 8; stop_loss = some (pos 1010000) } ∷ []

-- The stop of the first is one below for a volume of two; the second is protected.
twenty :
    (open_risk_fields (fixed_point false) listed (("EURUSD", facts) ∷ [])).current_open_risk_to_stop
    ≡ some (pos 200000)
unfolding open_risk_fields tally position_contribution
twenty = refl

-- Without facts the first blocks the assessment.
unpriced :
    (open_risk_fields (fixed_point false) listed []).blocked_reasons
    ≡ Mt5OpenRiskBlockReason.symbol_unavailable ∷ []
unfolding open_risk_fields tally position_contribution
unpriced = refl

assess_open_risk-Assessable_example :
    ((open_risk_fields (fixed_point false) listed (("EURUSD", facts) ∷ [])).outcome
      ≡ Mt5OpenRiskOutcome.ready)
    ↔ All (Assessable (fixed_point false) (("EURUSD", facts) ∷ [])) listed
assess_open_risk-Assessable_example =
    assess_open_risk-Assessable (fixed_point false) listed (("EURUSD", facts) ∷ [])

assess_open_risk-is_valid_example :
    (is_valid
        (fixed_point false)
        (open_risk_fields (fixed_point false) listed (("EURUSD", facts) ∷ []))
      ≡ true)
    × (assess_open_risk (fixed_point false) listed (("EURUSD", facts) ∷ [])
        ≡ some (open_risk_fields (fixed_point false) listed (("EURUSD", facts) ∷ [])))
assess_open_risk-is_valid_example =
    assess_open_risk-is_valid (fixed_point false) (fixed_point-OrderLaws false) fixed_point-SignLaws
      listed (("EURUSD", facts) ∷ []) refl (refl, (refl, tt))
