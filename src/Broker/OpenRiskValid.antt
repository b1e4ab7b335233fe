-- ===== src/Broker/OpenRiskValid.antt =====
-- The assessment of the open risk satisfies its own validators (app/mt5/risk.py,
-- app/core/models/mt5_position.py).
use Prim.Native.String.{String}
use ai_trading_advisor.Prelude.{
  some, ℕ, ◌≡◌, inl, inr, refl, true, false, ◌&&◌, Option, none, some, List, [], ◌∷◌, map,
  is_sorted, no_duplicates, All, arith, Bool-cases,
}
use ai_trading_advisor.Strategy.Router.{is_empty}
use ai_trading_advisor.Decimal.Context.{DecimalContext, OrderLaws, SignLaws, sum_from}
use ai_trading_advisor.Money.RiskVerdicts.{max_zero_nonneg}
use ai_trading_advisor.Broker.Sizing.{Mt5SymbolFacts}
use ai_trading_advisor.Broker.DayPnl.{tickets-nonempty}
use ai_trading_advisor.Broker.Tally.{
  Assessed, Round, by_assessment, tally, is_refused, added, add_value, tally-contributions,
  tally-tickets_iff, tally-unsafe_tickets, no_duplicates-keep, contributes, fails,
}
use ai_trading_advisor.Broker.OpenRisk.{
  OrderSide, Mt5OpenRiskBlockReason, open_reason_enum, open_reason_index, Mt5Position, facts_of,
  canonical_reasons, is_protected, price_distance, priced_contribution, stopped_contribution,
  position_contribution, open_risk_fields, assess_open_risk, is_valid,
}

module _ (C : DecimalContext) (order : OrderLaws C) (signs : SignLaws C) where
  open C use {Decimal, zero, sub, mul, div, le}

  abbrev NonnegativeAmount : Assessed Mt5OpenRiskBlockReason Decimal → Type 0
  NonnegativeAmount (contributes v) = le zero v ≡ true
  NonnegativeAmount (fails r) = Unit

  distance_nonneg :
      (side : OrderSide) (price_current stop : Decimal)
      → le zero (price_distance C side price_current stop) ≡ true
  distance_nonneg OrderSide.buy c s = max_zero_nonneg C order (sub c s)
  distance_nonneg OrderSide.sell c s = max_zero_nonneg C order (sub s c)

  priced_nonneg :
      (p : Mt5Position Decimal) (stop : Decimal) (facts : Option (Mt5SymbolFacts Decimal))
      → le zero p.volume ≡ true
      → NonnegativeAmount (priced_contribution C p stop facts)
  priced_nonneg p stop none h = tt
  priced_nonneg p stop (some f) h = elim (Bool-cases (le f.trade_tick_size zero)) [
    | inl e ↦ rw e tt
    | inr e ↦ elim (Bool-cases (le f.trade_tick_value_loss zero)) [
      | inl d ↦ rw (e, d) tt
      | inr d ↦
          let moves = price_distance C p.side p.price_current stop in
          let ticks : le zero (div moves f.trade_tick_size) ≡ true =
            signs.div_nonneg moves f.trade_tick_size (distance_nonneg p.side p.price_current stop)
              (ground (arith, e)) in
          rw (e, d)
            (signs.mul_nonneg (mul (div moves f.trade_tick_size) f.trade_tick_value_loss) p.volume
              (signs.mul_nonneg (div moves f.trade_tick_size) f.trade_tick_value_loss ticks
                (order.le_total f.trade_tick_value_loss zero d))
              h)
    ]
  ]

  stopped_nonneg :
      (p : Mt5Position Decimal) (facts : List (String × Mt5SymbolFacts Decimal))
      (stop : Option Decimal)
      → le zero p.volume ≡ true
      → NonnegativeAmount (stopped_contribution C p facts stop)
  stopped_nonneg p facts none h = tt
  stopped_nonneg p facts (some stop) h =
      elim (Bool-cases (is_protected C p.side p.price_open stop)) [
        | inl b ↦ rw b (order.le_refl zero)
        | inr b ↦ elim (Bool-cases (le p.price_current zero)) [
          | inl c ↦ rw (b, c) tt
          | inr c ↦ rw (b, c) (priced_nonneg p stop (facts_of p.symbol facts) h)
        ]
      ]

  add_value_nonneg :
      (a : Assessed Mt5OpenRiskBlockReason Decimal) (vs : List Decimal)
      → NonnegativeAmount a
      → All (λ v. le zero v ≡ true) vs
      → All (λ v. le zero v ≡ true) (add_value (by_assessment a) vs)
  add_value_nonneg (contributes v) vs h all = (h, all)
  add_value_nonneg (fails r) vs h all = all

  added_nonneg :
      (facts : List (String × Mt5SymbolFacts Decimal)) (ps : List (Mt5Position Decimal))
      → All (λ p. le zero p.volume ≡ true) ps
      → All
          (λ v. le zero v ≡ true)
          (added (λ p. by_assessment (position_contribution C facts p)) ps)
  unfolding added position_contribution
  added_nonneg facts [] h = tt
  added_nonneg facts (p ∷ ps) (v, h) =
      add_value_nonneg (stopped_contribution C p facts p.stop_loss)
        (added (λ p. by_assessment (position_contribution C facts p)) ps)
        (stopped_nonneg p facts p.stop_loss v) (added_nonneg facts ps h)

  sum_nonneg :
      (start : Decimal) (vs : List Decimal)
      → le zero start ≡ true
      → All (λ v. le zero v ≡ true) vs
      → le zero (sum_from C start vs) ≡ true
  sum_nonneg start [] s h = s
  sum_nonneg start (v ∷ vs) s (x, h) =
      sum_nonneg (C.add start v) vs (signs.add_nonneg start v s x) h

canonical-is_valid :
    (found : List Mt5OpenRiskBlockReason)
    → (is_sorted (map open_reason_index (canonical_reasons found))
        && no_duplicates (map open_reason_index (canonical_reasons found)))
      ≡ true
canonical-is_valid found = ground arith

canonical-nonempty :
    (found : List Mt5OpenRiskBlockReason)
    → is_empty found ≡ false
    → is_empty (canonical_reasons found) ≡ false
canonical-nonempty [] h = ground arith
canonical-nonempty (Mt5OpenRiskBlockReason.no_protective_stop ∷ rs) h = ground arith
canonical-nonempty (Mt5OpenRiskBlockReason.invalid_current_price ∷ rs) h = ground arith
canonical-nonempty (Mt5OpenRiskBlockReason.invalid_tick_economics ∷ rs) h = ground arith
canonical-nonempty (Mt5OpenRiskBlockReason.symbol_unavailable ∷ rs) h = ground arith

open_risk_fields-is_valid :
    (C : DecimalContext)
    → OrderLaws C
    → SignLaws C
    → (positions : List (Mt5Position C.Decimal)) (facts : List (String × Mt5SymbolFacts C.Decimal))
    → no_duplicates (map (λ p. p.ticket) positions) ≡ true
    → All (λ p. C.le C.zero p.volume ≡ true) positions
    → is_valid C (open_risk_fields C positions facts) ≡ true
unfolding open_risk_fields is_valid
open_risk_fields-is_valid C order signs positions facts h volumes =
    let ticket : Mt5Position C.Decimal → ℕ = λ p. p.ticket in
    let round : Mt5Position C.Decimal → Round Mt5OpenRiskBlockReason C.Decimal =
      λ p. by_assessment (position_contribution C facts p) in
    let t = tally ticket round positions in
    elim (Bool-cases (is_empty t.blocked_reasons)) [
      | inl e ↦
          let s : C.le C.zero (sum_from C C.zero t.contributions) ≡ true =
            rw (tally-contributions ticket round positions) (
              sum_nonneg C order signs C.zero (added round positions) (order.le_refl C.zero)
                (added_nonneg C order signs facts positions volumes)) in
          rw (e, s) refl
      | inr e ↦
          let n = canonical-nonempty t.blocked_reasons e in
          let m =
            tickets-nonempty t.blocked_reasons t.unsafe_tickets
              (tally-tickets_iff ticket round positions) e in
          let u : no_duplicates t.unsafe_tickets ≡ true =
            rw (tally-unsafe_tickets ticket round positions)
              (no_duplicates-keep ticket (λ p. is_refused (round p)) positions h) in
          rw (e, n, m, canonical-is_valid t.blocked_reasons) u
    ]

-- For positions with distinct tickets and volumes that are not negative, in a context with a total
-- order and the rules of signs, the open risk that is computed passes the validators of its
-- assessment, the amount being not negative, and is returned.
pub assess_open_risk-is_valid :
    (C : DecimalContext)
    → OrderLaws C
    → SignLaws C
    → (positions : List (Mt5Position C.Decimal)) (facts : List (String × Mt5SymbolFacts C.Decimal))
    → no_duplicates (map (λ p. p.ticket) positions) ≡ true
    → All (λ p. C.le C.zero p.volume ≡ true) positions
    → (is_valid C (open_risk_fields C positions facts) ≡ true)
      × (assess_open_risk C positions facts ≡ some (open_risk_fields C positions facts))
unfolding assess_open_risk
assess_open_risk-is_valid C order signs positions facts h volumes =
    let v = open_risk_fields-is_valid C order signs positions facts h volumes in (v, rw v refl)
