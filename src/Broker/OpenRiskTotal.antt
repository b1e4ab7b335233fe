-- ===== src/Broker/OpenRiskTotal.antt =====
-- The open-risk assessment is complete and well-formed (app/mt5/risk.py).
use Prim.Native.String.{String}
use ai_trading_advisor.Prelude.{
  ◌≡◌, ◌↔◌, ◌⊎◌, inl, inr, refl, sym, ◌∙◌, ap, true, false, Option, none, some, some-injective,
  List, [], All, arith, Bool-cases,
}
use ai_trading_advisor.Decimal.Context.{DecimalContext, lt}
use ai_trading_advisor.Broker.Sizing.{Mt5SymbolFacts}
use ai_trading_advisor.Broker.DayPnl.{All-iff}
use ai_trading_advisor.Broker.Tally.{
  Round, Tally, by_assessment, tally, is_refused, tally-clear_iff,
}
use ai_trading_advisor.Broker.OpenRisk.{
  OrderSide, Mt5OpenRiskOutcome, Mt5OpenRiskBlockReason, open_reason_enum, Mt5Position, facts_of,
  is_protected, priced_contribution, stopped_contribution, position_contribution, conclude,
  open_risk_fields,
}

-- The facts price a position: they are there, with a positive tick size and tick value.
abbrev pub Priceable : (C : DecimalContext) → Option (Mt5SymbolFacts C.Decimal) → Type 0
Priceable C none = ⊥
Priceable C (some f) =
    (lt C C.zero f.trade_tick_size ≡ true) × (lt C C.zero f.trade_tick_value_loss ≡ true)

-- A stop that protects the position, or a stop, a positive price and facts to price the distance.
abbrev pub Assessable :
    (C : DecimalContext) → List (String × Mt5SymbolFacts C.Decimal) → Mt5Position C.Decimal → Type 0
Assessable C facts p =
    (stop : C.Decimal) × (p.stop_loss ≡ some stop)
    × ((is_protected C p.side p.price_open stop ≡ true)
        ⊎ ((lt C C.zero p.price_current ≡ true) × Priceable C (facts_of p.symbol facts)))

priced-Priceable :
    (C : DecimalContext) (p : Mt5Position C.Decimal) (stop : C.Decimal)
    (facts : Option (Mt5SymbolFacts C.Decimal))
    → (is_refused (by_assessment (priced_contribution C p stop facts)) ≡ false) ↔ Priceable C facts
priced-Priceable C p stop none = ground arith
priced-Priceable C p stop (some f) = ground arith

protected-clash :
    (C : DecimalContext) (side : OrderSide) (price_open stop other : C.Decimal)
    → is_protected C side price_open stop ≡ false
    → stop ≡ other
    → is_protected C side price_open other ≡ true
    → ⊥
protected-clash C side price_open stop other b e pr =
    ground (arith, b, ap (is_protected C side price_open) e, pr)

conclude-ready_iff :
    (C : DecimalContext) (t : Tally Mt5OpenRiskBlockReason C.Decimal)
    → ((conclude C t).outcome ≡ Mt5OpenRiskOutcome.ready) ↔ (t.blocked_reasons ≡ [])
conclude-ready_iff C t = ground arith

stopped-Assessable :
    (C : DecimalContext) (facts : List (String × Mt5SymbolFacts C.Decimal))
    (p : Mt5Position C.Decimal) (stop_loss : Option C.Decimal)
    → p.stop_loss ≡ stop_loss
    → (is_refused (by_assessment (stopped_contribution C p facts stop_loss)) ≡ false)
      ↔ Assessable C facts p
stopped-Assessable C facts p none e =
    (λ h. absurd (ground (arith, h)), λ a. absurd (ground (arith, e, a.1)))
stopped-Assessable C facts p (some stop) e =
    let (f, g) = priced-Priceable C p stop (facts_of p.symbol facts) in
    elim (Bool-cases (is_protected C p.side p.price_open stop)) [
      | inl b ↦ rw b (λ _. (stop, e, inl b), λ _. refl)
      | inr b ↦ elim (Bool-cases (C.le p.price_current C.zero)) [
        | inl c ↦
            rw (b, c)
              (
                λ h. absurd (ground (arith, h)),
                λ a. absurd (elim a.2 [
                  | inl pr ↦
                      protected-clash C p.side p.price_open stop a.0 b
                        (some-injective (sym e ∙ a.1)) pr
                  | inr q ↦ ground (arith, c, q.0)
                ]),
              )
        | inr c ↦
            rw (b, c)
              (
                λ h. (stop, e, inr (ground (arith, c), f h)),
                λ a. elim a.2 [
                  | inl pr ↦ absurd (
                      protected-clash C p.side p.price_open stop a.0 b
                        (some-injective (sym e ∙ a.1)) pr)
                  | inr q ↦ g q.1
                ],
              )
      ]
    ]

-- The open risk that is computed is `READY` exactly when each position has a stop that protects it,
-- or has a stop and a positive price and its symbol's facts have a positive tick size and tick
-- value.
pub assess_open_risk-Assessable :
    (C : DecimalContext) (positions : List (Mt5Position C.Decimal))
    (facts : List (String × Mt5SymbolFacts C.Decimal))
    → ((open_risk_fields C positions facts).outcome ≡ Mt5OpenRiskOutcome.ready)
      ↔ All (Assessable C facts) positions
unfolding open_risk_fields position_contribution
assess_open_risk-Assessable C positions facts =
    let round : Mt5Position C.Decimal → Round Mt5OpenRiskBlockReason C.Decimal =
      λ p. by_assessment (stopped_contribution C p facts p.stop_loss) in
    let (f, g) = conclude-ready_iff C (tally (λ p. p.ticket) round positions) in
    let (h, k) = tally-clear_iff (λ p. p.ticket) round positions in
    let (l, m) =
      All-iff (λ p. is_refused (round p) ≡ false) (Assessable C facts)
        (λ p. stopped-Assessable C facts p p.stop_loss refl) positions in
    (λ e. l (h (f e)), λ s. g (k (m s)))
