-- ===== src/Broker/DayPnl.antt =====
-- The realized result of a day is complete, well-formed, and splits at any instant
-- (app/mt5/history.py).
use ai_trading_advisor.Prelude.{
  ℕ, ◌≡◌, ◌<◌, ◌↔◌, ◌⊎◌, inl, inr, refl, true, false, ◌&&◌, some, some-injective, List, [], ◌∷◌,
  map, is_sorted, no_duplicates, leb, leb→le, All, arith, Bool-cases,
}
use ai_trading_advisor.Strategy.Router.{is_empty}
use ai_trading_advisor.Decimal.Context.{DecimalContext}
use ai_trading_advisor.Broker.Tally.{
  Tally, by_assessment, tally, is_refused, tally-clear_iff, tally-tickets_iff, tally-unsafe_tickets,
  no_duplicates-keep,
}
use ai_trading_advisor.Broker.Deals.{
  Mt5Deal, Mt5DealType, Mt5DealEntry, Mt5RealizedPnlOutcome, Mt5RealizedPnlBlockReason,
  pnl_reason_enum, pnl_reason_index, epoch, classify_entry, classify_trading_deal,
}
use ai_trading_advisor.Broker.History.{
  in_window, canonical_reasons, is_valid, assess_by_type, assess_deal, conclude,
  realized_daily_pnl_fields, compute_realized_daily_pnl, Mt5RealizedDailyPnlAssessment,
}

-- An entry that can be booked.
abbrev pub Bookable : Mt5DealEntry → Type 0
Bookable Mt5DealEntry.opening = Unit
Bookable Mt5DealEntry.closing = Unit
Bookable Mt5DealEntry.inout = Unit
Bookable Mt5DealEntry.out_by = ⊥
Bookable Mt5DealEntry.unknown = ⊥

-- A deal that the assessment can account for.
abbrev pub Accountable : Mt5DealType → Mt5DealEntry → Type 0
Accountable Mt5DealType.buy entry = Bookable entry
Accountable Mt5DealType.sell entry = Bookable entry
Accountable Mt5DealType.non_trading entry = Unit
Accountable Mt5DealType.unknown entry = ⊥

-- A genuine time stamp, and a type and entry to account for if it is in the window.
abbrev pub SafeDeal : {Decimal : Type 0} → ℕ → ℕ → Mt5Deal Decimal → Type 0
SafeDeal start end_ d =
    (epoch < d.time) × ((in_window start end_ d.time ≡ false) ⊎ Accountable d.deal_type d.entry)

classify_entry-Bookable :
    (C : DecimalContext) (entry : Mt5DealEntry) (d : Mt5Deal C.Decimal)
    → (is_refused (by_assessment (classify_entry C entry d)) ≡ false) ↔ Bookable entry
classify_entry-Bookable C Mt5DealEntry.opening d = (λ _. tt, λ _. refl)
classify_entry-Bookable C Mt5DealEntry.closing d = (λ _. tt, λ _. refl)
classify_entry-Bookable C Mt5DealEntry.inout d = (λ _. tt, λ _. refl)
classify_entry-Bookable C Mt5DealEntry.out_by d = ground arith
classify_entry-Bookable C Mt5DealEntry.unknown d = ground arith

assess_by_type-Accountable :
    (C : DecimalContext) (type : Mt5DealType) (d : Mt5Deal C.Decimal)
    → (is_refused (assess_by_type C type d) ≡ false) ↔ Accountable type d.entry
unfolding classify_trading_deal
assess_by_type-Accountable C Mt5DealType.buy d = classify_entry-Bookable C d.entry d
assess_by_type-Accountable C Mt5DealType.sell d = classify_entry-Bookable C d.entry d
assess_by_type-Accountable C Mt5DealType.non_trading d = (λ _. tt, λ _. refl)
assess_by_type-Accountable C Mt5DealType.unknown d = ground arith

assess_deal-SafeDeal :
    (C : DecimalContext) (start end_ : ℕ) (d : Mt5Deal C.Decimal)
    → (is_refused (assess_deal C start end_ d) ≡ false) ↔ SafeDeal start end_ d
unfolding assess_deal
assess_deal-SafeDeal C start end_ d =
    let (f, g) = assess_by_type-Accountable C d.deal_type d in
    elim (Bool-cases (leb d.time epoch)) [
      | inl e ↦ rw e (
        λ h. absurd (ground (arith, h)),
        λ s. absurd (ground (arith, leb→le d.time epoch e, s.0)),
      )
      | inr e ↦ elim (Bool-cases (in_window start end_ d.time)) [
        | inl w ↦
            rw (e, w)
              (
                λ h. (ground (arith, e), inr (f h)),
                λ s. g (elim s.1 [ inl x ↦ absurd (ground (arith, x)) | inr y ↦ y ]),
              )
        | inr w ↦ rw (e, w) (λ _. (ground (arith, e), inl refl), λ _. refl)
      ]
    ]

pub All-iff :
    {A : Type 0} (P Q : A → Type 0) → ((x : A) → P x ↔ Q x) → (xs : List A) → All P xs ↔ All Q xs
All-iff P Q h [] = (λ x. x, λ x. x)
All-iff P Q h (x ∷ xs) =
    let (f, g) = All-iff P Q h xs in (λ p. ((h x).0 p.0, f p.1), λ q. ((h x).1 q.0, g q.1))

pub conclude-ready_iff :
    (C : DecimalContext) (t : Tally Mt5RealizedPnlBlockReason C.Decimal)
    → ((conclude C t).outcome ≡ Mt5RealizedPnlOutcome.ready) ↔ (t.blocked_reasons ≡ [])
conclude-ready_iff C t = ground arith

pub realized_daily_pnl_fields-SafeDeal :
    (C : DecimalContext) (deals : List (Mt5Deal C.Decimal)) (start end_ : ℕ)
    → ((realized_daily_pnl_fields C deals start end_).outcome ≡ Mt5RealizedPnlOutcome.ready)
      ↔ All (SafeDeal start end_) deals
unfolding realized_daily_pnl_fields
realized_daily_pnl_fields-SafeDeal C deals start end_ =
    let round = assess_deal C start end_ in
    let (f, g) = conclude-ready_iff C (tally (λ d. d.ticket) round deals) in
    let (h, k) = tally-clear_iff (λ d. d.ticket) round deals in
    let (l, m) =
      All-iff (λ d. is_refused (round d) ≡ false) (SafeDeal start end_)
        (assess_deal-SafeDeal C start end_) deals in
    (λ e. l (h (f e)), λ s. g (k (m s)))

-- A day that is ready passes the validators, whatever the tickets are.
ready-is_valid :
    (C : DecimalContext) (deals : List (Mt5Deal C.Decimal)) (start end_ : ℕ)
    → (realized_daily_pnl_fields C deals start end_).outcome ≡ Mt5RealizedPnlOutcome.ready
    → is_valid (realized_daily_pnl_fields C deals start end_) ≡ true
unfolding realized_daily_pnl_fields is_valid
ready-is_valid C deals start end_ h = ground (arith, h)

-- What is returned is what the constructor was given.
returned-fields :
    (C : DecimalContext) (deals : List (Mt5Deal C.Decimal)) (start end_ : ℕ)
    (a : Mt5RealizedDailyPnlAssessment C.Decimal)
    → compute_realized_daily_pnl C deals start end_ ≡ some a
    → realized_daily_pnl_fields C deals start end_ ≡ a
unfolding compute_realized_daily_pnl
returned-fields C deals start end_ a e =
    elim (Bool-cases (is_valid (realized_daily_pnl_fields C deals start end_))) [
      | inl v ↦ some-injective (rw v at e)
      | inr v ↦ absurd (ground (arith, v, e))
    ]

pub SafeDeal-computed :
    (C : DecimalContext) (deals : List (Mt5Deal C.Decimal)) (start end_ : ℕ)
    → All (SafeDeal start end_) deals
    → compute_realized_daily_pnl C deals start end_
      ≡ some (realized_daily_pnl_fields C deals start end_)
unfolding compute_realized_daily_pnl
SafeDeal-computed C deals start end_ s =
    rw
      (ready-is_valid C deals start end_
        ((realized_daily_pnl_fields-SafeDeal C deals start end_).1 s))
      refl

-- The computation of a day returns a result that is `READY` exactly when each deal has a time stamp
-- after the epoch, and each one in the window a known type and, unless it is non-trading, an entry
-- that can be booked.
pub compute_realized_daily_pnl-SafeDeal :
    (C : DecimalContext) (deals : List (Mt5Deal C.Decimal)) (start end_ : ℕ)
    → ((a : Mt5RealizedDailyPnlAssessment C.Decimal) × (compute_realized_daily_pnl C deals start
            end_
          ≡ some a)
        × (a.outcome ≡ Mt5RealizedPnlOutcome.ready))
      ↔ All (SafeDeal start end_) deals
compute_realized_daily_pnl-SafeDeal C deals start end_ =
    let (f, g) = realized_daily_pnl_fields-SafeDeal C deals start end_ in
    (
      λ r. f (rw (returned-fields C deals start end_ r.0 r.1) (r.2)),
      λ s. (
        realized_daily_pnl_fields C deals start end_,
        SafeDeal-computed C deals start end_ s,
        g s,
      ),
    )

canonical-is_valid :
    (found : List Mt5RealizedPnlBlockReason)
    → (is_sorted (map pnl_reason_index (canonical_reasons found))
        && no_duplicates (map pnl_reason_index (canonical_reasons found)))
      ≡ true
canonical-is_valid found = ground arith

canonical-nonempty :
    (found : List Mt5RealizedPnlBlockReason)
    → is_empty found ≡ false
    → is_empty (canonical_reasons found) ≡ false
canonical-nonempty [] h = ground arith
canonical-nonempty (Mt5RealizedPnlBlockReason.malformed_timestamp ∷ rs) h = ground arith
canonical-nonempty (Mt5RealizedPnlBlockReason.unmappable_deal_type ∷ rs) h = ground arith
canonical-nonempty (Mt5RealizedPnlBlockReason.unmappable_deal_entry ∷ rs) h = ground arith
canonical-nonempty (Mt5RealizedPnlBlockReason.unsupported_out_by ∷ rs) h = ground arith

pub tickets-nonempty :
    {A B : Type 0} (xs : List A) (ys : List B)
    → (xs ≡ []) ↔ (ys ≡ [])
    → is_empty xs ≡ false
    → is_empty ys ≡ false
tickets-nonempty [] ys h e = absurd (ground (arith, e))
tickets-nonempty (x ∷ xs) [] h e = absurd (ground (arith, h.1 refl))
tickets-nonempty (x ∷ xs) (y ∷ ys) h e = refl

fields-is_valid :
    (C : DecimalContext) (deals : List (Mt5Deal C.Decimal)) (start end_ : ℕ)
    → no_duplicates (map (λ d. d.ticket) deals) ≡ true
    → is_valid (realized_daily_pnl_fields C deals start end_) ≡ true
unfolding realized_daily_pnl_fields is_valid
fields-is_valid C deals start end_ h =
    let t = tally (λ d. d.ticket) (assess_deal C start end_) deals in
    elim (Bool-cases (is_empty t.blocked_reasons)) [
      | inl e ↦ rw e refl
      | inr e ↦
          let n = canonical-nonempty t.blocked_reasons e in
          let m =
            tickets-nonempty t.blocked_reasons t.unsafe_tickets
              (tally-tickets_iff (λ d. d.ticket) (assess_deal C start end_) deals) e in
          let u : no_duplicates t.unsafe_tickets ≡ true =
            rw
              (tally-unsafe_tickets (λ (d : Mt5Deal C.Decimal). d.ticket) (assess_deal C start end_)
                deals)
              (no_duplicates-keep (λ (d : Mt5Deal C.Decimal). d.ticket)
                (λ d. is_refused (assess_deal C start end_ d)) deals h) in
          rw (e, n, m, canonical-is_valid t.blocked_reasons) u
    ]

-- When the tickets of the deals are distinct, the constructor accepts the result.
pub compute_realized_daily_pnl-returns :
    (C : DecimalContext) (deals : List (Mt5Deal C.Decimal)) (start end_ : ℕ)
    → no_duplicates (map (λ d. d.ticket) deals) ≡ true
    → compute_realized_daily_pnl C deals start end_
      ≡ some (realized_daily_pnl_fields C deals start end_)
unfolding compute_realized_daily_pnl
compute_realized_daily_pnl-returns C deals start end_ h =
    rw (fields-is_valid C deals start end_ h) refl
