-- ===== src/Broker/DaySplit.antt =====
-- Adjacent trading days share no deal and miss none (app/mt5/history.py).
use ai_trading_advisor.Prelude.{
  ◌>>=◌, ℕ, ◌≡◌, ◌≤◌, refl, sym, ◌∙◌, ap, true, false, some, List, [], ◌∷◌, leb, Bool-cases, inl,
  inr, arith, All,
}
use ai_trading_advisor.Decimal.Context.{DecimalContext, ExactAddLaws, sum_from}
use ai_trading_advisor.Decimal.ExactSums.{zero_add, sum_from-start, add_middle}
use ai_trading_advisor.Broker.Tally.{Round, tally, add_value, added, tally-contributions}
use ai_trading_advisor.Broker.Deals.{Mt5Deal, Mt5RealizedPnlBlockReason, epoch}
use ai_trading_advisor.Broker.DayPnl.{
  SafeDeal, conclude-ready_iff, realized_daily_pnl_fields-SafeDeal, SafeDeal-computed,
}
use ai_trading_advisor.Broker.History.{
  in_window, assess_by_type, assess_deal, realized_daily_pnl_fields, compute_realized_daily_pnl,
}

window-left : (a b c t : ℕ) → a ≤ b → b ≤ c → in_window a b t ≡ true → in_window a c t ≡ true
window-left a b c t h k w = ground arith

window-not_right : (a b c t : ℕ) → in_window a b t ≡ true → in_window b c t ≡ false
window-not_right a b c t w = ground arith

window-right : (a b c t : ℕ) → a ≤ b → in_window b c t ≡ true → in_window a c t ≡ true
window-right a b c t h w = ground arith

window-outside :
    (a b c t : ℕ) → in_window a b t ≡ false → in_window b c t ≡ false → in_window a c t ≡ false
window-outside a b c t h k = ground arith

module _ (C : DecimalContext) (laws : ExactAddLaws C) where
  open C use {Decimal, zero, add}

  -- What a round is worth.
  abbrev amount : Round Mt5RealizedPnlBlockReason Decimal → Decimal
  amount Round.skips = zero
  amount (Round.adds v) = v
  amount (Round.refuses r) = zero

  sum-add_value :
      (r : Round Mt5RealizedPnlBlockReason Decimal) (vs : List Decimal)
      → sum_from C zero (add_value r vs) ≡ add (amount r) (sum_from C zero vs)
  sum-add_value Round.skips vs = sym (zero_add C laws (sum_from C zero vs))
  sum-add_value (Round.adds v) vs =
      ap (λ s. sum_from C s vs) (zero_add C laws v) ∙ sum_from-start C laws v vs
  sum-add_value (Round.refuses r) vs = sym (zero_add C laws (sum_from C zero vs))

  amount-split :
      (a b c : ℕ) (d : Mt5Deal Decimal)
      → a ≤ b
      → b ≤ c
      → amount (assess_deal C a c d)
        ≡ add (amount (assess_deal C a b d)) (amount (assess_deal C b c d))
  unfolding assess_deal
  amount-split a b c d h k =
      let t = d.time in
      elim (Bool-cases (leb t epoch)) [
        | inl e ↦ rw e (sym (laws.add_zero zero))
        | inr e ↦ elim (Bool-cases (in_window a b t)) [
          | inl w ↦
              rw (e, w, window-left a b c t h k w, window-not_right a b c t w)
                (sym (laws.add_zero (amount (assess_by_type C d.deal_type d))))
          | inr w ↦ elim (Bool-cases (in_window b c t)) [
            | inl x ↦
                rw (e, w, x, window-right a b c t h x)
                  (sym (zero_add C laws (amount (assess_by_type C d.deal_type d))))
            | inr x ↦ rw (e, w, x, window-outside a b c t w x) (sym (laws.add_zero zero))
          ]
        ]
      ]

  total-split :
      (a b c : ℕ) (ds : List (Mt5Deal Decimal))
      → a ≤ b
      → b ≤ c
      → sum_from C zero (added (assess_deal C a c) ds)
        ≡ add
            (sum_from C zero (added (assess_deal C a b) ds))
            (sum_from C zero (added (assess_deal C b c) ds))
  unfolding added
  total-split a b c [] h k = sym (laws.add_zero zero)
  total-split a b c (d ∷ ds) h k =
      rw
        (
          sum-add_value (assess_deal C a c d) (added (assess_deal C a c) ds),
          sum-add_value (assess_deal C a b d) (added (assess_deal C a b) ds),
          sum-add_value (assess_deal C b c d) (added (assess_deal C b c) ds),
          amount-split a b c d h k,
          total-split a b c ds h k,
        )
        (add_middle C laws (amount (assess_deal C a b d)) (amount (assess_deal C b c d))
          (sum_from C zero (added (assess_deal C a b) ds))
          (sum_from C zero (added (assess_deal C b c) ds)))

-- The result of a day that could be assessed.
fields-realized :
    (C : DecimalContext) (ds : List (Mt5Deal C.Decimal)) (a b : ℕ)
    → All (SafeDeal a b) ds
    → (realized_daily_pnl_fields C ds a b).realized_daily_pnl
      ≡ some (sum_from C C.zero (added (assess_deal C a b) ds))
unfolding realized_daily_pnl_fields
fields-realized C ds a b h =
    let t = tally (λ (d : Mt5Deal C.Decimal). d.ticket) (assess_deal C a b) ds in
    let clear = (conclude-ready_iff C t).0 ((realized_daily_pnl_fields-SafeDeal C ds a b).1 h) in
    rw (clear, tally-contributions (λ (d : Mt5Deal C.Decimal). d.ticket) (assess_deal C a b) ds)
      refl

realized :
    (C : DecimalContext) (ds : List (Mt5Deal C.Decimal)) (a b : ℕ)
    → All (SafeDeal a b) ds
    → (compute_realized_daily_pnl C ds a b >>= (λ r. r.realized_daily_pnl))
      ≡ some (sum_from C C.zero (added (assess_deal C a b) ds))
realized C ds a b h = rw (SafeDeal-computed C ds a b h) (fields-realized C ds a b h)

SafeDeal-narrow :
    {Decimal : Type 0} (a b c e : ℕ) (ds : List (Mt5Deal Decimal))
    → a ≤ b
    → c ≤ e
    → All (SafeDeal a e) ds
    → All (SafeDeal b c) ds
SafeDeal-narrow a b c e [] h k all = tt
SafeDeal-narrow a b c e (d ∷ ds) h k (s, all) = (
  (s.0, elim s.1 [ inl o ↦ inl (ground (arith, o)) | inr r ↦ inr r ]),
  SafeDeal-narrow a b c e ds h k all,
)

-- In a context whose sums are exact, when every deal of a window can be accounted for and the
-- window is split at an instant within it, the realized result of the window is the sum of those of
-- the parts.
pub realized_daily_pnl-split :
    (C : DecimalContext)
    → ExactAddLaws C
    → (deals : List (Mt5Deal C.Decimal)) (a b c : ℕ) → a ≤ b
    → b ≤ c
    → All (SafeDeal a c) deals
    → (x : C.Decimal) × (y : C.Decimal) × ((compute_realized_daily_pnl C deals a b
          >>= (λ r. r.realized_daily_pnl))
        ≡ some x)
      × ((compute_realized_daily_pnl C deals b c >>= (λ r. r.realized_daily_pnl)) ≡ some y)
      × ((compute_realized_daily_pnl C deals a c >>= (λ r. r.realized_daily_pnl))
          ≡ some (C.add x y))
realized_daily_pnl-split C laws deals a b c h k all = (
  sum_from C C.zero (added (assess_deal C a b) deals),
  sum_from C C.zero (added (assess_deal C b c) deals),
  realized C deals a b (SafeDeal-narrow a a b c deals (omega arith) k all),
  realized C deals b c (SafeDeal-narrow a b c c deals h (omega arith) all),
  realized C deals a c all ∙ ap some (total-split C laws a b c deals h k),
)
