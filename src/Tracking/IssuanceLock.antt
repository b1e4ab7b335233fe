-- ===== src/Tracking/IssuanceLock.antt =====
-- The lock of a symbol on a netting account: when the guard lets a recommendation be issued, and that an
-- issued one closes the guard (app/orchestration/runtime_cycle.py, app/mt5/tracker.py).
use Prim.Native.String.{String}
use text.Mathlib.Text.{◌==◌ as str_eq}
use text.Mathlib.TextPositions.{eq_refl}
use ai_trading_advisor.Prelude.{
  ℕ, ◌≡◌, ◌≢◌, ◌↔◌, ◌⊎◌, ◌++◌, All, all_of, &&-left, &&-right, refl, sym, ◌∙◌, ap, Bool, true,
  false, ◌&&◌, Option, none, some, some-injective, List, [], ◌∷◌, map, keep, contains, any_of, ◌==◌,
  ==→eq, ◌>>=◌, bind-some, arith, Bool-cases, inl, inr,
}
use ai_trading_advisor.Decimal.Context.{DecimalContext}
use ai_trading_advisor.Broker.OpenRisk.{Mt5Position}
use ai_trading_advisor.Tracking.Groups.{sorted-contains}
use ai_trading_advisor.Tracking.Tracker.{
  TradeStatus, PositionRecord, Mt5TrackedRecommendation, with_updates, with_record_updates,
  is_valid_record, is_valid_tracked, status_matches,
}
use ai_trading_advisor.Tracking.Sweep.{Tracked}
use ai_trading_advisor.Tracking.Issuance.{
  Mt5PositionsReadStatus, CreationOutcome, CreationResult, NettingIssuanceOutcome, distinct,
  position_ids_of, pending_record, fresh_tracking, create_tracked_recommendation, is_unresolved,
  symbol_has_unresolved_tracking, is_read, evaluate_netting_guard, holds_lock,
}

distinct-contains : (j : ℕ) (xs : List ℕ) → contains j (distinct xs) ≡ contains j xs
distinct-contains j [] = refl
distinct-contains j (x ∷ xs) = elim (Bool-cases (contains x (distinct xs))) [
  | inr e ↦ rw (e, distinct-contains j xs) refl
  | inl e ↦ rw e (
      distinct-contains j xs ∙ elim (Bool-cases (j == x)) [
        | inl s ↦
            let here : contains j xs ≡ true = rw (==→eq j x s) (sym (distinct-contains x xs) ∙ e) in
            rw (s, here) refl
        | inr s ↦ rw s refl
      ])
]

-- The statuses of a recommendation that needs no more watching: a closed position, or an order whose
-- window passed without a fill.
abbrev pub Settled : TradeStatus → Type 0
Settled TradeStatus.win = Unit
Settled TradeStatus.loss = Unit
Settled TradeStatus.breakeven = Unit
Settled TradeStatus.not_filled = Unit
Settled _ = ⊥

abbrev NoneOf : {A : Type 0} → (A → Bool) → List A → Type 0
NoneOf p xs = All (λ x. p x ≡ false) xs

any_of-NoneOf : {A : Type 0} (p : A → Bool) (xs : List A) → (any_of p xs ≡ false) ↔ NoneOf p xs
any_of-NoneOf p [] = ground arith
any_of-NoneOf p (x ∷ xs) = ground (arith, any_of-NoneOf p xs)

-- Of the statuses that a tracked recommendation may have, those that hold the lock are not settled.
holds_lock_iff :
    (matched : Option ℕ) (status : TradeStatus)
    → status_matches matched status ≡ true
    → (holds_lock status ≡ false) ↔ Settled status
holds_lock_iff none TradeStatus.pending v = ground arith
holds_lock_iff none TradeStatus.not_filled v = ground arith
holds_lock_iff (some id) TradeStatus.open_ v = ground arith
holds_lock_iff (some id) TradeStatus.win v = ground arith
holds_lock_iff (some id) TradeStatus.loss v = ground arith
holds_lock_iff (some id) TradeStatus.breakeven v = ground arith
holds_lock_iff none TradeStatus.filled v = absurd (ground (arith, v))
holds_lock_iff none TradeStatus.open_ v = absurd (ground (arith, v))
holds_lock_iff none TradeStatus.closed v = absurd (ground (arith, v))
holds_lock_iff none TradeStatus.win v = absurd (ground (arith, v))
holds_lock_iff none TradeStatus.loss v = absurd (ground (arith, v))
holds_lock_iff none TradeStatus.breakeven v = absurd (ground (arith, v))
holds_lock_iff none TradeStatus.expired v = absurd (ground (arith, v))
holds_lock_iff none TradeStatus.cancelled v = absurd (ground (arith, v))
holds_lock_iff (some id) TradeStatus.pending v = absurd (ground (arith, v))
holds_lock_iff (some id) TradeStatus.filled v = absurd (ground (arith, v))
holds_lock_iff (some id) TradeStatus.closed v = absurd (ground (arith, v))
holds_lock_iff (some id) TradeStatus.not_filled v = absurd (ground (arith, v))
holds_lock_iff (some id) TradeStatus.expired v = absurd (ground (arith, v))
holds_lock_iff (some id) TradeStatus.cancelled v = absurd (ground (arith, v))

any_of-middle :
    {A : Type 0} (p : A → Bool) (xs : List A) (y : A) (ys : List A)
    → p y ≡ true
    → any_of p (xs ++ y ∷ ys) ≡ true
any_of-middle p [] y ys h = rw h refl
any_of-middle p (x ∷ xs) y ys h = ground (arith, any_of-middle p xs y ys h)

module _ (C : DecimalContext) where
  open C use {Decimal}

  -- No position of the symbol is open, as far as the positions could be read.
  abbrev pub NoneOpen : String → Mt5PositionsReadStatus → List (Mt5Position Decimal) → Type 0
  NoneOpen symbol Mt5PositionsReadStatus.ok positions =
      All (λ p. str_eq p.symbol symbol ≡ false) positions
  NoneOpen symbol _ positions = Unit

  -- Each tracked recommendation is of another symbol, or settled.
  abbrev pub NoneLive : String → List (Tracked C) → Type 0
  NoneLive symbol tracked =
      All
        (λ t.
          (str_eq t.1.position_record.symbol symbol ≡ false) ⊎ Settled t.1.position_record.status)
        tracked

  unresolved_iff :
      (symbol : String) (t : Tracked C)
      → is_valid_tracked C t.1 ≡ true
      → (is_unresolved C symbol t ≡ false)
        ↔ ((str_eq t.1.position_record.symbol symbol ≡ false) ⊎ Settled t.1.position_record.status)
  unfolding is_valid_tracked
  unresolved_iff symbol t v =
      ground (arith, v, holds_lock_iff t.1.matched_position_id t.1.position_record.status)

  NoneLive-iff :
      (symbol : String) (tracked : List (Tracked C))
      → all_of (λ t. is_valid_tracked C t.1) tracked ≡ true
      → (symbol_has_unresolved_tracking C tracked symbol ≡ false) ↔ NoneLive symbol tracked
  NoneLive-iff symbol [] v = ground arith
  NoneLive-iff symbol (t ∷ tracked) v = ground (
    arith,
    unresolved_iff symbol t (&&-left (is_valid_tracked C t.1) _ v),
    NoneLive-iff symbol tracked (&&-right (is_valid_tracked C t.1) _ v),
  )

  NoneOpen-iff :
      (symbol : String) (status : Mt5PositionsReadStatus) (positions : List (Mt5Position Decimal))
      → ((is_read status && any_of (λ p. str_eq p.symbol symbol) positions) ≡ false)
        ↔ NoneOpen symbol status positions
  NoneOpen-iff symbol Mt5PositionsReadStatus.ok positions =
      any_of-NoneOf (λ p. str_eq p.symbol symbol) positions
  NoneOpen-iff symbol Mt5PositionsReadStatus.unavailable positions = ground arith
  NoneOpen-iff symbol Mt5PositionsReadStatus.unmappable_position_side positions = ground arith

  -- For tracked recommendations that pass their validators, the guard of a netting account allows
  -- an issuance exactly when no position of the symbol is open, as far as the positions could be
  -- read, each tracked recommendation is of another symbol or is a win, a loss, a breakeven or not
  -- filled, and exactly one recommendation is actionable.
  pub evaluate_netting_guard-allowed_iff :
      (symbol : String) (status : Mt5PositionsReadStatus) (positions : List (Mt5Position Decimal))
      (tracked : List (Tracked C)) (count : ℕ)
      → all_of (λ t. is_valid_tracked C t.1) tracked ≡ true
      → (evaluate_netting_guard C symbol status positions tracked count
          ≡ NettingIssuanceOutcome.allowed)
        ↔ (NoneOpen symbol status positions × NoneLive symbol tracked × (count ≡ 1))
  unfolding evaluate_netting_guard
  evaluate_netting_guard-allowed_iff symbol status positions tracked count v =
      ground
        (arith, ==→eq count 1, NoneOpen-iff symbol status positions, NoneLive-iff symbol tracked v)

  unchanged-record : (r s : PositionRecord Decimal) → with_record_updates C r ≡ some s → r ≡ s
  unchanged-record r s e = elim (Bool-cases (is_valid_record C r)) [
    | inl v ↦ some-injective (rw v at e)
    | inr v ↦ absurd (ground (arith, v, e))
  ]

  unchanged-tracking : (t u : Mt5TrackedRecommendation Decimal) → with_updates C t ≡ some u → t ≡ u
  unchanged-tracking t u e = elim (Bool-cases (is_valid_tracked C t)) [
    | inl v ↦ some-injective (rw v at e)
    | inr v ↦ absurd (ground (arith, v, e))
  ]

  -- What is created: a pending recommendation of the record, not matched.
  created-fields :
      (r : PositionRecord Decimal) (volume : Decimal) (status : Mt5PositionsReadStatus)
      (positions : List (Mt5Position Decimal)) (res : CreationResult Decimal)
      (t : Mt5TrackedRecommendation Decimal)
      → create_tracked_recommendation C r volume status positions ≡ some res
      → res.tracked_recommendation ≡ some t
      → (is_read status ≡ true)
        × (t ≡ fresh_tracking C (pending_record C r) volume (position_ids_of C r.symbol positions))
  unfolding create_tracked_recommendation
  created-fields r volume Mt5PositionsReadStatus.unavailable positions res t e m = absurd (
      ground (
        arith,
        ap (λ (x : CreationResult Decimal). x.tracked_recommendation) (some-injective e),
        m,
      ))
  created-fields r volume Mt5PositionsReadStatus.unmappable_position_side positions res t e m =
      absurd (
        ground (
          arith,
          ap (λ (x : CreationResult Decimal). x.tracked_recommendation) (some-injective e),
          m,
        ))
  created-fields r volume Mt5PositionsReadStatus.ok positions res t e m =
      let (p, rec, rest) =
        bind-some (with_record_updates C (pending_record C r))
          (λ p.
            with_updates C (fresh_tracking C p volume (position_ids_of C r.symbol positions))
            >>= (λ u.
                some
                  (record { outcome = CreationOutcome.created; tracked_recommendation = some u })))
          res e in
      let (u, made, last) =
        bind-some
          (with_updates C (fresh_tracking C p volume (position_ids_of C r.symbol positions)))
          (λ u.
            some (record { outcome = CreationOutcome.created; tracked_recommendation = some u }))
          res rest in
      let same : u ≡ t =
        some-injective (
          ap (λ (x : CreationResult Decimal). x.tracked_recommendation) (some-injective last)
          ∙ m) in
      (
        refl,
        sym same
            ∙ sym (
                unchanged-tracking
                  (fresh_tracking C p volume (position_ids_of C r.symbol positions)) u made)
            ∙ ap (λ q. fresh_tracking C q volume (position_ids_of C r.symbol positions))
                (sym (unchanged-record (pending_record C r) p rec)),
      )

  pub created-pre_existing :
      (r : PositionRecord Decimal) (volume : Decimal) (status : Mt5PositionsReadStatus)
      (positions : List (Mt5Position Decimal)) (res : CreationResult Decimal)
      (t : Mt5TrackedRecommendation Decimal) (j : ℕ)
      → create_tracked_recommendation C r volume status positions ≡ some res
      → res.tracked_recommendation ≡ some t
      → (t.matched_position_id ≡ none)
        × (t.position_record.status ≡ TradeStatus.pending)
        × (contains j t.pre_existing_position_ids
            ≡ contains j (
                map
                  (λ (p : Mt5Position Decimal). p.ticket)
                  (keep (λ (p : Mt5Position Decimal). str_eq p.symbol r.symbol) positions)))
  unfolding position_ids_of
  created-pre_existing r volume status positions res t j e m =
      let (_, same) = created-fields r volume status positions res t e m in
      let tickets =
        map (λ (p : Mt5Position Decimal). p.ticket)
          (keep (λ (p : Mt5Position Decimal). str_eq p.symbol r.symbol) positions) in
      rw same (refl, refl, sorted-contains j (distinct tickets) ∙ distinct-contains j tickets)

  -- While a recommendation that was created is among the tracked ones as it was created, the guard
  -- of a netting account allows no further issuance of its symbol, whatever else is tracked, open
  -- or actionable.
  pub create_tracked_recommendation-locks :
      (r : PositionRecord Decimal) (volume : Decimal) (status : Mt5PositionsReadStatus)
      (positions : List (Mt5Position Decimal)) (res : CreationResult Decimal)
      (t : Mt5TrackedRecommendation Decimal) (trade_id : String) (before after : List (Tracked C))
      (later : Mt5PositionsReadStatus) (seen : List (Mt5Position Decimal)) (count : ℕ)
      → create_tracked_recommendation C r volume status positions ≡ some res
      → res.tracked_recommendation ≡ some t
      → evaluate_netting_guard C r.symbol later seen (before ++ (trade_id, t) ∷ after) count
        ≢ NettingIssuanceOutcome.allowed
  unfolding evaluate_netting_guard
  create_tracked_recommendation-locks r volume status positions res t trade_id before after later
        seen count e m =
      let (_, same) = created-fields r volume status positions res t e m in
      let holds : is_unresolved C r.symbol (trade_id, t) ≡ true =
        rw (same, eq_refl r.symbol) refl in
      let found : symbol_has_unresolved_tracking C (before ++ (trade_id, t) ∷ after) r.symbol
          ≡ true =
        any_of-middle (is_unresolved C r.symbol) before (trade_id, t) after holds in
      λ h. ground (arith, found, h)
