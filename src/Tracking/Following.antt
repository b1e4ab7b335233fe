-- ===== src/Tracking/Following.antt =====
-- One update of a tracked recommendation keeps its state sound and never gives up its position
-- (app/mt5/tracker.py).
use ai_trading_advisor.Prelude.{
  ℕ, ◌≡◌, refl, sym, ◌∙◌, true, false, Option, none, some, some-injective, List, contains, ◌>>=◌,
  bind-some, arith, Bool-cases, inl, inr,
}
use ai_trading_advisor.Decimal.Context.{DecimalContext}
use ai_trading_advisor.Broker.Deals.{Mt5RealizedPnlOutcome}
use ai_trading_advisor.Tracking.Matching.{
  Mt5MatchOutcome, Mt5MatchResult, HistoryRead, is_ok, match_recommendation,
}
use ai_trading_advisor.Tracking.Ownership.{IsMatch}
use ai_trading_advisor.Tracking.MatchResult.{
  match_recommendation-names, match_recommendation-is_free,
}
use ai_trading_advisor.Tracking.Lifecycle.{
  Mt5PositionLifecycleAssessment, reconstruct_position_lifecycle,
}
use ai_trading_advisor.Tracking.Tracker.{
  PositionRecord, Mt5TrackedRecommendation, TradeStatus, is_valid_tracked, with_updates,
  with_record_updates, with_record, close_position, is_closed, classify_terminal_status,
  settle_lifecycle, follow_position, query_of, keep_unmatched, expire, assign, settle_match,
  advance_from, advance_tracked_recommendation,
}

none-some : {A : Type 0} {a : A} → none ≡ some a → ⊥
none-some e = ground (arith, e)

module _ (C : DecimalContext) where
  open C use {Decimal}

  -- What an update returns is valid, and has the position of its argument.
  abbrev pub IsSound : Option ℕ → Mt5TrackedRecommendation Decimal → Type 0
  IsSound id u = (is_valid_tracked C u ≡ true) × (u.matched_position_id ≡ id)

  with_updates-IsSound :
      (t u : Mt5TrackedRecommendation Decimal)
      → with_updates C t ≡ some u
      → IsSound t.matched_position_id u
  with_updates-IsSound t u e = elim (Bool-cases (is_valid_tracked C t)) [
    | inl v ↦ let same : t ≡ u = some-injective (rw v at e) in rw (sym same) (v, refl)
    | inr v ↦ absurd (ground (arith, v, e))
  ]

  with_record-IsSound :
      (as_of : ℕ) (t u : Mt5TrackedRecommendation Decimal) (r : PositionRecord Decimal)
      → with_record C as_of t r ≡ some u
      → IsSound t.matched_position_id u
  with_record-IsSound as_of t u r e =
      let (s, _, k) =
        bind-some (with_record_updates C r)
          (λ s. with_updates C (record t { position_record = s; last_read_at = some as_of })) u e in
      with_updates-IsSound (record t { position_record = s; last_read_at = some as_of }) u k

  close_position-IsSound :
      (as_of : ℕ) (t u : Mt5TrackedRecommendation Decimal)
      (l : Mt5PositionLifecycleAssessment Decimal)
      → close_position C as_of t l ≡ some u
      → IsSound t.matched_position_id u
  close_position-IsSound as_of t u l e =
      let closing : C.Decimal → C.Decimal → ℕ → PositionRecord Decimal = λ pnl price time.
        record t.position_record {
          status = classify_terminal_status C pnl;
          actual_entry = l.actual_entry;
          actual_entry_time = l.actual_entry_time;
          exit_price = some price;
          exit_time = some time;
          pnl = some pnl;
        } in
      let (pnl, _, first) =
        bind-some l.realized_pnl
          (λ pnl.
            l.exit_price
            >>= (λ price. l.exit_time >>= (λ time. with_record C as_of t (closing pnl price time))))
          u e in
      let (price, _, second) =
        bind-some l.exit_price
          (λ price. l.exit_time >>= (λ time. with_record C as_of t (closing pnl price time))) u
          first in
      let (time, _, third) =
        bind-some l.exit_time (λ time. with_record C as_of t (closing pnl price time)) u second in
      with_record-IsSound as_of t u (closing pnl price time) third

  settle_lifecycle-IsSound :
      (o : Mt5RealizedPnlOutcome) (as_of : ℕ) (t u : Mt5TrackedRecommendation Decimal)
      (l : Mt5PositionLifecycleAssessment Decimal)
      → settle_lifecycle C o as_of t l ≡ some u
      → IsSound t.matched_position_id u
  settle_lifecycle-IsSound Mt5RealizedPnlOutcome.blocked as_of t u l e =
      with_updates-IsSound (record t { last_read_at = some as_of }) u e
  settle_lifecycle-IsSound Mt5RealizedPnlOutcome.ready as_of t u l e =
      elim (Bool-cases (is_closed C l.is_fully_closed)) [
        | inl k ↦ close_position-IsSound as_of t u l (rw k at e)
        | inr k ↦
            with_record-IsSound as_of t u
              (record t.position_record {
                status = TradeStatus.open_;
                actual_entry = l.actual_entry;
                actual_entry_time = l.actual_entry_time;
              })
              (rw k at e)
      ]

  follow_position-IsSound :
      (as_of : ℕ) (t u : Mt5TrackedRecommendation Decimal) (history : HistoryRead Decimal) (id : ℕ)
      → follow_position C as_of t history id ≡ some u
      → IsSound t.matched_position_id u
  unfolding follow_position
  follow_position-IsSound as_of t u history id e =
      elim (Bool-cases (is_ok history.history_read_status)) [
        | inl k ↦
            let (l, _, f) =
              bind-some (reconstruct_position_lifecycle C id history.deals)
                (λ l. settle_lifecycle C l.outcome as_of t l) u (rw k at e) in
            settle_lifecycle-IsSound l.outcome as_of t u l f
        | inr k ↦ with_updates-IsSound (record t { last_read_at = some as_of }) u (rw k at e)
      ]

  expire-IsSound :
      (as_of : ℕ) (t u : Mt5TrackedRecommendation Decimal)
      → expire C as_of t ≡ some u
      → IsSound t.matched_position_id u
  expire-IsSound as_of t u e =
      let expired : PositionRecord Decimal → Mt5TrackedRecommendation Decimal = λ r. record t {
        position_record = r;
        last_match_outcome = some Mt5MatchOutcome.expired_confirmed_unfilled;
        last_read_at = some as_of;
      } in
      let (r, _, k) =
        bind-some
          (with_record_updates C (record t.position_record { status = TradeStatus.not_filled }))
          (λ r. with_updates C (expired r)) u e in
      with_updates-IsSound (expired r) u k

  assign-IsSound :
      (as_of : ℕ) (t u : Mt5TrackedRecommendation Decimal) (id : ℕ)
      → assign C as_of t id ≡ some u
      → IsSound (some id) u
  assign-IsSound as_of t u id e =
      let assigned : PositionRecord Decimal → Mt5TrackedRecommendation Decimal = λ r. record t {
        position_record = r;
        matched_position_id = some id;
        last_match_outcome = some Mt5MatchOutcome.matched;
        last_read_at = some as_of;
      } in
      let (r, _, k) =
        bind-some (with_record_updates C (record t.position_record { status = TradeStatus.open_ }))
          (λ r. with_updates C (assigned r)) u e in
      with_updates-IsSound (assigned r) u k

  keep_unmatched-IsSound :
      (as_of : ℕ) (t u : Mt5TrackedRecommendation Decimal) (o : Mt5MatchOutcome)
      → keep_unmatched C as_of t o ≡ some u
      → IsSound t.matched_position_id u
  keep_unmatched-IsSound as_of t u o e =
      with_updates-IsSound (record t { last_match_outcome = some o; last_read_at = some as_of }) u e

  still_unmatched :
      (id : Option ℕ) (t u : Mt5TrackedRecommendation Decimal)
      → t.matched_position_id ≡ none
      → IsSound t.matched_position_id u
      → (is_valid_tracked C u ≡ true) × ((i : ℕ) → u.matched_position_id ≡ some i → id ≡ some i)
  still_unmatched id t u n (valid, same) = (valid, λ i m. absurd (none-some (sym n ∙ sym same ∙ m)))

  -- A position that was found: the match of the recommendation, neither open before nor claimed.
  abbrev pub Finds :
      Mt5TrackedRecommendation Decimal → HistoryRead Decimal → List ℕ → Option ℕ → Type 0
  Finds t history claimed none = Unit
  Finds t history claimed (some i) =
      IsMatch C (query_of C t claimed) history i
      × (contains i t.pre_existing_position_ids ≡ false)
      × (contains i claimed ≡ false)

  -- An update keeps the position that there was, or may find one.
  abbrev pub KeepsOrFinds :
      Option ℕ
      → Mt5TrackedRecommendation Decimal
      → Mt5TrackedRecommendation Decimal
      → HistoryRead Decimal
      → List ℕ
      → Type 0
  KeepsOrFinds (some id) t u history claimed = u.matched_position_id ≡ some id
  KeepsOrFinds none t u history claimed = Finds t history claimed u.matched_position_id

  Finds-cases :
      (t : Mt5TrackedRecommendation Decimal) (history : HistoryRead Decimal) (claimed : List ℕ)
      (o : Option ℕ)
      → ((i : ℕ) → o ≡ some i → Finds t history claimed (some i))
      → Finds t history claimed o
  Finds-cases t history claimed none h = tt
  Finds-cases t history claimed (some i) h = h i refl

  found-IsMatch :
      (t : Mt5TrackedRecommendation Decimal) (history : HistoryRead Decimal) (claimed : List ℕ)
      (r : Mt5MatchResult) (i : ℕ)
      → match_recommendation C (query_of C t claimed) history ≡ some r
      → r.matched_position_id ≡ some i
      → IsMatch C (query_of C t claimed) history i
        × (contains i t.pre_existing_position_ids ≡ false)
        × (contains i claimed ≡ false)
  found-IsMatch t history claimed r i found named =
      let (apart, unclaimed) =
        match_recommendation-is_free C (query_of C t claimed) history r i found named in
      (
        match_recommendation-names C (query_of C t claimed) history r i found named,
        apart,
        unclaimed,
      )

  -- The position after a matching: the old one, or the one that the result names.
  settle_match-IsSound :
      (o : Mt5MatchOutcome) (id : Option ℕ) (as_of : ℕ) (t u : Mt5TrackedRecommendation Decimal)
      (history : HistoryRead Decimal)
      → t.matched_position_id ≡ none
      → settle_match C o id as_of t history ≡ some u
      → (is_valid_tracked C u ≡ true) × ((i : ℕ) → u.matched_position_id ≡ some i → id ≡ some i)
  settle_match-IsSound Mt5MatchOutcome.expired_confirmed_unfilled id as_of t u history n e =
      still_unmatched id t u n (expire-IsSound as_of t u e)
  settle_match-IsSound Mt5MatchOutcome.matched none as_of t u history n e =
      absurd (ground (arith, e))
  settle_match-IsSound Mt5MatchOutcome.matched (some id) as_of t u history n e =
      let (v, a, f) =
        bind-some (assign C as_of t id) (λ v. follow_position C as_of v history id) u e in
      let (valid, same) = follow_position-IsSound as_of v u history id f in
      (valid, λ i m. sym (assign-IsSound as_of t v id a).1 ∙ sym same ∙ m)
  settle_match-IsSound Mt5MatchOutcome.ambiguous id as_of t u history n e =
      still_unmatched id t u n (keep_unmatched-IsSound as_of t u Mt5MatchOutcome.ambiguous e)
  settle_match-IsSound Mt5MatchOutcome.partial_fill id as_of t u history n e =
      still_unmatched id t u n (keep_unmatched-IsSound as_of t u Mt5MatchOutcome.partial_fill e)
  settle_match-IsSound Mt5MatchOutcome.volume_mismatch id as_of t u history n e =
      still_unmatched id t u n (keep_unmatched-IsSound as_of t u Mt5MatchOutcome.volume_mismatch e)
  settle_match-IsSound Mt5MatchOutcome.no_candidate_yet id as_of t u history n e =
      still_unmatched id t u n (keep_unmatched-IsSound as_of t u Mt5MatchOutcome.no_candidate_yet e)
  settle_match-IsSound Mt5MatchOutcome.read_unavailable id as_of t u history n e =
      still_unmatched id t u n (keep_unmatched-IsSound as_of t u Mt5MatchOutcome.read_unavailable e)

  -- What an update returns is valid; a position that it names is the old one, or one that the matching
  -- found when there was none.
  advance-cases :
      (as_of : ℕ) (t u : Mt5TrackedRecommendation Decimal) (history : HistoryRead Decimal)
      (claimed : List ℕ) (old : Option ℕ)
      → t.matched_position_id ≡ old
      → advance_from C old as_of t history claimed ≡ some u
      → (is_valid_tracked C u ≡ true) × KeepsOrFinds old t u history claimed
  advance-cases as_of t u history claimed (some id) m e =
      let (valid, same) = follow_position-IsSound as_of t u history id e in (valid, same ∙ m)
  advance-cases as_of t u history claimed none m e =
      let (r, found, k) =
        bind-some (match_recommendation C (query_of C t claimed) history)
          (λ r. settle_match C r.outcome r.matched_position_id as_of t history) u e in
      let (valid, names) =
        settle_match-IsSound r.outcome r.matched_position_id as_of t u history m k in
      (
        valid,
        Finds-cases t history claimed u.matched_position_id
            (λ i n. found-IsMatch t history claimed r i found (names i n)),
      )

  -- What an update returns passes the validators. A position that there was is kept; where there
  -- was none, a position that the result names is the match of the recommendation, and neither one
  -- that was open before nor one that is claimed.
  pub advance_tracked_recommendation-KeepsOrFinds :
      (as_of : ℕ) (t u : Mt5TrackedRecommendation Decimal) (history : HistoryRead Decimal)
      (claimed : List ℕ)
      → advance_tracked_recommendation C as_of t history claimed ≡ some u
      → (is_valid_tracked C u ≡ true) × KeepsOrFinds t.matched_position_id t u history claimed
  unfolding advance_tracked_recommendation
  advance_tracked_recommendation-KeepsOrFinds as_of t u history claimed e =
      advance-cases as_of t u history claimed t.matched_position_id refl e
