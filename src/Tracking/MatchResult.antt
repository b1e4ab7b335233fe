-- ===== src/Tracking/MatchResult.antt =====
-- The result of a matching: it is always constructed, and the position that it names is free
-- (app/mt5/matching.py, app/core/models/mt5_matching.py).
use ai_trading_advisor.Prelude.{
  ℕ, ◌≡◌, ◌<◌, refl, sym, ◌∙◌, ap, Bool, true, false, ◌&&◌, some, some-injective, List, [], ◌∷◌,
  map, keep, contains, no_duplicates, is_sorted, ltb, lt→ltb, ◌==◌, ==→eq, All, arith, Bool-cases,
  inl, inr, &&-left, &&-right,
}
use ai_trading_advisor.Decimal.Context.{DecimalContext, sum_from, eq, lt}
use ai_trading_advisor.Broker.Deals.{Mt5Deal}
use ai_trading_advisor.Tracking.Groups.{find_group, is_nonempty}
use ai_trading_advisor.Tracking.Matching.{
  Mt5MatchOutcome, Mt5MatchResult, MatchQuery, HistoryRead, is_ok, is_valid, without_match,
  qualifies_structurally, is_first_lifecycle_consistent, group_deals, judge_volume, judge_eligible,
  match_fields, match_recommendation,
}
use ai_trading_advisor.Tracking.Ownership.{
  openings, owns, eligible, eligible_position_ids-owns, eligible-no_duplicates, eligible-is_sorted,
  construct-fields, matched_with, IsMatch, match_fields-IsMatch,
}

module _ (C : DecimalContext) where
  open C use {Decimal, zero}

  -- A kept element, and what held of the whole list holds of it.
  kept-element :
      {P : Mt5Deal Decimal → Type 0} (p : Mt5Deal Decimal → Bool) (ds : List (Mt5Deal Decimal))
      → All P ds
      → is_nonempty (keep p ds) ≡ true
      → (d : Mt5Deal Decimal) × (p d ≡ true) × P d
  kept-element p [] h n = absurd (ground (arith, n))
  kept-element p (d ∷ ds) (x, h) n = elim (Bool-cases (p d)) [
    | inl e ↦ (d, e, x)
    | inr e ↦ kept-element p ds h (rw e at n)
  ]

  All-units : (ds : List (Mt5Deal Decimal)) → All {0, 0} (λ _. Unit) ds
  All-units [] = tt
  All-units (d ∷ ds) = (tt, All-units ds)

  -- A position that the recommendation owns has a qualifying deal.
  owned-deal :
      {P : Mt5Deal Decimal → Type 0} (q : MatchQuery Decimal) (ds : List (Mt5Deal Decimal)) (id : ℕ)
      → All P ds
      → owns C q ds id ≡ true
      → (d : Mt5Deal Decimal) × (qualifies_structurally C q d ≡ true) × (d.position_id ≡ id) × P d
  owned-deal q ds id h o =
      let (d, e, x) =
        kept-element (λ d. qualifies_structurally C q d && d.position_id == id) ds h
          (&&-left (is_nonempty (openings C q ds id))
            (is_first_lifecycle_consistent C id (openings C q ds id) ds) o) in
      (
        d,
        &&-left (qualifies_structurally C q d) (d.position_id == id) e,
        ==→eq d.position_id id (&&-right (qualifies_structurally C q d) (d.position_id == id) e),
        x,
      )

  judge_volume-is_valid :
      (total approved : Decimal) (id : ℕ)
      → ltb 0 id ≡ true
      → is_valid (judge_volume C total approved id) ≡ true
  unfolding is_valid
  judge_volume-is_valid total approved id p = ground (arith, p)

  ambiguous-is_valid :
      (a b : ℕ) (rest : List ℕ)
      → is_sorted (a ∷ b ∷ rest) ≡ true
      → no_duplicates (a ∷ b ∷ rest) ≡ true
      → is_valid (without_match Mt5MatchOutcome.ambiguous (a ∷ b ∷ rest)) ≡ true
  unfolding is_valid
  ambiguous-is_valid a b rest s n = rw (s, n) (ground arith)

  judge_eligible-is_valid :
      (q : MatchQuery Decimal) (h : HistoryRead Decimal) (gs : List (ℕ × List (Mt5Deal Decimal)))
      (ids : List ℕ)
      → is_sorted ids ≡ true
      → no_duplicates ids ≡ true
      → ((id : ℕ) → contains id ids ≡ true → ltb 0 id ≡ true)
      → is_valid (judge_eligible C q h gs ids) ≡ true
  unfolding is_valid
  judge_eligible-is_valid q h gs [] s n pos = ground arith
  judge_eligible-is_valid q h gs (x ∷ []) s n pos =
      judge_volume-is_valid (sum_from C zero (map (λ d. d.volume) (find_group x gs)))
        q.approved_broker_volume x (pos x (ground arith))
  judge_eligible-is_valid q h gs (x ∷ y ∷ ys) s n pos = ambiguous-is_valid x y ys s n

  match_fields-is_valid :
      (q : MatchQuery Decimal) (h : HistoryRead Decimal)
      → All (λ d. 0 < d.position_id) h.deals
      → is_valid (match_fields C q h) ≡ true
  unfolding match_fields is_valid
  match_fields-is_valid q h pos = elim (Bool-cases (is_ok h.history_read_status)) [
    | inr ok ↦ rw ok refl
    | inl ok ↦ rw ok (
        judge_eligible-is_valid q h (group_deals C q [] h.deals) (eligible C q h.deals)
          (eligible-is_sorted C q h.deals) (eligible-no_duplicates C q h.deals)
          (λ id c.
            let (d, _, same, p) =
              owned-deal q h.deals id pos (sym (eligible_position_ids-owns C q h.deals id) ∙ c) in
            lt→ltb 0 id (omega (arith, same, p))))
  ]

  -- When all positions in the history have a positive id, the matching returns a result, which
  -- passes the validators of `MT5MatchResult`.
  pub match_recommendation-total :
      (q : MatchQuery Decimal) (h : HistoryRead Decimal)
      → All (λ d. 0 < d.position_id) h.deals
      → (r : Mt5MatchResult) × (match_recommendation C q h ≡ some r)
  unfolding match_recommendation
  match_recommendation-total q h pos = (match_fields C q h, rw (match_fields-is_valid q h pos) refl)

  judge_volume-names :
      (total approved : Decimal) (x id : ℕ)
      → (judge_volume C total approved x).matched_position_id ≡ some id
      → judge_volume C total approved x ≡ matched_with C id
  judge_volume-names total approved x id e = elim (Bool-cases (eq C total approved)) [
    | inl v ↦ rw v (ap (matched_with C) (some-injective (rw v at e)))
    | inr v ↦ elim (Bool-cases (lt C total approved)) [
      | inl l ↦ absurd (ground (arith, v, l, e))
      | inr l ↦ absurd (ground (arith, v, l, e))
    ]
  ]

  judge_eligible-names :
      (q : MatchQuery Decimal) (h : HistoryRead Decimal) (gs : List (ℕ × List (Mt5Deal Decimal)))
      (ids : List ℕ) (id : ℕ)
      → (judge_eligible C q h gs ids).matched_position_id ≡ some id
      → judge_eligible C q h gs ids ≡ matched_with C id
  judge_eligible-names q h gs [] id e = absurd (ground (arith, e))
  judge_eligible-names q h gs (x ∷ []) id e =
      judge_volume-names (sum_from C zero (map (λ d. d.volume) (find_group x gs)))
        q.approved_broker_volume x id e
  judge_eligible-names q h gs (x ∷ y ∷ ys) id e = absurd (ground (arith, e))

  match_fields-names :
      (q : MatchQuery Decimal) (h : HistoryRead Decimal) (id : ℕ)
      → (match_fields C q h).matched_position_id ≡ some id
      → match_fields C q h ≡ matched_with C id
  unfolding match_fields
  match_fields-names q h id e = elim (Bool-cases (is_ok h.history_read_status)) [
    | inr ok ↦ absurd (ground (arith, ok, e))
    | inl ok ↦ rw ok (
        judge_eligible-names q h (group_deals C q [] h.deals) (eligible C q h.deals) id
          (rw ok at e))
  ]

  -- Only a position that was neither open before nor claimed qualifies.
  qualifies-is_free :
      (q : MatchQuery Decimal) (d : Mt5Deal Decimal)
      → qualifies_structurally C q d ≡ true
      → (contains d.position_id q.pre_existing_position_ids ≡ false)
        × (contains d.position_id q.already_claimed_position_ids ≡ false)
  unfolding qualifies_structurally
  qualifies-is_free q d e = ground (arith, e)

  free-same :
      (q : MatchQuery Decimal) (i id : ℕ)
      → i ≡ id
      → (contains i q.pre_existing_position_ids ≡ false)
        × (contains i q.already_claimed_position_ids ≡ false)
      → (contains id q.pre_existing_position_ids ≡ false)
        × (contains id q.already_claimed_position_ids ≡ false)
  free-same q i id e f = rw (sym e) f

  -- A result names the position that the recommendation is to be matched with.
  pub match_recommendation-names :
      (q : MatchQuery Decimal) (h : HistoryRead Decimal) (r : Mt5MatchResult) (id : ℕ)
      → match_recommendation C q h ≡ some r
      → r.matched_position_id ≡ some id
      → IsMatch C q h id
  unfolding match_recommendation
  match_recommendation-names q h r id e m =
      let f = construct-fields (match_fields C q h) r e in
      match_fields-IsMatch C q h id
        (match_fields-names q h id (ap (λ s. s.matched_position_id) f ∙ m))

  pub match_recommendation-is_free :
      (q : MatchQuery Decimal) (h : HistoryRead Decimal) (r : Mt5MatchResult) (id : ℕ)
      → match_recommendation C q h ≡ some r
      → r.matched_position_id ≡ some id
      → (contains id q.pre_existing_position_ids ≡ false)
        × (contains id q.already_claimed_position_ids ≡ false)
  match_recommendation-is_free q h r id e m =
      let (_, own, _, _) = match_recommendation-names q h r id e m in
      let (d, k, same, _) = owned-deal {P = λ _. Unit} q h.deals id (All-units h.deals) own in
      free-same q d.position_id id same (qualifies-is_free q d k)
