-- ===== src/Tracking/Ownership.antt =====
-- Which position a recommendation is matched with (app/mt5/matching.py): the eligible positions are those
-- that the recommendation owns by an independent description, without the groups.
use ai_trading_advisor.Prelude.{
  ℕ, ◌≡◌, ◌<◌, ◌↔◌, refl, sym, ◌∙◌, ap, Bool, true, false, ◌&&◌, some, some-injective, List, [],
  ◌∷◌, ◌++◌, map, keep, contains, no_duplicates, is_sorted, lt→ltb, ◌==◌, arith, Bool-cases, inl,
  inr,
}
use ai_trading_advisor.Decimal.Context.{DecimalContext, sum_from, eq, lt}
use ai_trading_advisor.Broker.Deals.{Mt5Deal}
use ai_trading_advisor.Broker.Tally.{no_duplicates-keep}
use ai_trading_advisor.Tracking.Groups.{
  find_group, append_to, keys, is_nonempty, append-no_duplicates, find-append, IsProper,
  append-IsProper, keys-IsProper, selected-keys, sorted-contains, sorted-is_sorted,
  sorted-no_duplicates,
}
use ai_trading_advisor.Tracking.Matching.{
  Mt5MatchOutcome, Mt5MatchResult, MatchQuery, HistoryRead, is_ok, is_valid, construct,
  qualifies_structurally, is_first_lifecycle_consistent, group_deals, eligible_position_ids,
  judge_volume, judge_eligible, match_fields, match_recommendation,
}

only_member : (j id : ℕ) → contains j (id ∷ []) ≡ true → j ≡ id
only_member j id c = ground (arith, c)

-- What a constructor returns has the fields that it was given.
pub construct-fields : (r s : Mt5MatchResult) → construct r ≡ some s → r ≡ s
construct-fields r s e = elim (Bool-cases (is_valid r)) [
  | inl v ↦ some-injective (rw v at e)
  | inr v ↦ absurd (ground (arith, v, e))
]

-- A list of distinct numbers that holds one number only.
pub only-singleton :
    (id : ℕ) (xs : List ℕ)
    → no_duplicates xs ≡ true
    → contains id xs ≡ true
    → ((j : ℕ) → contains j xs ≡ true → j ≡ id)
    → xs ≡ id ∷ []
only-singleton id [] n c only = absurd (ground (arith, c))
only-singleton id (x ∷ []) n c only = ground (arith, only x (ground arith))
only-singleton id (x ∷ y ∷ ys) n c only =
    absurd (ground (arith, n, only x (ground arith), only y (ground arith)))

module _ (C : DecimalContext) where
  open C use {Decimal, zero}

  -- The qualifying openings of a position.
  abbrev pub openings : MatchQuery Decimal → List (Mt5Deal Decimal) → ℕ → List (Mt5Deal Decimal)
  openings q deals id = keep (λ d. qualifies_structurally C q d && d.position_id == id) deals

  -- The recommendation owns a position with a qualifying opening whose first deal on record is one.
  abbrev pub owns : MatchQuery Decimal → List (Mt5Deal Decimal) → ℕ → Bool
  owns q deals id =
      is_nonempty (openings q deals id)
      && is_first_lifecycle_consistent C id (openings q deals id) deals

  append_empty : (xs : List (Mt5Deal Decimal)) → xs ++ [] ≡ xs
  append_empty [] = refl
  append_empty (x ∷ xs) = ap (λ r. x ∷ r) (append_empty xs)

  append_assoc :
      (xs : List (Mt5Deal Decimal)) (d : Mt5Deal Decimal) (ys : List (Mt5Deal Decimal))
      → (xs ++ (d ∷ [])) ++ ys ≡ xs ++ (d ∷ ys)
  append_assoc [] d ys = refl
  append_assoc (x ∷ xs) d ys = ap (λ r. x ∷ r) (append_assoc xs d ys)

  group_deals-find :
      (q : MatchQuery Decimal) (gs : List (ℕ × List (Mt5Deal Decimal)))
      (ds : List (Mt5Deal Decimal)) (j : ℕ)
      → find_group j (group_deals C q gs ds) ≡ find_group j gs ++ openings q ds j
  unfolding group_deals
  group_deals-find q gs [] j = sym (append_empty (find_group j gs))
  group_deals-find q gs (d ∷ ds) j = elim (Bool-cases (qualifies_structurally C q d)) [
    | inr e ↦ rw e (group_deals-find q gs ds j)
    | inl e ↦
        let ih = group_deals-find q (append_to d.position_id d gs) ds j in
        elim (Bool-cases (j == d.position_id)) [
          | inl s ↦
              let s' : (d.position_id == j) ≡ true = ground (arith, s) in
              rw (e, s', ih, find-append d.position_id j d gs, s)
                (append_assoc (find_group j gs) d (openings q ds j))
          | inr s ↦
              let s' : (d.position_id == j) ≡ false = ground (arith, s) in
              rw (e, s', ih, find-append d.position_id j d gs, s) refl
        ]
  ]

  group_deals-IsProper :
      (q : MatchQuery Decimal) (gs : List (ℕ × List (Mt5Deal Decimal)))
      (ds : List (Mt5Deal Decimal))
      → IsProper gs
      → IsProper (group_deals C q gs ds)
  unfolding group_deals
  group_deals-IsProper q gs [] h = h
  group_deals-IsProper q gs (d ∷ ds) h = elim (Bool-cases (qualifies_structurally C q d)) [
    | inr e ↦ rw e (group_deals-IsProper q gs ds h)
    | inl e ↦ rw e (
        group_deals-IsProper q (append_to d.position_id d gs) ds
          (append-IsProper d.position_id d gs h))
  ]

  group_deals-no_duplicates :
      (q : MatchQuery Decimal) (gs : List (ℕ × List (Mt5Deal Decimal)))
      (ds : List (Mt5Deal Decimal))
      → no_duplicates (keys gs) ≡ true
      → no_duplicates (keys (group_deals C q gs ds)) ≡ true
  unfolding group_deals
  group_deals-no_duplicates q gs [] h = h
  group_deals-no_duplicates q gs (d ∷ ds) h = elim (Bool-cases (qualifies_structurally C q d)) [
    | inr e ↦ rw e (group_deals-no_duplicates q gs ds h)
    | inl e ↦ rw e (
        group_deals-no_duplicates q (append_to d.position_id d gs) ds
          (append-no_duplicates d.position_id d gs h))
  ]

  -- The ids that the matching of a query finds eligible.
  abbrev pub eligible : MatchQuery Decimal → List (Mt5Deal Decimal) → List ℕ
  eligible q deals = eligible_position_ids C (group_deals C q [] deals) deals

  pub eligible_position_ids-owns :
      (q : MatchQuery Decimal) (deals : List (Mt5Deal Decimal)) (j : ℕ)
      → contains j (eligible q deals) ≡ owns q deals j
  unfolding eligible_position_ids
  eligible_position_ids-owns q deals j =
      let gs = group_deals C q [] deals in
      let ok : ℕ → List (Mt5Deal Decimal) → Bool =
        λ i g. is_first_lifecycle_consistent C i g deals in
      sorted-contains j (keys (keep (λ g. ok g.0 g.1) gs))
      ∙ selected-keys ok j gs (group_deals-no_duplicates q [] deals refl)
      ∙ rw (keys-IsProper j gs (group_deals-IsProper q [] deals tt), group_deals-find q [] deals j)
          refl

  pub eligible-no_duplicates :
      (q : MatchQuery Decimal) (deals : List (Mt5Deal Decimal))
      → no_duplicates (eligible q deals) ≡ true
  unfolding eligible_position_ids
  eligible-no_duplicates q deals =
      let gs = group_deals C q [] deals in
      let ok : (ℕ × List (Mt5Deal Decimal)) → Bool =
        λ g. is_first_lifecycle_consistent C g.0 g.1 deals in
      sorted-no_duplicates (keys (keep ok gs))
        (no_duplicates-keep (λ g. g.0) ok gs (group_deals-no_duplicates q [] deals refl))

  pub eligible-is_sorted :
      (q : MatchQuery Decimal) (deals : List (Mt5Deal Decimal))
      → is_sorted (eligible q deals) ≡ true
  unfolding eligible_position_ids
  eligible-is_sorted q deals =
      sorted-is_sorted (
        keys (keep (λ g. is_first_lifecycle_consistent C g.0 g.1 deals) (group_deals C q [] deals)))

  -- The total volume of the qualifying openings of a position.
  abbrev pub opening_volume : MatchQuery Decimal → List (Mt5Deal Decimal) → ℕ → Decimal
  opening_volume q deals id = sum_from C zero (map (λ d. d.volume) (openings q deals id))

  -- The result that names a position.
  abbrev pub matched_with : ℕ → Mt5MatchResult
  matched_with id = record {
    outcome = Mt5MatchOutcome.matched;
    matched_position_id = some id;
    candidate_position_ids = [];
  }

  -- The position to be matched with: the history was read, the recommendation owns it and no other, and
  -- its openings have the approved volume.
  abbrev pub IsMatch : MatchQuery Decimal → HistoryRead Decimal → ℕ → Type 0
  IsMatch q h id =
      (is_ok h.history_read_status ≡ true)
      × (owns q h.deals id ≡ true)
      × ((j : ℕ) → owns q h.deals j ≡ true → j ≡ id)
      × (eq C (opening_volume q h.deals id) q.approved_broker_volume ≡ true)

  judge_volume-matched :
      (total approved : Decimal) (x id : ℕ)
      → eq C total approved ≡ false
      → judge_volume C total approved x ≡ matched_with id
      → ⊥
  judge_volume-matched total approved x id v e = elim (Bool-cases (lt C total approved)) [
    | inl l ↦ ground (arith, v, l, ap (λ r. r.outcome) e)
    | inr l ↦ ground (arith, v, l, ap (λ r. r.outcome) e)
  ]

  judge_eligible-matched :
      (q : MatchQuery Decimal) (h : HistoryRead Decimal) (gs : List (ℕ × List (Mt5Deal Decimal)))
      (ids : List ℕ) (id : ℕ)
      → judge_eligible C q h gs ids ≡ matched_with id
      → (ids ≡ id ∷ [])
        × (eq C (sum_from C zero (map (λ d. d.volume) (find_group id gs))) q.approved_broker_volume
            ≡ true)
  judge_eligible-matched q h gs [] id e = absurd (ground (arith, ap (λ r. r.outcome) e))
  judge_eligible-matched q h gs (x ∷ []) id e =
      let total = sum_from C zero (map (λ d. d.volume) (find_group x gs)) in
      elim (Bool-cases (eq C total q.approved_broker_volume)) [
        | inl v ↦
            let same : x ≡ id = some-injective (ap (λ r. r.matched_position_id) (rw v at e)) in
            (ap (λ i. i ∷ []) same, rw (sym same) v)
        | inr v ↦ absurd (judge_volume-matched total q.approved_broker_volume x id v e)
      ]
  judge_eligible-matched q h gs (x ∷ y ∷ ys) id e = absurd (ground (arith, ap (λ r. r.outcome) e))

  pub match_fields-IsMatch :
      (q : MatchQuery Decimal) (h : HistoryRead Decimal) (id : ℕ)
      → match_fields C q h ≡ matched_with id
      → IsMatch q h id
  unfolding match_fields
  match_fields-IsMatch q h id e = elim (Bool-cases (is_ok h.history_read_status)) [
    | inr ok ↦ absurd (ground (arith, ok, ap (λ r. r.outcome) e))
    | inl ok ↦
        let found = group_deals C q [] h.deals in
        let (one, volume) = judge_eligible-matched q h found (eligible q h.deals) id (rw ok at e) in
        let mine : contains id (eligible q h.deals) ≡ true = rw one (ground arith) in
        (
          ok,
          sym (eligible_position_ids-owns q h.deals id) ∙ mine,
          λ j o.
              only_member j id
                (ap (contains j) (sym one) ∙ eligible_position_ids-owns q h.deals j ∙ o),
          rw (group_deals-find q [] h.deals id) at volume,
        )
  ]

  IsMatch-match_fields :
      (q : MatchQuery Decimal) (h : HistoryRead Decimal) (id : ℕ)
      → IsMatch q h id
      → match_fields C q h ≡ matched_with id
  unfolding match_fields
  IsMatch-match_fields q h id (ok, own, only, volume) =
      let one : eligible q h.deals ≡ id ∷ [] =
        only-singleton id (eligible q h.deals) (eligible-no_duplicates q h.deals)
          (eligible_position_ids-owns q h.deals id ∙ own)
          (λ j c. only j (sym (eligible_position_ids-owns q h.deals j) ∙ c)) in
      rw (ok, one, group_deals-find q [] h.deals id, volume) refl

  -- The matching names a position of positive id exactly when the history was read, the
  -- recommendation owns that position and no other, and its qualifying openings sum to the approved
  -- volume. A position is owned when it has a qualifying opening and the first deal on record of it
  -- is at the time of the first of them.
  pub match_recommendation-IsMatch :
      (q : MatchQuery Decimal) (h : HistoryRead Decimal) (id : ℕ)
      → 0 < id
      → (match_recommendation C q h ≡ some (matched_with id)) ↔ IsMatch q h id
  unfolding match_recommendation is_valid
  match_recommendation-IsMatch q h id p = (
    λ e. match_fields-IsMatch q h id (construct-fields (match_fields C q h) (matched_with id) e),
    λ m. ap construct (IsMatch-match_fields q h id m) ∙ rw (lt→ltb 0 id p) refl,
  )
