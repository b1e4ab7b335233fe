-- ===== src/Tracking/Claims.antt =====
-- No two tracked recommendations ever have the same position, and none loses its own
-- (app/orchestration/runtime_cycle.py).
use ai_trading_advisor.Prelude.{
  ℕ, ◌≡◌, ◌⊎◌, refl, sym, ◌∙◌, Bool, true, false, Option, none, some, some-injective, List, [], ◌∷◌,
  contains, no_duplicates, ◌==◌, ==→eq, ◌>>=◌, bind-some, arith, Bool-cases, inl, inr,
}
use ai_trading_advisor.Decimal.Context.{DecimalContext}
use ai_trading_advisor.Tracking.Groups.{sorted, sorted-contains}
use ai_trading_advisor.Tracking.Matching.{HistoryRead}
use ai_trading_advisor.Tracking.Tracker.{Mt5TrackedRecommendation, advance_tracked_recommendation}
use ai_trading_advisor.Tracking.Following.{
  KeepsOrFinds, Finds, advance_tracked_recommendation-KeepsOrFinds,
}
use ai_trading_advisor.Tracking.Sweep.{
  add_claim, claim, claimed_by_others, Tracked, initially_claimed, advance_rest,
  advance_all_existing_tracking, run,
}

-- Adding a claim.
claim-contains :
    (j : ℕ) (o : Option ℕ) (claimed : List ℕ)
    → contains j claimed ≡ true
    → contains j (claim o claimed) ≡ true
claim-contains j none claimed h = h
claim-contains j (some id) claimed h = ground (arith, h)

own-claim : (id : ℕ) (claimed : List ℕ) → contains id (add_claim id claimed) ≡ true
own-claim id claimed = elim (Bool-cases (contains id claimed)) [
  | inl e ↦ rw (e, e) refl
  | inr e ↦ rw e (ground arith)
]

not_contained : (j : ℕ) (xs : List ℕ) → (contains j xs ≡ true → ⊥) → contains j xs ≡ false
not_contained j xs h = elim (Bool-cases (contains j xs)) [ inl e ↦ absurd (h e) | inr e ↦ e ]

true-false : {b : Bool} → b ≡ true → b ≡ false → ⊥
true-false h k = ground (arith, h, k)

claim-absent :
    (j : ℕ) (o : Option ℕ) (claimed : List ℕ)
    → contains j (claim o claimed) ≡ false
    → contains j claimed ≡ false
claim-absent j o claimed h =
    not_contained j claimed (λ c. true-false (claim-contains j o claimed c) h)

later_contained : (j id : ℕ) (xs : List ℕ) → contains j xs ≡ true → contains j (id ∷ xs) ≡ true
later_contained j id xs c = ground (arith, c)

abbrev add_id : Option ℕ → List ℕ → List ℕ
add_id none ids = ids
add_id (some id) ids = id ∷ ids

initial-step :
    (j : ℕ) (o : Option ℕ) (claimed ids : List ℕ)
    → (contains j ids ≡ true → contains j claimed ≡ true)
    → contains j (add_id o ids) ≡ true
    → contains j (claim o claimed) ≡ true
initial-step j none claimed ids h c = h c
initial-step j (some id) claimed ids h c = elim (Bool-cases (j == id)) [
  | inl e ↦ rw (==→eq j id e) (own-claim id claimed)
  | inr e ↦ claim-contains j (some id) claimed (h (rw e at c))
]

module _ (C : DecimalContext) where
  open C use {Decimal}

  -- The positions of tracked recommendations.
  unfoldable pub position_ids : List (Tracked C) → List ℕ
  position_ids [] = []
  position_ids (t ∷ ts) = add_id t.1.matched_position_id (position_ids ts)

  -- What the sweep of the rest guarantees: distinct positions, each an old one or unclaimed before.
  abbrev IsApart : List (Tracked C) → List ℕ → List (Tracked C) → Type 0
  IsApart ts claimed us =
      (no_duplicates (position_ids us) ≡ true)
      × ((j : ℕ)
          → contains j (position_ids us) ≡ true
          → (contains j (position_ids ts) ≡ true) ⊎ (contains j claimed ≡ false))

  abbrev Covers : List ℕ → List ℕ → Type 0
  Covers claimed ids = (j : ℕ) → contains j ids ≡ true → contains j claimed ≡ true

  -- One more recommendation, by its position before and after.
  apart-step :
      (old new : Option ℕ) (before after claimed : List ℕ)
      → no_duplicates (add_id old before) ≡ true
      → Covers claimed (add_id old before)
      → ((id : ℕ) → old ≡ some id → new ≡ some id)
      → (old ≡ none → (id : ℕ) → new ≡ some id → contains id claimed ≡ false)
      → no_duplicates after ≡ true
      → ((j : ℕ)
          → contains j after ≡ true
          → (contains j before ≡ true) ⊎ (contains j (claim new claimed) ≡ false))
      → (no_duplicates (add_id new after) ≡ true)
        × ((j : ℕ)
            → contains j (add_id new after) ≡ true
            → (contains j (add_id old before) ≡ true) ⊎ (contains j claimed ≡ false))
  apart-step none none before after claimed d cover keeps finds n from = (n, from)
  apart-step none (some i) before after claimed d cover keeps finds n from =
      let free = finds refl i refl in
      let absent : contains i after ≡ false = not_contained i after (λ c. elim (from i c) [
        | inl x ↦ true-false (cover i x) free
        | inr y ↦ true-false (own-claim i claimed) y
      ]) in
      (
        rw absent n,
        λ j c. elim (Bool-cases (j == i)) [
          | inl e ↦ inr (rw (==→eq j i e) free)
          | inr e ↦ elim (from j (rw e at c)) [
            | inl x ↦ inl x
            | inr y ↦ inr (claim-absent j (some i) claimed y)
          ]
        ],
      )
  apart-step (some id) none before after claimed d cover keeps finds n from =
      absurd (ground (arith, keeps id refl))
  apart-step (some id) (some i) before after claimed d cover keeps finds n from =
      let same : i ≡ id = some-injective (keeps id refl) in
      let held : contains id claimed ≡ true = cover id (ground arith) in
      let absent : contains id after ≡ false = not_contained id after (λ c. elim (from id c) [
        | inl x ↦ ground (arith, d, x)
        | inr y ↦ true-false (claim-contains id (some i) claimed held) y
      ]) in
      rw same (
        rw absent n,
        λ j c. elim (Bool-cases (j == id)) [
          | inl e ↦ inl (rw e refl)
          | inr e ↦ elim (from j (rw e at c)) [
            | inl x ↦ inl (rw (e, x) refl)
            | inr y ↦ inr (claim-absent j (some i) claimed y)
          ]
        ],
      )

  Covers-rest :
      (old new : Option ℕ) (before claimed : List ℕ)
      → Covers claimed (add_id old before)
      → Covers (claim new claimed) before
  Covers-rest none new before claimed cover j c = claim-contains j new claimed (cover j c)
  Covers-rest (some id) new before claimed cover j c =
      claim-contains j new claimed (cover j (later_contained j id before c))

  distinct-rest :
      (old : Option ℕ) (before : List ℕ)
      → no_duplicates (add_id old before) ≡ true
      → no_duplicates before ≡ true
  distinct-rest none before d = d
  distinct-rest (some id) before d = ground (arith, d)

  -- The claims that one recommendation is told of.
  not_claimed :
      (i : ℕ) (o : Option ℕ) (claimed : List ℕ)
      → o ≡ none
      → contains i (sorted (claimed_by_others o claimed)) ≡ false
      → contains i claimed ≡ false
  not_claimed i none claimed n c = sym (sorted-contains i claimed) ∙ c
  not_claimed i (some id) claimed n c = absurd (ground (arith, n))

  pub keeps-of :
      (old : Option ℕ) (t u : Mt5TrackedRecommendation Decimal) (h : HistoryRead Decimal)
      (claimed : List ℕ)
      → KeepsOrFinds C old t u h claimed
      → (id : ℕ) → old ≡ some id
      → u.matched_position_id ≡ some id
  keeps-of none t u h claimed k id e = absurd (ground (arith, e))
  keeps-of (some i) t u h claimed k id e = k ∙ e

  finds-of :
      (old : Option ℕ) (t u : Mt5TrackedRecommendation Decimal) (h : HistoryRead Decimal)
      (claimed : List ℕ)
      → KeepsOrFinds C old t u h claimed
      → old ≡ none
      → (id : ℕ) → u.matched_position_id ≡ some id
      → contains id claimed ≡ false
  finds-of none t u h claimed k e id m = let k' : Finds C t h claimed (some id) = rw m at k in k'.2
  finds-of (some i) t u h claimed k e id m = absurd (ground (arith, e))

  advance_rest-IsApart :
      (as_of : ℕ) (h : HistoryRead Decimal) (claimed : List ℕ) (ts us : List (Tracked C))
      → no_duplicates (position_ids ts) ≡ true
      → Covers claimed (position_ids ts)
      → advance_rest C as_of h claimed ts ≡ some us
      → IsApart ts claimed us
  unfolding position_ids
  advance_rest-IsApart as_of h claimed [] us d cover e =
      let same = some-injective e in rw (sym same) (refl, λ j c. absurd (ground (arith, c)))
  advance_rest-IsApart as_of h claimed (t ∷ ts) us d cover e =
      let old = t.1.matched_position_id in
      let told = sorted (claimed_by_others old claimed) in
      let (u, step, rest) =
        bind-some (advance_tracked_recommendation C as_of t.1 h told)
          (λ v.
            advance_rest C as_of h (claim v.matched_position_id claimed) ts
            >>= (λ r. some ((t.0, v) ∷ r)))
          us e in
      let new = u.matched_position_id in
      let (vs, tail, end_) =
        bind-some (advance_rest C as_of h (claim new claimed) ts) (λ r. some ((t.0, u) ∷ r)) us
          rest in
      let (_, k) = advance_tracked_recommendation-KeepsOrFinds C as_of t.1 u h told step in
      let (n, from) =
        advance_rest-IsApart as_of h (claim new claimed) ts vs
          (distinct-rest old (position_ids ts) d)
          (Covers-rest old new (position_ids ts) claimed cover) tail in
      rw (sym (some-injective end_)) (
        apart-step old new (position_ids ts) (position_ids vs) claimed d cover
          (keeps-of old t.1 u h told k)
          (λ o id m. not_claimed id old claimed o (finds-of old t.1 u h told k o id m)) n from)

  initially-Covers : (ts : List (Tracked C)) → Covers (initially_claimed C ts) (position_ids ts)
  unfolding position_ids
  initially-Covers [] j c = c
  initially-Covers (t ∷ ts) j c =
      initial-step j t.1.matched_position_id (initially_claimed C ts) (position_ids ts)
        (initially-Covers ts j) c

  pub advance_all_existing_tracking-no_duplicates :
      (as_of : ℕ) (h : HistoryRead Decimal) (ts us : List (Tracked C))
      → no_duplicates (position_ids ts) ≡ true
      → advance_all_existing_tracking C as_of h ts ≡ some us
      → no_duplicates (position_ids us) ≡ true
  unfolding advance_all_existing_tracking
  advance_all_existing_tracking-no_duplicates as_of h ts us d e =
      (advance_rest-IsApart as_of h (initially_claimed C ts) ts us d (initially-Covers ts) e).0

  pub run-no_duplicates :
      (cycles : List (ℕ × HistoryRead Decimal)) (ts us : List (Tracked C))
      → no_duplicates (position_ids ts) ≡ true
      → run C cycles ts ≡ some us
      → no_duplicates (position_ids us) ≡ true
  unfolding run
  run-no_duplicates [] ts us d e = rw (sym (some-injective e)) d
  run-no_duplicates (c ∷ cs) ts us d e =
      let (vs, step, rest) =
        bind-some (advance_all_existing_tracking C c.0 c.1 ts) (λ v. run C cs v) us e in
      run-no_duplicates cs vs us (advance_all_existing_tracking-no_duplicates c.0 c.1 ts vs d step)
        rest
