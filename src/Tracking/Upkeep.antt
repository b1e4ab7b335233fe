-- ===== src/Tracking/Upkeep.antt =====
-- Over many cycles each tracked recommendation keeps its identity and its position, and a cycle that
-- cannot read the history changes nothing of it (app/mt5/tracker.py, app/orchestration/runtime_cycle.py).
use ai_trading_advisor.Prelude.{
  ℕ, ◌≡◌, refl, sym, ◌∙◌, true, false, Option, none, some, some-injective, List, [], ◌∷◌,
  no_duplicates, ◌>>=◌, bind-some, arith,
}
use ai_trading_advisor.Decimal.Context.{DecimalContext}
use ai_trading_advisor.Tracking.Groups.{sorted}
use ai_trading_advisor.Tracking.Matching.{
  Mt5MatchOutcome, HistoryRead, is_ok, match_recommendation, match_fields, is_valid, without_match,
}
use ai_trading_advisor.Tracking.Tracker.{
  Mt5TrackedRecommendation, advance_from, advance_tracked_recommendation, is_valid_tracked,
  follow_position, query_of,
}
use ai_trading_advisor.Tracking.Following.{advance_tracked_recommendation-KeepsOrFinds}
use ai_trading_advisor.Tracking.Claims.{keeps-of, position_ids, run-no_duplicates}
use ai_trading_advisor.Tracking.Sweep.{
  claim, claimed_by_others, Tracked, initially_claimed, advance_rest, advance_all_existing_tracking,
  run,
}

-- The position that there was.
abbrev pub Keeps : Option ℕ → Option ℕ → Type 0
Keeps none new = Unit
Keeps (some id) new = new ≡ some id

Keeps-refl : (o : Option ℕ) → Keeps o o
Keeps-refl none = tt
Keeps-refl (some id) = refl

Keeps-trans : (a b c : Option ℕ) → Keeps a b → Keeps b c → Keeps a c
Keeps-trans none b c h k = tt
Keeps-trans (some id) none c h k = absurd (ground (arith, h))
Keeps-trans (some id) (some i) c h k = k ∙ h

Keeps-cases : (a b : Option ℕ) → ((id : ℕ) → a ≡ some id → b ≡ some id) → Keeps a b
Keeps-cases none b h = tt
Keeps-cases (some id) b h = h id refl

module _ (C : DecimalContext) where
  open C use {Decimal}

  -- The same trades in the same order, each with the position that it had.
  abbrev pub StillHas : List (Tracked C) → List (Tracked C) → Type 0
  StillHas [] [] = Unit
  StillHas (t ∷ ts) (u ∷ us) =
      (u.0 ≡ t.0) × Keeps t.1.matched_position_id u.1.matched_position_id × StillHas ts us
  StillHas [] (u ∷ us) = ⊥
  StillHas (t ∷ ts) [] = ⊥

  StillHas-refl : (ts : List (Tracked C)) → StillHas ts ts
  StillHas-refl [] = tt
  StillHas-refl (t ∷ ts) = (refl, Keeps-refl t.1.matched_position_id, StillHas-refl ts)

  StillHas-trans : (ts us vs : List (Tracked C)) → StillHas ts us → StillHas us vs → StillHas ts vs
  StillHas-trans [] [] [] h k = tt
  StillHas-trans [] [] (v ∷ vs) h k = elim k [ ]
  StillHas-trans [] (u ∷ us) vs h k = elim h [ ]
  StillHas-trans (t ∷ ts) [] vs h k = elim h [ ]
  StillHas-trans (t ∷ ts) (u ∷ us) [] h k = elim k [ ]
  StillHas-trans (t ∷ ts) (u ∷ us) (v ∷ vs) (e, f, h) (d, g, k) = (
    d ∙ e,
    Keeps-trans t.1.matched_position_id u.1.matched_position_id v.1.matched_position_id f g,
    StillHas-trans ts us vs h k,
  )

  advance_rest-StillHas :
      (as_of : ℕ) (h : HistoryRead Decimal) (claimed : List ℕ) (ts us : List (Tracked C))
      → advance_rest C as_of h claimed ts ≡ some us
      → StillHas ts us
  advance_rest-StillHas as_of h claimed [] us e = rw (sym (some-injective e)) tt
  advance_rest-StillHas as_of h claimed (t ∷ ts) us e =
      let old = t.1.matched_position_id in
      let told = sorted (claimed_by_others old claimed) in
      let (u, step, rest) =
        bind-some (advance_tracked_recommendation C as_of t.1 h told)
          (λ v.
            advance_rest C as_of h (claim v.matched_position_id claimed) ts
            >>= (λ r. some ((t.0, v) ∷ r)))
          us e in
      let new = u.matched_position_id in
      let (vs, tail, end_) =
        bind-some (advance_rest C as_of h (claim new claimed) ts) (λ r. some ((t.0, u) ∷ r)) us
          rest in
      let (_, k) = advance_tracked_recommendation-KeepsOrFinds C as_of t.1 u h told step in
      rw (sym (some-injective end_)) (
        refl,
        Keeps-cases old new (keeps-of C old t.1 u h told k),
        advance_rest-StillHas as_of h (claim new claimed) ts vs tail,
      )

  pub run-StillHas :
      (cycles : List (ℕ × HistoryRead Decimal)) (ts us : List (Tracked C))
      → run C cycles ts ≡ some us
      → StillHas ts us
  unfolding run advance_all_existing_tracking
  run-StillHas [] ts us e = rw (sym (some-injective e)) (StillHas-refl ts)
  run-StillHas (c ∷ cs) ts us e =
      let (vs, step, rest) =
        bind-some (advance_all_existing_tracking C c.0 c.1 ts) (λ v. run C cs v) us e in
      StillHas-trans ts vs us (advance_rest-StillHas c.0 c.1 (initially_claimed C ts) ts vs step)
        (run-StillHas cs vs us rest)

  -- Without the history: nothing of the position changes.
  abbrev pub IsUnchanged :
      Mt5TrackedRecommendation Decimal → Mt5TrackedRecommendation Decimal → Type 0
  IsUnchanged t u =
      (u.position_record ≡ t.position_record) × (u.matched_position_id ≡ t.matched_position_id)

  unread-match :
      (t : Mt5TrackedRecommendation Decimal) (h : HistoryRead Decimal) (claimed : List ℕ)
      → is_ok h.history_read_status ≡ false
      → match_recommendation C (query_of C t claimed) h
        ≡ some (without_match Mt5MatchOutcome.read_unavailable [])
  unfolding match_recommendation match_fields is_valid
  unread-match t h claimed n = rw n refl

  unread-from :
      (as_of : ℕ) (t : Mt5TrackedRecommendation Decimal) (h : HistoryRead Decimal)
      (claimed : List ℕ) (old : Option ℕ)
      → is_ok h.history_read_status ≡ false
      → is_valid_tracked C t ≡ true
      → (u : Mt5TrackedRecommendation Decimal) × (advance_from C old as_of t h claimed ≡ some u)
        × IsUnchanged t u
  unfolding follow_position is_valid_tracked
  unread-from as_of t h claimed (some id) n v =
      (record t { last_read_at = some as_of }, rw (n, v) refl, (refl, refl))
  unread-from as_of t h claimed none n v = (
    record t {
      last_match_outcome = some Mt5MatchOutcome.read_unavailable;
      last_read_at = some as_of;
    },
    rw (unread-match t h claimed n, v) refl,
    (refl, refl),
  )

  -- When the history could not be read, the update of a valid tracked recommendation returns one
  -- whose record and position are unchanged.
  pub advance_tracked_recommendation-unread :
      (as_of : ℕ) (t : Mt5TrackedRecommendation Decimal) (h : HistoryRead Decimal)
      (claimed : List ℕ)
      → is_ok h.history_read_status ≡ false
      → is_valid_tracked C t ≡ true
      → (u : Mt5TrackedRecommendation Decimal) × (advance_tracked_recommendation C as_of t h claimed
          ≡ some u)
        × IsUnchanged t u
  unfolding advance_tracked_recommendation
  advance_tracked_recommendation-unread as_of t h claimed n v =
      unread-from as_of t h claimed t.matched_position_id n v

  -- When tracked recommendations with distinct positions are updated over any number of cycles and
  -- no update raises, their positions are still distinct, the trades are the same, and each that
  -- had a position has the same one.
  pub run-keeps_claims :
      (cycles : List (ℕ × HistoryRead Decimal)) (ts us : List (Tracked C))
      → no_duplicates (position_ids C ts) ≡ true
      → run C cycles ts ≡ some us
      → (no_duplicates (position_ids C us) ≡ true) × StillHas ts us
  run-keeps_claims cycles ts us d e =
      (run-no_duplicates C cycles ts us d e, run-StillHas cycles ts us e)
