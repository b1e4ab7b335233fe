-- ===== src/Events/Verdicts.antt =====
-- The verdict on a setup is the worst of the relevant events, and its next safe time is safe
-- (app/decision/high_impact_event_gate.py).
use ai_trading_advisor.Prelude.{
  ℕ, ◌≡◌, ◌≤◌, ◌+◌, refl, sym, ◌∙◌, ap, Bool, false, ◌&&◌, ◌||◌, Option, none, some, some-injective,
  List, [], ◌∷◌, ◌++◌, map, keep, any_of, if◌then◌else◌, leb, leb→le, All, arith, Bool-cases, inl,
  inr,
}
use ai_trading_advisor.Strategy.Enums.{StrategyFamily}
use ai_trading_advisor.Tracking.Lifecycle.{latest, max_from}
use ai_trading_advisor.Events.Calendar.{HighImpactEventRecord}
use ai_trading_advisor.Events.Gate.{
  HighImpactEventVerdict, block_end, blocks, warns, event_verdict, worse, add_end, judge_events,
  insert_event, sort_events, result_of, comes_first, evaluate_family,
}

-- The verdict without order: an event that blocks, or else one that warns.
abbrev pub verdict_of_all : ℕ → ℕ → List HighImpactEventRecord → HighImpactEventVerdict
verdict_of_all signal_time valid_until es =
    if any_of (blocks signal_time valid_until) es
    then HighImpactEventVerdict.blocked
    else if any_of (warns signal_time valid_until) es
    then HighImpactEventVerdict.warned
    else HighImpactEventVerdict.allowed

worse_assoc : (a b c : HighImpactEventVerdict) → worse (worse a b) c ≡ worse a (worse b c)
worse_assoc a b c = ground arith

worse-allowed : (a : HighImpactEventVerdict) → worse HighImpactEventVerdict.allowed a ≡ a
worse-allowed a = ground arith

or_swap : (a b c : Bool) → (a || (b || c)) ≡ (b || (a || c))
or_swap a b c = ground arith

-- The verdict by two tests, on one event and on the events after it.
abbrev by_tests : Bool → Bool → HighImpactEventVerdict
by_tests b w =
    if b
    then HighImpactEventVerdict.blocked
    else if w
    then HighImpactEventVerdict.warned
    else HighImpactEventVerdict.allowed

worse-by_tests : (b c w x : Bool) → worse (by_tests b w) (by_tests c x) ≡ by_tests (b || c) (w || x)
worse-by_tests b c w x = ground arith

event_verdict-by_tests :
    (s v : ℕ) (e : HighImpactEventRecord)
    → (event_verdict s v e).0 ≡ by_tests (blocks s v e) (warns s v e)
unfolding event_verdict
event_verdict-by_tests s v e = elim (Bool-cases (blocks s v e)) [
  | inl b ↦ rw b refl
  | inr b ↦ elim (Bool-cases (warns s v e)) [ inl w ↦ rw (b, w) refl | inr w ↦ rw (b, w) refl ]
]

judge_events-verdict :
    (s v : ℕ) (worst : HighImpactEventVerdict) (ends : List ℕ) (es : List HighImpactEventRecord)
    → (judge_events s v worst ends es).0 ≡ worse worst (verdict_of_all s v es)
unfolding judge_events
judge_events-verdict s v worst ends [] = ground arith
judge_events-verdict s v worst ends (e ∷ es) =
    judge_events-verdict s v (worse worst (event_verdict s v e).0)
      (add_end (event_verdict s v e) ends) es
    ∙ worse_assoc worst (event_verdict s v e).0 (verdict_of_all s v es)
    ∙ ap (worse worst) (
        ap (λ k. worse k (verdict_of_all s v es)) (event_verdict-by_tests s v e)
        ∙ worse-by_tests (blocks s v e) (any_of (blocks s v) es) (warns s v e)
            (any_of (warns s v) es))

add_end-blocks :
    (s v : ℕ) (e : HighImpactEventRecord) (ends : List ℕ)
    → add_end (event_verdict s v e) ends
      ≡ (if blocks s v e then ends ++ (block_end e ∷ []) else ends)
unfolding event_verdict
add_end-blocks s v e ends = elim (Bool-cases (blocks s v e)) [
  | inl b ↦ rw b refl
  | inr b ↦ elim (Bool-cases (warns s v e)) [ inl w ↦ rw (b, w) refl | inr w ↦ rw (b, w) refl ]
]

append_nil : (xs : List ℕ) → xs ++ [] ≡ xs
append_nil [] = refl
append_nil (x ∷ xs) = ap (λ r. x ∷ r) (append_nil xs)

append_assoc : (xs : List ℕ) (y : ℕ) (ys : List ℕ) → (xs ++ (y ∷ [])) ++ ys ≡ xs ++ (y ∷ ys)
append_assoc [] y ys = refl
append_assoc (x ∷ xs) y ys = ap (λ r. x ∷ r) (append_assoc xs y ys)

judge_events-ends :
    (s v : ℕ) (worst : HighImpactEventVerdict) (ends : List ℕ) (es : List HighImpactEventRecord)
    → (judge_events s v worst ends es).1 ≡ ends ++ map block_end (keep (blocks s v) es)
unfolding judge_events
judge_events-ends s v worst ends [] = sym (append_nil ends)
judge_events-ends s v worst ends (e ∷ es) =
    judge_events-ends s v (worse worst (event_verdict s v e).0) (add_end (event_verdict s v e) ends)
      es
    ∙ ap (λ k. k ++ map block_end (keep (blocks s v) es)) (add_end-blocks s v e ends)
    ∙ elim (Bool-cases (blocks s v e)) [
      | inl b ↦ rw b (append_assoc ends (block_end e) (map block_end (keep (blocks s v) es)))
      | inr b ↦ rw b refl
    ]

any_of-insert_event :
    (p : HighImpactEventRecord → Bool) (a : HighImpactEventRecord) (es : List HighImpactEventRecord)
    → any_of p (insert_event a es) ≡ (p a || any_of p es)
any_of-insert_event p a [] = refl
any_of-insert_event p a (x ∷ xs) = elim (Bool-cases (comes_first a x)) [
  | inl e ↦ rw e refl
  | inr e ↦ rw (e, any_of-insert_event p a xs) (or_swap (p x) (p a) (any_of p xs))
]

any_of-sort_events :
    (p : HighImpactEventRecord → Bool) (es : List HighImpactEventRecord)
    → any_of p (sort_events es) ≡ any_of p es
unfolding sort_events
any_of-sort_events p [] = refl
any_of-sort_events p (e ∷ es) =
    any_of-insert_event p e (sort_events es) ∙ ap (λ k. p e || k) (any_of-sort_events p es)

max_from-bounds : (a t : ℕ) (xs : List ℕ) → max_from a xs ≤ t → (a ≤ t) × All (λ x. x ≤ t) xs
max_from-bounds a t [] h = (h, tt)
max_from-bounds a t (x ∷ xs) h = elim (Bool-cases (leb x a)) [
  | inl e ↦
      let (f, g) = max_from-bounds a t xs (rw e at h) in (f, (omega (arith, f, leb→le x a e), g))
  | inr e ↦ let (f, g) = max_from-bounds x t xs (rw e at h) in (ground (arith, f, e), (f, g))
]

latest-bounds : (xs : List ℕ) (t : ℕ) → latest xs ≡ some t → All (λ x. x ≤ t) xs
latest-bounds [] t e = tt
latest-bounds (x ∷ xs) t e = max_from-bounds x t xs (ground (arith, some-injective e))

-- An event that has ended does not block.
ended :
    (later until t : ℕ) (e : HighImpactEventRecord)
    → block_end e ≤ t
    → t ≤ later
    → blocks later until e ≡ false
ended later until t e h k = ground (arith, h, k)

-- From a time after the ends of the events that blocked, none of them blocks.
none-blocks :
    (s v later until t : ℕ) (es : List HighImpactEventRecord)
    → All (λ x. x ≤ t) (map block_end (keep (blocks s v) es))
    → t ≤ later
    → any_of (λ e. blocks s v e && blocks later until e) es ≡ false
none-blocks s v later until t [] h k = refl
none-blocks s v later until t (e ∷ es) h k = elim (Bool-cases (blocks s v e)) [
  | inl b ↦
      let h' : All (λ x. x ≤ t) (block_end e ∷ map block_end (keep (blocks s v) es)) = rw b at h in
      rw (b, ended later until t e h'.0 k) (none-blocks s v later until t es h'.1 k)
  | inr b ↦ rw b (none-blocks s v later until t es (rw b at h) k)
]

-- The result by its verdict and the ends.
result_of-verdict :
    (family : StrategyFamily) (es : List HighImpactEventRecord) (w : HighImpactEventVerdict)
    (ends : List ℕ)
    → (result_of family es w ends).verdict ≡ w
result_of-verdict family es w ends = ground arith

result_of-next_safe_time :
    (family : StrategyFamily) (es : List HighImpactEventRecord) (w : HighImpactEventVerdict)
    (ends : List ℕ) (t : ℕ)
    → (result_of family es w ends).next_safe_time ≡ some t
    → latest ends ≡ some t
result_of-next_safe_time family es HighImpactEventVerdict.allowed ends t e =
    absurd (ground (arith, e))
result_of-next_safe_time family es HighImpactEventVerdict.warned ends t e =
    absurd (ground (arith, e))
result_of-next_safe_time family es HighImpactEventVerdict.blocked ends t e = e

evaluate_family-verdict :
    (family : StrategyFamily) (s v : ℕ) (relevant : HighImpactEventRecord → Bool)
    (events : List HighImpactEventRecord)
    → (evaluate_family family s v relevant events).verdict
      ≡ verdict_of_all s v (keep relevant events)
unfolding evaluate_family
evaluate_family-verdict family s v relevant events =
    let found = keep relevant events in
    let judged = judge_events s v HighImpactEventVerdict.allowed [] (sort_events found) in
    result_of-verdict family (sort_events found) judged.0 judged.1
    ∙ judge_events-verdict s v HighImpactEventVerdict.allowed [] (sort_events found)
    ∙ worse-allowed (verdict_of_all s v (sort_events found))
    ∙ rw (any_of-sort_events (blocks s v) found, any_of-sort_events (warns s v) found) refl

-- A delay after the next safe time, no event that blocked blocks a setup.
abbrev pub SafeFrom : ℕ → ℕ → ℕ → ℕ → List HighImpactEventRecord → Option ℕ → Type 0
SafeFrom s v delay until es none = Unit
SafeFrom s v delay until es (some t) =
    any_of (λ e. blocks s v e && blocks (t + delay) until e) es ≡ false

SafeFrom-cases :
    (s v delay until : ℕ) (es : List HighImpactEventRecord) (o : Option ℕ)
    → ((t : ℕ) → o ≡ some t → SafeFrom s v delay until es (some t))
    → SafeFrom s v delay until es o
SafeFrom-cases s v delay until es none h = tt
SafeFrom-cases s v delay until es (some t) h = h t refl

-- The verdict on a setup is `BLOCKED` when a relevant event is eligible for it and its block window
-- overlaps the setup's validity, else `WARNED` when the warn window of a relevant event does, else
-- `ALLOWED`; and from the next safe time on no event that blocked the setup blocks one that is
-- signalled then, however long it is valid.
pub evaluate_family-SafeFrom :
    (family : StrategyFamily) (s v delay until : ℕ) (relevant : HighImpactEventRecord → Bool)
    (events : List HighImpactEventRecord)
    → ((evaluate_family family s v relevant events).verdict
        ≡ verdict_of_all s v (keep relevant events))
      × SafeFrom s v delay until
          (keep relevant events)
          (evaluate_family family s v relevant events).next_safe_time
unfolding evaluate_family
evaluate_family-SafeFrom family s v delay until relevant events =
    let found = keep relevant events in
    let judged = judge_events s v HighImpactEventVerdict.allowed [] (sort_events found) in
    (
      evaluate_family-verdict family s v relevant events,
      SafeFrom-cases s v delay until found
          (result_of family (sort_events found) judged.0 judged.1).next_safe_time
          (λ t e.
            let ends : latest (map block_end (keep (blocks s v) (sort_events found))) ≡ some t =
              ap latest
                (sym (judge_events-ends s v HighImpactEventVerdict.allowed [] (sort_events found)))
              ∙ result_of-next_safe_time family (sort_events found) judged.0 judged.1 t e in
            sym (any_of-sort_events (λ e. blocks s v e && blocks (t + delay) until e) found)
            ∙ none-blocks s v (t + delay) until t (sort_events found)
                (latest-bounds (map block_end (keep (blocks s v) (sort_events found))) t ends)
                (omega arith)),
    )
