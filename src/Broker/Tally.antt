-- ===== src/Broker/Tally.antt =====
-- The loops of the broker assessments (app/mt5/risk.py, app/mt5/history.py, app/mt5/tracker.py): each
-- element is skipped, contributes a value, or is refused with a reason and its ticket.
use ai_trading_advisor.Prelude.{
  ℕ, ◌≡◌, ◌↔◌, refl, Bool, true, false, List, [], ◌∷◌, map, keep, All, contains, no_duplicates,
  arith,
}

-- `fails` is the `(None, reason)` of the source, `contributes` its `(value, None)`.
pub data Assessed (Reason Value : Type 0) : Type 0 where
  contributes : Value → Assessed Reason Value
  fails : Reason → Assessed Reason Value

-- What one round of a loop does.
pub data Round (Reason Value : Type 0) : Type 0 where
  skips : Round Reason Value
  adds : Value → Round Reason Value
  refuses : Reason → Round Reason Value

-- The loop's accumulators at its end, each in the order of the elements.
pub record Tally (Reason Value : Type 0) : Type 0 where
  pub contributions : List Value
  pub blocked_reasons : List Reason
  pub unsafe_tickets : List ℕ

abbrev pub by_assessment : {Reason Value : Type 0} → Assessed Reason Value → Round Reason Value
by_assessment (contributes v) = Round.adds v
by_assessment (fails r) = Round.refuses r

module _ {Reason Value : Type 0} where
  abbrev pub count_round : Round Reason Value → ℕ → Tally Reason Value → Tally Reason Value
  count_round Round.skips ticket t = t
  count_round (Round.adds v) ticket t = record t { contributions = v ∷ t.contributions }
  count_round (Round.refuses r) ticket t = record t {
    blocked_reasons = r ∷ t.blocked_reasons;
    unsafe_tickets = ticket ∷ t.unsafe_tickets;
  }

  unfoldable pub tally :
      {A : Type 0} → (A → ℕ) → (A → Round Reason Value) → List A → Tally Reason Value
  tally ticket round [] = record { contributions = []; blocked_reasons = []; unsafe_tickets = [] }
  tally ticket round (x ∷ xs) = count_round (round x) (ticket x) (tally ticket round xs)

  -- Whether a round refuses.
  abbrev pub is_refused : Round Reason Value → Bool
  is_refused Round.skips = false
  is_refused (Round.adds v) = false
  is_refused (Round.refuses r) = true

  abbrev pub add_value : Round Reason Value → List Value → List Value
  add_value Round.skips vs = vs
  add_value (Round.adds v) vs = v ∷ vs
  add_value (Round.refuses r) vs = vs

  -- The values of the rounds that add one.
  unfoldable pub added : {A : Type 0} → (A → Round Reason Value) → List A → List Value
  added round [] = []
  added round (x ∷ xs) = add_value (round x) (added round xs)

  pub tally-contributions :
      {A : Type 0} (ticket : A → ℕ) (round : A → Round Reason Value) (xs : List A)
      → (tally ticket round xs).contributions ≡ added round xs
  unfolding tally added
  tally-contributions ticket round [] = refl
  tally-contributions ticket round (x ∷ xs) = ground (arith, tally-contributions ticket round xs)

  pub tally-unsafe_tickets :
      {A : Type 0} (ticket : A → ℕ) (round : A → Round Reason Value) (xs : List A)
      → (tally ticket round xs).unsafe_tickets ≡ map ticket (keep (λ x. is_refused (round x)) xs)
  unfolding tally
  tally-unsafe_tickets ticket round [] = refl
  tally-unsafe_tickets ticket round (x ∷ xs) = ground (arith, tally-unsafe_tickets ticket round xs)

  -- Nothing is blocked exactly when no round refuses.
  pub tally-clear_iff :
      {A : Type 0} (ticket : A → ℕ) (round : A → Round Reason Value) (xs : List A)
      → ((tally ticket round xs).blocked_reasons ≡ []) ↔ All (λ x. is_refused (round x) ≡ false) xs
  unfolding tally
  tally-clear_iff ticket round [] = ground arith
  tally-clear_iff ticket round (x ∷ xs) = ground (arith, tally-clear_iff ticket round xs)

  -- A reason is blocked exactly when a ticket is.
  pub tally-tickets_iff :
      {A : Type 0} (ticket : A → ℕ) (round : A → Round Reason Value) (xs : List A)
      → ((tally ticket round xs).blocked_reasons ≡ [])
        ↔ ((tally ticket round xs).unsafe_tickets ≡ [])
  unfolding tally
  tally-tickets_iff ticket round [] = ground arith
  tally-tickets_iff ticket round (x ∷ xs) = ground (arith, tally-tickets_iff ticket round xs)

contains-keep :
    {A : Type 0} (ticket : A → ℕ) (p : A → Bool) (a : ℕ) (xs : List A)
    → contains a (map ticket xs) ≡ false
    → contains a (map ticket (keep p xs)) ≡ false
contains-keep ticket p a [] h = refl
contains-keep ticket p a (x ∷ xs) h = ground (arith, contains-keep ticket p a xs)

-- Distinct tickets stay distinct in a part of the list.
pub no_duplicates-keep :
    {A : Type 0} (ticket : A → ℕ) (p : A → Bool) (xs : List A)
    → no_duplicates (map ticket xs) ≡ true
    → no_duplicates (map ticket (keep p xs)) ≡ true
no_duplicates-keep ticket p [] h = refl
no_duplicates-keep ticket p (x ∷ xs) h =
    ground (arith, no_duplicates-keep ticket p xs, contains-keep ticket p (ticket x) xs)
