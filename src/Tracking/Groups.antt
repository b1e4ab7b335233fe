-- ===== src/Tracking/Groups.antt =====
-- Python's containers in the matching: a dict of lists in insertion order, `sorted` on numbers, `min` of
-- times.
use ai_trading_advisor.Prelude.{
  ℕ, ◌≡◌, refl, ap, Bool, true, false, ◌&&◌, ◌||◌, Option, none, some, List, [], ◌∷◌, ◌++◌, map,
  keep, contains, no_duplicates, is_sorted, if◌then◌else◌, leb, ◌==◌, ==→eq, arith, Bool-cases, inl,
  inr, All,
}

-- `sorted`, an insertion sort here: equal numbers cannot be told apart.
abbrev pub insert_sorted : ℕ → List ℕ → List ℕ
insert_sorted a [] = a ∷ []
insert_sorted a (x ∷ xs) = let rest = insert_sorted a xs in if leb a x then a ∷ x ∷ xs else x ∷ rest

unfoldable pub sorted : List ℕ → List ℕ
sorted [] = []
sorted (x ∷ xs) = insert_sorted x (sorted xs)

abbrev pub min_from : ℕ → List ℕ → ℕ
min_from a [] = a
min_from a (x ∷ xs) = if leb a x then min_from a xs else min_from x xs

-- `min(times)`, of which there is at least one.
abbrev pub earliest : List ℕ → Option ℕ
earliest [] = none
earliest (x ∷ xs) = some (min_from x xs)

abbrev pub same_time : Option ℕ → Option ℕ → Bool
same_time none none = true
same_time (some a) (some b) = a == b
same_time _ _ = false

module _ {A : Type 0} where
  -- `groups[id]`
  abbrev pub find_group : ℕ → List (ℕ × List A) → List A
  find_group id [] = []
  find_group id ((i, g) ∷ gs) = if id == i then g else find_group id gs

  -- `groups.setdefault(id, []).append(a)`
  unfoldable pub append_to : ℕ → A → List (ℕ × List A) → List (ℕ × List A)
  append_to id a [] = (id, a ∷ []) ∷ []
  append_to id a ((i, g) ∷ gs) =
      let rest = append_to id a gs in if id == i then (i, g ++ (a ∷ [])) ∷ gs else (i, g) ∷ rest

  abbrev pub keys : List (ℕ × List A) → List ℕ
  keys = map (λ g. g.0)

  abbrev pub is_nonempty : List A → Bool
  is_nonempty [] = false
  is_nonempty (x ∷ xs) = true

  append-keys :
      (id j : ℕ) (a : A) (gs : List (ℕ × List A))
      → contains j (keys (append_to id a gs)) ≡ (contains j (keys gs) || (j == id))
  unfolding append_to
  append-keys id j a [] = ground arith
  append-keys id j a ((i, g) ∷ gs) = ground (arith, append-keys id j a gs)

  pub append-no_duplicates :
      (id : ℕ) (a : A) (gs : List (ℕ × List A))
      → no_duplicates (keys gs) ≡ true
      → no_duplicates (keys (append_to id a gs)) ≡ true
  unfolding append_to
  append-no_duplicates id a [] h = refl
  append-no_duplicates id a ((i, g) ∷ gs) h =
      ground (arith, append-no_duplicates id a gs, append-keys id i a gs)

  -- The group of a key after an append.
  pub find-append :
      (id j : ℕ) (a : A) (gs : List (ℕ × List A))
      → find_group j (append_to id a gs)
        ≡ (if j == id then find_group j gs ++ (a ∷ []) else find_group j gs)
  unfolding append_to
  find-append id j a [] = ground arith
  find-append id j a ((i, g) ∷ gs) = ground (arith, find-append id j a gs)

  nonempty-append : (xs : List A) (a : A) → is_nonempty (xs ++ (a ∷ [])) ≡ true
  nonempty-append [] a = refl
  nonempty-append (x ∷ xs) a = refl

  -- A key is there exactly when its group has an element.
  abbrev pub IsProper : List (ℕ × List A) → Type 0
  IsProper = All (λ g. is_nonempty g.1 ≡ true)

  pub append-IsProper :
      (id : ℕ) (a : A) (gs : List (ℕ × List A)) → IsProper gs → IsProper (append_to id a gs)
  unfolding append_to
  append-IsProper id a [] h = (refl, tt)
  append-IsProper id a ((i, g) ∷ gs) (n, h) =
      ground (arith, append-IsProper id a gs h, nonempty-append g a)

  pub keys-IsProper :
      (j : ℕ) (gs : List (ℕ × List A))
      → IsProper gs
      → contains j (keys gs) ≡ is_nonempty (find_group j gs)
  keys-IsProper j [] h = refl
  keys-IsProper j ((i, g) ∷ gs) (n, h) = ground (arith, n, keys-IsProper j gs h)

  -- A key of a selection of the groups.
  pub selected-keys :
      (ok : ℕ → List A → Bool) (j : ℕ) (gs : List (ℕ × List A))
      → no_duplicates (keys gs) ≡ true
      → contains j (keys (keep (λ g. ok g.0 g.1) gs))
        ≡ (contains j (keys gs) && ok j (find_group j gs))
  selected-keys ok j [] h = refl
  selected-keys ok j ((i, g) ∷ gs) h = elim (Bool-cases (contains i (keys gs))) [
    | inl c ↦ absurd (ground (arith, h, c))
    | inr c ↦
        let ih = selected-keys ok j gs (ground (arith, h, c)) in
        elim (Bool-cases (j == i)) [
          | inl e ↦
              let same = ==→eq j i e in
              let absent : contains j (keys gs) ≡ false = rw (same) c in
              ground (arith, e, ih, absent, ap (λ k. ok k g) same)
          | inr e ↦ ground (arith, e, ih)
        ]
  ]

insert-contains :
    (j a : ℕ) (xs : List ℕ) → contains j (insert_sorted a xs) ≡ (j == a || contains j xs)
insert-contains j a [] = refl
insert-contains j a (x ∷ xs) = ground (arith, insert-contains j a xs)

insert-is_sorted :
    (a : ℕ) (xs : List ℕ) → is_sorted xs ≡ true → is_sorted (insert_sorted a xs) ≡ true
insert-is_sorted a [] h = refl
insert-is_sorted a (x ∷ []) h = ground arith
insert-is_sorted a (x ∷ y ∷ ys) h = ground (arith, insert-is_sorted a (y ∷ ys))

insert-no_duplicates :
    (a : ℕ) (xs : List ℕ)
    → contains a xs ≡ false
    → no_duplicates xs ≡ true
    → no_duplicates (insert_sorted a xs) ≡ true
insert-no_duplicates a [] c h = refl
insert-no_duplicates a (x ∷ xs) c h =
    ground (arith, insert-no_duplicates a xs, insert-contains x a xs)

pub sorted-contains : (j : ℕ) (xs : List ℕ) → contains j (sorted xs) ≡ contains j xs
unfolding sorted
sorted-contains j [] = refl
sorted-contains j (x ∷ xs) = ground (arith, insert-contains j x (sorted xs), sorted-contains j xs)

pub sorted-is_sorted : (xs : List ℕ) → is_sorted (sorted xs) ≡ true
unfolding sorted
sorted-is_sorted [] = refl
sorted-is_sorted (x ∷ xs) = insert-is_sorted x (sorted xs) (sorted-is_sorted xs)

pub sorted-no_duplicates :
    (xs : List ℕ) → no_duplicates xs ≡ true → no_duplicates (sorted xs) ≡ true
unfolding sorted
sorted-no_duplicates [] h = refl
sorted-no_duplicates (x ∷ xs) h =
    ground
      (arith, insert-no_duplicates x (sorted xs), sorted-no_duplicates xs, sorted-contains x xs)
