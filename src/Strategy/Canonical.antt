-- ===== src/Strategy/Canonical.antt =====
-- The canonical order of evidence references: `_canonicalize` sorts, removes duplicates and keeps
-- every reference.
use ai_trading_advisor.Prelude.{
  ◌≡◌, refl, Bool, true, false, ◌&&◌, ◌||◌, List, [], ◌∷◌, arith, ◌==◌, any_of,
}
use ai_trading_advisor.Strategy.Enums.{contour_index, role_index}
use ai_trading_advisor.Strategy.Evidence.{JudgeEvidenceRef, ref_lt, above, is_canonical}
use ai_trading_advisor.Strategy.Readings.{insert_ref, canonicalize}

ref_lt_irrefl : (a : JudgeEvidenceRef) → ref_lt a a ≡ false
unfolding ref_lt
ref_lt_irrefl a = ground arith

above-insert_ref :
    (a b : JudgeEvidenceRef) (rest : List JudgeEvidenceRef)
    → ref_lt b a ≡ true
    → above b rest ≡ true
    → above b (insert_ref a rest) ≡ true
unfolding insert_ref
above-insert_ref a b [] lt h = lt
above-insert_ref a b (c ∷ rest) lt h = ground arith

insert_ref-is_canonical :
    (a : JudgeEvidenceRef) (refs : List JudgeEvidenceRef)
    → is_canonical refs ≡ true
    → is_canonical (insert_ref a refs) ≡ true
unfolding insert_ref is_canonical
insert_ref-is_canonical a [] h = refl
insert_ref-is_canonical a (b ∷ rest) h =
    ground (arith, insert_ref-is_canonical a rest, above-insert_ref a b rest)

pub canonicalize-is_canonical :
    (refs : List JudgeEvidenceRef) → is_canonical (canonicalize refs) ≡ true
unfolding canonicalize
canonicalize-is_canonical [] = unfold is_canonical in refl
canonicalize-is_canonical (a ∷ refs) =
    insert_ref-is_canonical a (canonicalize refs) (canonicalize-is_canonical refs)

-- Two references with one key.
unfoldable pub same_key : JudgeEvidenceRef → JudgeEvidenceRef → Bool
same_key a b =
    contour_index a.contour == contour_index b.contour
    && (role_index a.role == role_index b.role
        && (a.analyst_result_index == b.analyst_result_index
            && a.observation_index == b.observation_index))

-- References that neither precede one another have one key, so a third shares it with both.
same_key_of_tie :
    (a b c : JudgeEvidenceRef)
    → ref_lt a b ≡ false
    → ref_lt b a ≡ false
    → same_key c a ≡ same_key c b
unfolding ref_lt same_key
same_key_of_tie a b c h k = ground arith

unfoldable pub holds : JudgeEvidenceRef → List JudgeEvidenceRef → Bool
holds c refs = any_of (same_key c) refs

holds-insert_ref :
    (c a : JudgeEvidenceRef) (refs : List JudgeEvidenceRef)
    → holds c (insert_ref a refs) ≡ (same_key c a || holds c refs)
unfolding holds insert_ref
holds-insert_ref c a [] = refl
holds-insert_ref c a (b ∷ rest) = ground (arith, holds-insert_ref c a rest, same_key_of_tie a b c)

holds-canonicalize :
    (c : JudgeEvidenceRef) (refs : List JudgeEvidenceRef)
    → holds c (canonicalize refs) ≡ holds c refs
unfolding canonicalize
holds-canonicalize c [] = refl
holds-canonicalize c (a ∷ refs) =
    rw (holds-insert_ref c a (canonicalize refs), holds-canonicalize c refs) (unfold holds in refl)

-- Canonicalised references are strictly increasing by contour, role, analyst result and
-- observation, and a reference occurs among them exactly when it occurs among the references.
pub canonicalize_lem :
    (c : JudgeEvidenceRef) (refs : List JudgeEvidenceRef)
    → (is_canonical (canonicalize refs) ≡ true) × (holds c (canonicalize refs) ≡ holds c refs)
canonicalize_lem c refs = (canonicalize-is_canonical refs, holds-canonicalize c refs)
