-- ===== src/Strategy/Verdicts.antt =====
-- The shape of the judge's verdicts: what the validators of `JudgeFamilyResult` ask for, but for the
-- count of references behind a `MIXED` verdict, which rests on the supervisors' own results.
use Prim.Native.String.{String}
use ai_trading_advisor.Prelude.{
  ℕ, ◌≡◌, refl, ◌∙◌, Bool, true, false, ◌&&◌, ◌||◌, Option, none, some, List, [], ◌∷◌, ◌++◌, arith,
  any_of, all_of, ap, get_elem?, &&-left, &&-right, Option-cases, inl, inr, &&-intro, every,
  every-bind, every-if, any_of-append, ◌is◌,
}
use ai_trading_advisor.Market.EvidenceEnums.{TechnicalAgreementVerdict, TechnicalAnalysisDimension}
use ai_trading_advisor.Market.Evidence.{TechnicalCoherenceResult, TechnicalSupervisorResult}
use ai_trading_advisor.Strategy.Enums.{EvidenceRole, DirectionalCandidate, JudgeOutcome, role_enum}
use ai_trading_advisor.Strategy.Evidence.{JudgeEvidenceRef, ref_lt, is_canonical}
use ai_trading_advisor.Strategy.Readings.{
  DirectionMap, Resolved, Verdict, insert_ref, canonicalize, mixed, directional, insufficient,
  first_value, value_in, resolved_value, resolve_agreed, resolve_by_verdict, resolve_first,
  resolve_coherence_entry, resolve_single_dimension, find_coherence_entries, direction_of,
  trend_direction_map,
}
use ai_trading_advisor.Strategy.TechnicalFamilies.{
  candidates_of, refs_of, disagree, veto_verdict, judge_primaries, corroborating_veto_refs,
  judge_trend_following,
}
use ai_trading_advisor.Strategy.Canonical.{canonicalize-is_canonical}

abbrev pub is_primary : JudgeEvidenceRef → Bool
is_primary ref = ref.role is EvidenceRole.primary

abbrev pub shape : JudgeOutcome → Option DirectionalCandidate → List JudgeEvidenceRef → Bool
shape JudgeOutcome.directional (some d) refs = any_of is_primary refs
shape JudgeOutcome.mixed none refs = true
shape JudgeOutcome.insufficient_evidence none [] = true
shape _ _ _ = false

-- Direction exactly with `DIRECTIONAL`, which has a primary reference; no reference with
-- `INSUFFICIENT_EVIDENCE`; references in canonical order.
unfoldable pub is_sound : Verdict → Bool
is_sound v = shape v.outcome v.direction v.refs && is_canonical v.refs

-- `_canonicalize` keeps whether there is a primary reference.
tie_keeps_role :
    (a b : JudgeEvidenceRef) → ref_lt a b ≡ false → ref_lt b a ≡ false → is_primary a ≡ is_primary b
unfolding ref_lt
tie_keeps_role a b h k = ground arith

any_of-insert_ref :
    (a : JudgeEvidenceRef) (refs : List JudgeEvidenceRef)
    → any_of is_primary (insert_ref a refs) ≡ (is_primary a || any_of is_primary refs)
unfolding insert_ref
any_of-insert_ref a [] = refl
any_of-insert_ref a (b ∷ rest) = ground (arith, any_of-insert_ref a rest, tie_keeps_role a b)

any_of-canonicalize :
    (refs : List JudgeEvidenceRef) → any_of is_primary (canonicalize refs) ≡ any_of is_primary refs
unfolding canonicalize
any_of-canonicalize [] = refl
any_of-canonicalize (a ∷ refs) =
    rw (any_of-insert_ref a (canonicalize refs), any_of-canonicalize refs)

pub mixed-is_sound : (refs : List JudgeEvidenceRef) → is_sound (mixed refs) ≡ true
unfolding is_sound
mixed-is_sound refs = canonicalize-is_canonical refs

pub directional-is_sound :
    (d : DirectionalCandidate) (refs : List JudgeEvidenceRef)
    → any_of is_primary refs ≡ true
    → is_sound (directional d refs) ≡ true
unfolding is_sound
directional-is_sound d refs h =
    &&-intro _ _ (any_of-canonicalize refs ∙ h) (canonicalize-is_canonical refs)

pub insufficient-is_sound : is_sound insufficient ≡ true
unfolding is_sound is_canonical
insufficient-is_sound = refl

-- A reading with a candidate has a primary reference.
abbrev pub backed : Option DirectionalCandidate → List JudgeEvidenceRef → Bool
backed none refs = true
backed (some c) refs = any_of is_primary refs

abbrev pub is_backed : Resolved → Bool
is_backed r = backed r.candidate r.refs

resolved_value-backed :
    (i j : ℕ) (refs : List (ℕ × ℕ)) (d : Option DirectionalCandidate)
    → is_backed (resolved_value EvidenceRole.primary ((i, j) ∷ refs) d) ≡ true
resolved_value-backed i j refs none = refl
resolved_value-backed i j refs (some d) = refl

resolve_agreed-backed :
    (mapping : DirectionMap) (i j : ℕ) (refs : List (ℕ × ℕ)) (o : Option String)
    → every is_backed (resolve_agreed mapping EvidenceRole.primary ((i, j) ∷ refs) o) ≡ true
resolve_agreed-backed mapping i j refs none = refl
resolve_agreed-backed mapping i j refs (some value) =
    resolved_value-backed i j refs (direction_of mapping value)

resolve_by_verdict-backed :
    (verdict : TechnicalAgreementVerdict) (refs : List (ℕ × ℕ))
    (technical : TechnicalSupervisorResult) (mapping : DirectionMap)
    → every is_backed (resolve_by_verdict verdict refs technical mapping EvidenceRole.primary)
      ≡ true
unfolding resolve_by_verdict first_value
resolve_by_verdict-backed TechnicalAgreementVerdict.mixed refs technical mapping = refl
resolve_by_verdict-backed TechnicalAgreementVerdict.insufficient_data refs technical mapping = refl
resolve_by_verdict-backed TechnicalAgreementVerdict.all_agree [] technical mapping = refl
resolve_by_verdict-backed TechnicalAgreementVerdict.all_agree ((i, j) ∷ refs) technical mapping =
    resolve_agreed-backed mapping i j refs (value_in (get_elem? technical.analyst_results i) j)

pub resolve_single_dimension-backed :
    (technical : TechnicalSupervisorResult) (dimension : TechnicalAnalysisDimension)
    (mapping : DirectionMap)
    → every is_backed (resolve_single_dimension technical dimension mapping EvidenceRole.primary)
      ≡ true
unfolding resolve_single_dimension resolve_coherence_entry
resolve_single_dimension-backed technical dimension mapping =
    go (find_coherence_entries technical dimension)
  where
    go :
        (entries : List TechnicalCoherenceResult)
        → every is_backed (resolve_first entries technical mapping EvidenceRole.primary) ≡ true
    go [] = refl
    go (e ∷ entries) = resolve_by_verdict-backed e.verdict e.evidence_refs technical mapping

-- Where backed readings give a candidate, the references gathered have a primary one.
pub refs_of-primary :
    (rs : List Resolved) {c : DirectionalCandidate} {cs : List DirectionalCandidate}
    → all_of is_backed rs ≡ true
    → candidates_of rs ≡ c ∷ cs
    → any_of is_primary (refs_of rs) ≡ true
refs_of-primary [] h e = cc
refs_of-primary (r ∷ rs) h e = elim (Option-cases (r.candidate)) [
  | inl absent ↦ rw absent (refs_of-primary rs (&&-right (is_backed r) _ h) (rw absent at e))
  | inr (d, present) ↦ rw present (
      any_of-append is_primary r.refs (refs_of rs)
      ∙ ap (λ b. b || any_of is_primary (refs_of rs)) (rw present at (&&-left (is_backed r) _ h)))
]

veto_verdict-is_sound :
    (d : DirectionalCandidate) (refs vetoes : List JudgeEvidenceRef)
    → any_of is_primary refs ≡ true
    → is_sound (veto_verdict d refs vetoes) ≡ true
veto_verdict-is_sound d refs [] h = directional-is_sound d refs h
veto_verdict-is_sound d refs (v ∷ vs) h = mixed-is_sound (refs ++ v ∷ vs)

judge_primaries-is_sound_nil :
    (technical : TechnicalSupervisorResult) (refs : List JudgeEvidenceRef)
    → every is_sound (judge_primaries technical [] refs) ≡ true
unfolding judge_primaries
judge_primaries-is_sound_nil technical refs = insufficient-is_sound

judge_primaries-is_sound_cons :
    (technical : TechnicalSupervisorResult) (d : DirectionalCandidate)
    (others : List DirectionalCandidate) (refs : List JudgeEvidenceRef)
    → any_of is_primary refs ≡ true
    → every is_sound (judge_primaries technical (d ∷ others) refs) ≡ true
unfolding judge_primaries
judge_primaries-is_sound_cons technical d others refs h =
    every-if is_sound (disagree (d ∷ others)) (some (mixed refs)) _ (mixed-is_sound refs) (
      every-bind is_sound (corroborating_veto_refs technical d) _
        (λ vetoes _. veto_verdict-is_sound d refs vetoes h))

judge_primaries-is_sound :
    (technical : TechnicalSupervisorResult) (rs : List Resolved)
    → all_of is_backed rs ≡ true
    → every is_sound (judge_primaries technical (candidates_of rs) (refs_of rs)) ≡ true
judge_primaries-is_sound technical rs h = go (candidates_of rs) refl
  where
    go :
        (cs : List DirectionalCandidate)
        → candidates_of rs ≡ cs
        → every is_sound (judge_primaries technical cs (refs_of rs)) ≡ true
    go [] e = judge_primaries-is_sound_nil technical (refs_of rs)
    go (d ∷ others) e =
        judge_primaries-is_sound_cons technical d others (refs_of rs) (refs_of-primary rs h e)

pub judge_trend_following-is_sound :
    (o : Option TechnicalSupervisorResult) → every is_sound (judge_trend_following o) ≡ true
unfolding judge_trend_following
judge_trend_following-is_sound none = insufficient-is_sound
judge_trend_following-is_sound (some technical) = every-bind is_sound _ _ λ r er.
    every-if is_sound r.conflict (some (mixed r.refs)) _ (mixed-is_sound r.refs) (
      every-bind is_sound _ _ λ s es.
        every-if is_sound s.conflict (some (mixed s.refs)) _ (mixed-is_sound s.refs) (
          judge_primaries-is_sound technical (r ∷ s ∷ []) (
            &&-intro _ _ (backed_at TechnicalAnalysisDimension.return_direction er)
              (&&-intro _ _ (backed_at TechnicalAnalysisDimension.slope_direction es) refl))))
  where
    backed_at :
        (dimension : TechnicalAnalysisDimension) {r : Resolved}
        → resolve_single_dimension technical dimension trend_direction_map EvidenceRole.primary
          ≡ some r
        → is_backed r ≡ true
    backed_at dimension e =
        rw e at (resolve_single_dimension-backed technical dimension trend_direction_map)
