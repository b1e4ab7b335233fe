-- ===== src/Market/Quality.antt =====
-- The overall quality of a market evaluation, against its description as a worst case.
use mathlib.Core.Path.{subst}
use ai_trading_advisor.Prelude.{
  ◌≤◌, ◌≡◌, refl, sym, ap, List, [], ◌∷◌, arith, All, inl, false, ◌↔◌, ◌⊎◌,
}
use ai_trading_advisor.Market.Enums.{
  FeatureQuality, MarketEvaluationContourStatus, MarketEvaluationOutcome, quality_index,
}
use ai_trading_advisor.Market.Result.{
  worse, worse_from, worse_of_many, fold_quality, participation_outcome, is_qualifying,
}

worse_from-ge :
    (r : FeatureQuality) (qs : List FeatureQuality)
    → quality_index r ≤ quality_index (worse_from r qs)
unfolding worse_from
worse_from-ge r [] = omega arith
worse_from-ge r (q ∷ qs) = ground (arith, worse_from-ge (worse r q) qs)

-- No quality in the list is worse than the fold.
worse_from-All :
    (r : FeatureQuality) (qs : List FeatureQuality)
    → All (λ q. quality_index q ≤ quality_index (worse_from r qs)) qs
unfolding worse_from
worse_from-All r [] = tt
worse_from-All r (q ∷ qs) =
    (ground (arith, worse_from-ge (worse r q) qs), worse_from-All (worse r q) qs)

-- The fold is one of the qualities, or the one it starts from.
abbrev pub OneOf : FeatureQuality → List FeatureQuality → Type 0
OneOf q [] = ⊥
OneOf q (x ∷ xs) = (q ≡ x) ⊎ OneOf q xs

worse_from-OneOf :
    (r : FeatureQuality) (qs : List FeatureQuality)
    → (worse_from r qs ≡ r) ⊎ OneOf (worse_from r qs) qs
unfolding worse_from
worse_from-OneOf r [] = inl refl
worse_from-OneOf r (q ∷ qs) = ground (arith, worse_from-OneOf (worse r q) qs)

worse_valid : (q : FeatureQuality) → worse FeatureQuality.valid q ≡ q
worse_valid FeatureQuality.valid = refl
worse_valid FeatureQuality.partial = refl
worse_valid FeatureQuality.stale = refl
worse_valid FeatureQuality.unavailable = refl

fold_quality_lem :
    (q : FeatureQuality) (qs : List FeatureQuality) → fold_quality (q ∷ qs) ≡ worse_from q qs
unfolding fold_quality worse_of_many worse_from
fold_quality_lem q qs = ap (λ r. worse_from r qs) (worse_valid q)

-- The folded quality of a non-empty list occurs in the list, and no quality of the list is more
-- severe; that of the empty list is `UNAVAILABLE`.
pub fold_quality-worst :
    (q : FeatureQuality) (qs : List FeatureQuality)
    → OneOf (fold_quality (q ∷ qs)) (q ∷ qs)
      × All (λ x. quality_index x ≤ quality_index (fold_quality (q ∷ qs))) (q ∷ qs)
      × (fold_quality [] ≡ FeatureQuality.unavailable)
fold_quality-worst q qs =
    let e = sym (fold_quality_lem q qs) in
    (
      subst (λ w. OneOf w (q ∷ qs)) e (worse_from-OneOf q qs),
      subst (λ w. All (λ x. quality_index x ≤ quality_index w) (q ∷ qs)) e
          (worse_from-ge q qs, worse_from-All q qs),
      unfold fold_quality in refl,
    )

-- The outcome is `EVALUATED` exactly when all three contours are `ANALYZED`, and
-- `INSUFFICIENT_EVIDENCE` exactly when none of them is `ANALYZED` or `PARTIAL`.
pub participation_outcome_iff :
    (f t e : MarketEvaluationContourStatus)
    → ((participation_outcome f t e ≡ MarketEvaluationOutcome.evaluated) ↔ (
        (f ≡ MarketEvaluationContourStatus.analyzed)
        × (t ≡ MarketEvaluationContourStatus.analyzed)
        × (e ≡ MarketEvaluationContourStatus.analyzed)))
      × ((participation_outcome f t e ≡ MarketEvaluationOutcome.insufficient_evidence)
          ↔ ((is_qualifying f ≡ false) × (is_qualifying t ≡ false) × (is_qualifying e ≡ false)))
unfolding participation_outcome
participation_outcome_iff f t e = ground arith
