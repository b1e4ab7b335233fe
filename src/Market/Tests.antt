-- ===== src/Market/Tests.antt =====
-- The evaluator's theorems at one evaluation.
use ai_trading_advisor.Prelude.{◌≡◌, ◌≢◌, refl, ◌≤◌, [], ◌∷◌, some, All}
use ai_trading_advisor.Market.Enums.{FeatureQuality, quality_index}
use ai_trading_advisor.Market.Result.{fold_quality}
use ai_trading_advisor.Market.Evaluator.{
  EvaluationError, Evaluated, evaluate, check_flow, check_technical, check_external, same_upper,
}
use ai_trading_advisor.Market.Validity.{evaluate-ne-invalid_result, evaluate-ok}
use ai_trading_advisor.Market.Quality.{OneOf, fold_quality-worst}
use ai_trading_advisor.Samples.{context, flow, technical, external, evaluation}

evaluate-ne-invalid_result_example :
    evaluate (some flow) (some technical) (some external) context 100 "BTCUSDT"
    ≢ Evaluated.err EvaluationError.invalid_result
evaluate-ne-invalid_result_example =
    evaluate-ne-invalid_result (some flow) (some technical) (some external) context 100 "BTCUSDT"

evaluated_sample :
    evaluate (some flow) (some technical) (some external) context 100 "BTCUSDT"
    ≡ Evaluated.ok evaluation
unfolding check_flow check_technical check_external same_upper
evaluated_sample =
    evaluate-ok (some flow) (some technical) (some external) context 100 "BTCUSDT" refl refl refl

-- A technical result from the future is refused.
future_technical :
    evaluate (some flow) (some technical) (some external) context 94 "BTCUSDT"
    ≡ Evaluated.err EvaluationError.future_contour_time
unfolding evaluate check_flow check_technical check_external same_upper
future_technical = refl

fold_quality-worst_example :
    OneOf
      (fold_quality (FeatureQuality.valid ∷ FeatureQuality.stale ∷ []))
      (FeatureQuality.valid ∷ FeatureQuality.stale ∷ [])
    × All
        (λ x.
          quality_index x
          ≤ quality_index (fold_quality (FeatureQuality.valid ∷ FeatureQuality.stale ∷ [])))
        (FeatureQuality.valid ∷ FeatureQuality.stale ∷ [])
    × (fold_quality [] ≡ FeatureQuality.unavailable)
fold_quality-worst_example = fold_quality-worst FeatureQuality.valid (FeatureQuality.stale ∷ [])
