-- ===== src/Market/Evaluator.antt =====
-- app/market_evaluation/evaluator.py: `MarketEvaluator`. `str.upper` is that of ASCII text; an
-- exception is a constructor of `EvaluationError`.
use Prim.Native.Char.{code}
use Prim.Native.String.{String}
use text.Mathlib.Text.{◌==◌ as str_eq}
use ai_trading_advisor.Prelude.{
  ℕ, suc, ◌-◌, Bool, true, false, ◌&&◌, ◌||◌, Option, none, some, List, [], ◌∷◌, map, ltb, leb,
  ◌==◌, if◌then◌else◌, negb, ◌is◌,
}
use ai_trading_advisor.Market.Enums.{
  ExternalScopeMatchKind, ExternalAlignmentStatus, ExternalIntelligenceAnalystType,
  external_analyst_enum,
}
use ai_trading_advisor.Market.EvidenceEnums.{contract_enum}
use ai_trading_advisor.Market.Evidence.{
  TechnicalSupervisorResult, FlowSupervisorResult, ExternalIntelligenceSupervisorResult,
  ExternalIntelligenceScopeSummary,
}
use ai_trading_advisor.Market.Result.{
  MarketEvaluationContext, ExternalScopeAlignmentRef, MarketEvaluationResult, contour_status,
  flow_outcome, flow_quality_of, technical_outcome, technical_quality_of, external_outcome,
  external_quality_of, same_text, exposed, is_some, fold_quality, qualifying_qualities,
  participation_outcome, is_valid,
}

pub data EvaluationError : Type 0 where
  scope_mismatch future_contour_time invalid_result : EvaluationError

pub data Evaluated : Type 0 where
  ok : MarketEvaluationResult → Evaluated
  err : EvaluationError → Evaluated

abbrev codes : String → List ℕ
codes String.[] = []
codes (String.◌∷◌ c s) = code c ∷ codes s

abbrev upper_code : ℕ → ℕ
upper_code c = if leb b'a' c && leb c b'z' then c - 32 else c

abbrev same_codes : List ℕ → List ℕ → Bool
same_codes [] [] = true
same_codes (a ∷ xs) (b ∷ ys) = a == b && same_codes xs ys
same_codes _ _ = false

-- `a.upper() == b.upper()`
unfoldable pub same_upper : String → String → Bool
same_upper a b = same_codes (map upper_code (codes a)) (map upper_code (codes b))

-- The checks before the evaluation; `none` where they all pass.
unfoldable pub check_flow :
    Option FlowSupervisorResult → MarketEvaluationContext → ℕ → Option EvaluationError
check_flow none context time = none
check_flow (some f) context time =
    if negb (str_eq f.symbol context.symbol) || negb (f.contract_type is context.contract_type)
    then some EvaluationError.scope_mismatch
    else if ltb time f.observation_time
    then some EvaluationError.future_contour_time
    else none

unfoldable pub check_technical :
    Option TechnicalSupervisorResult → MarketEvaluationContext → ℕ → String → Option EvaluationError
check_technical none context time expected = none
check_technical (some t) context time expected =
    if negb (same_upper t.symbol expected) || negb (t.contract_type is context.contract_type)
    then some EvaluationError.scope_mismatch
    else if ltb time t.observation_time
    then some EvaluationError.future_contour_time
    else none

unfoldable pub check_external :
    Option ExternalIntelligenceSupervisorResult → ℕ → Option EvaluationError
check_external none time = none
check_external (some x) time =
    if ltb time x.analysis_time then some EvaluationError.future_contour_time else none

-- How one scope summary matches the context, if it does: the `if` chain over `analyst_type`.
unfoldable pub match_by :
    ExternalIntelligenceAnalystType
    → MarketEvaluationContext
    → ExternalIntelligenceScopeSummary
    → Option ExternalScopeMatchKind
match_by ExternalIntelligenceAnalystType.news_sentiment context scope =
    if same_text scope.symbol (some context.symbol)
    then some ExternalScopeMatchKind.symbol
    else none
match_by ExternalIntelligenceAnalystType.on_chain context scope =
    if (is_some context.base_asset && is_some context.network)
      && (same_text scope.asset context.base_asset && same_text scope.network context.network)
    then some ExternalScopeMatchKind.asset_network
    else none
match_by ExternalIntelligenceAnalystType.macro_event context scope =
    if exposed scope.currency context.currency_exposures
    then some ExternalScopeMatchKind.currency
    else none
match_by ExternalIntelligenceAnalystType.rates_yield context scope =
    if exposed scope.currency context.currency_exposures
    then some ExternalScopeMatchKind.currency
    else none

unfoldable pub match_scope :
    MarketEvaluationContext → ExternalIntelligenceScopeSummary → Option ExternalScopeMatchKind
unfolding match_by
match_scope context scope = match_by scope.analyst_type context scope

abbrev pub add_ref :
    ℕ
    → Option ExternalScopeMatchKind
    → List ExternalScopeAlignmentRef
    → List ExternalScopeAlignmentRef
add_ref i none rest = rest
add_ref i (some kind) rest = record { scope_summary_index = i; matched_by = kind } ∷ rest

-- The loop of `_align_external_scopes`, from position `i`.
unfoldable pub align_from :
    MarketEvaluationContext
    → ℕ
    → List ExternalIntelligenceScopeSummary
    → List ExternalScopeAlignmentRef
align_from context i [] = []
align_from context i (scope ∷ scopes) =
    add_ref i (match_scope context scope) (align_from context (suc i) scopes)

unfoldable pub align_external_scopes :
    Option ExternalIntelligenceSupervisorResult
    → MarketEvaluationContext
    → List ExternalScopeAlignmentRef
align_external_scopes none context = []
align_external_scopes (some x) context = align_from context 0 x.scope_summaries

unfoldable pub alignment_status :
    Option ExternalIntelligenceSupervisorResult
    → List ExternalScopeAlignmentRef
    → ExternalAlignmentStatus
alignment_status none refs = ExternalAlignmentStatus.missing
alignment_status (some x) [] = ExternalAlignmentStatus.no_matching_scope
alignment_status (some x) (ref ∷ refs) = ExternalAlignmentStatus.matched

-- The result that `evaluate` constructs once its checks have passed.
unfoldable pub assemble :
    Option FlowSupervisorResult
    → Option TechnicalSupervisorResult
    → Option ExternalIntelligenceSupervisorResult
    → MarketEvaluationContext
    → ℕ
    → MarketEvaluationResult
assemble flow technical external context time =
    let flow_status = contour_status (flow_outcome flow) in
    let technical_status = contour_status (technical_outcome technical) in
    let external_status = contour_status (external_outcome external) in
    let refs = align_external_scopes external context in
    record {
      evaluation_time = time;
      context = context;
      outcome = participation_outcome flow_status technical_status external_status;
      flow_status = flow_status;
      technical_status = technical_status;
      external_status = external_status;
      flow_quality = flow_quality_of flow;
      technical_quality = technical_quality_of technical;
      external_quality = external_quality_of external;
      overall_quality = fold_quality (
          qualifying_qualities flow_status (flow_quality_of flow) technical_status
            (technical_quality_of technical) external_status (external_quality_of external));
      flow = flow;
      technical = technical;
      external = external;
      external_alignment_status = alignment_status external refs;
      external_scope_alignment = refs;
    }

-- `raise` of the first failed check, else construct, which runs the validators.
abbrev pub run_checks :
    Option EvaluationError
    → Option EvaluationError
    → Option EvaluationError
    → MarketEvaluationResult
    → Evaluated
run_checks (some e) t x result = err e
run_checks none (some e) x result = err e
run_checks none none (some e) result = err e
run_checks none none none result =
    if is_valid result then ok result else err EvaluationError.invalid_result

unfoldable pub evaluate :
    Option FlowSupervisorResult
    → Option TechnicalSupervisorResult
    → Option ExternalIntelligenceSupervisorResult
    → MarketEvaluationContext
    → ℕ
    → String
    → Evaluated
evaluate flow technical external context time expected_technical_symbol =
    run_checks (check_flow flow context time)
      (check_technical technical context time expected_technical_symbol)
      (check_external external time) (assemble flow technical external context time)
