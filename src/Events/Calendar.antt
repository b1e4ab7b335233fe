-- ===== src/Events/Calendar.antt =====
-- The calendar's events, their codes and which of them matter to an instrument
-- (app/decision/high_impact_event_gate.py, app/core/models/high_impact_event.py).
use Prim.Native.String.{String}
use text.Mathlib.Text.{◌==◌ as str_eq}
use ai_trading_advisor.Prelude.{
  ℕ, Bool, true, false, ◌&&◌, Option, none, some, List, [], ◌∷◌, ◌++◌, keep, any_of, if◌then◌else◌,
  negb, leb,
}
use ai_trading_advisor.Market.Result.{MarketEvaluationContext}

pub data HighImpactEventImportance : Type 0 where
  absent low moderate high : HighImpactEventImportance

pub record HighImpactEventRecord : Type 0 where
  pub provider_event_id : String
  pub event_time : ℕ
  pub importance : HighImpactEventImportance
  pub event_code : String

pub record HighImpactEventSymbolOverride : Type 0 where
  pub event_code : String
  pub symbols : List String

-- `a in xs`, for texts.
abbrev pub is_among : String → List String → Bool
is_among a xs = any_of (str_eq a) xs

abbrev pub hard_block_event_codes : List String
hard_block_event_codes =
    "FOMC" ∷ "US_CPI" ∷ "US_CORE_CPI" ∷ "US_PCE" ∷ "US_CORE_PCE" ∷ "US_NFP" ∷ "US_UNEMPLOYMENT"
    ∷ "ECB_RATE_DECISION" ∷ "EUROZONE_CPI" ∷ "BOE_RATE_DECISION" ∷ "UK_CPI" ∷ "BOJ_RATE_DECISION"
    ∷ "EIA_CRUDE_INVENTORIES" ∷ []

abbrev pub warn_only_event_codes : List String
warn_only_event_codes = "US_GDP" ∷ "US_ISM" ∷ "US_MAJOR_PMI" ∷ []

-- `_ALLOWLISTED_EVENT_CODES`
abbrev pub allowlisted_event_codes : List String
allowlisted_event_codes = hard_block_event_codes ++ warn_only_event_codes

-- `_EVENT_CODE_SCOPE`
abbrev pub event_code_scope : List (String × String)
event_code_scope =
    ("FOMC", "USD")
    ∷ ("US_CPI", "USD")
    ∷ ("US_CORE_CPI", "USD")
    ∷ ("US_PCE", "USD")
    ∷ ("US_CORE_PCE", "USD")
    ∷ ("US_NFP", "USD")
    ∷ ("US_UNEMPLOYMENT", "USD")
    ∷ ("US_GDP", "USD")
    ∷ ("US_ISM", "USD")
    ∷ ("US_MAJOR_PMI", "USD")
    ∷ ("ECB_RATE_DECISION", "EUR")
    ∷ ("EUROZONE_CPI", "EUR")
    ∷ ("BOE_RATE_DECISION", "GBP")
    ∷ ("UK_CPI", "GBP")
    ∷ ("BOJ_RATE_DECISION", "JPY")
    ∷ []

-- `_EVENT_CODE_SCOPE.get(code) in scope_tags`, where `None` is in no set of tags.
abbrev pub is_in_scope : String → List String → List (String × String) → Bool
is_in_scope code tags [] = false
is_in_scope code tags ((c, scope) ∷ rest) =
    let later = is_in_scope code tags rest in if str_eq c code then is_among scope tags else later

-- `_SYMBOL_OVERRIDE_EVENT_CODES`, `_CURRENCY_SCOPES`, `_CRYPTO_USD_SENSITIVE_ASSETS`
abbrev pub symbol_override_event_codes : List String
symbol_override_event_codes = "EIA_CRUDE_INVENTORIES" ∷ []

abbrev pub currency_scopes : List String
currency_scopes = "USD" ∷ "EUR" ∷ "GBP" ∷ "JPY" ∷ []

abbrev pub crypto_usd_sensitive_assets : List String
crypto_usd_sensitive_assets = "BTC" ∷ "ETH" ∷ []

abbrev pub is_sensitive : Option String → Bool
is_sensitive none = false
is_sensitive (some asset) = is_among asset crypto_usd_sensitive_assets

-- `_IGNORED_IMPORTANCE`
abbrev pub is_ignored : HighImpactEventImportance → Bool
is_ignored HighImpactEventImportance.absent = true
is_ignored HighImpactEventImportance.low = true
is_ignored HighImpactEventImportance.moderate = false
is_ignored HighImpactEventImportance.high = false

-- `_IMPORTANCE_RANK`
abbrev pub importance_rank : HighImpactEventImportance → ℕ
importance_rank HighImpactEventImportance.absent = 0
importance_rank HighImpactEventImportance.low = 1
importance_rank HighImpactEventImportance.moderate = 2
importance_rank HighImpactEventImportance.high = 3

-- `_instrument_scope_tags`, a set of which only the membership is read.
unfoldable pub instrument_scope_tags : MarketEvaluationContext → List String
instrument_scope_tags context =
    let tags = keep (λ c. is_among c currency_scopes) context.currency_exposures in
    if is_sensitive context.base_asset then "USD" ∷ tags else tags

-- `HighImpactEventSymbolScopeConfig.symbols_for`
abbrev pub symbols_for : String → List HighImpactEventSymbolOverride → List String
symbols_for code [] = []
symbols_for code (o ∷ os) =
    let later = symbols_for code os in if str_eq o.event_code code then o.symbols else later

abbrev pub configured_symbols : String → Option (List HighImpactEventSymbolOverride) → List String
configured_symbols code none = []
configured_symbols code (some overrides) = symbols_for code overrides

-- `_is_relevant`
unfoldable pub is_relevant :
    String
    → List String
    → Option (List HighImpactEventSymbolOverride)
    → HighImpactEventRecord
    → Bool
is_relevant symbol scope_tags config e =
    if is_ignored e.importance
    then false
    else if negb (is_among e.event_code allowlisted_event_codes)
    then false
    else if is_among e.event_code symbol_override_event_codes
    then is_among symbol (configured_symbols e.event_code config)
    else is_in_scope e.event_code scope_tags event_code_scope

-- `_HARD_BLOCK_MIN_IMPORTANCE_OVERRIDE.get(code, HIGH)`
abbrev pub minimum_importance : String → HighImpactEventImportance
minimum_importance code =
    if str_eq code "FOMC"
    then HighImpactEventImportance.moderate
    else HighImpactEventImportance.high

-- `_is_hard_block_eligible`
unfoldable pub is_hard_block_eligible : HighImpactEventRecord → Bool
is_hard_block_eligible e =
    is_among e.event_code hard_block_event_codes
    && leb (importance_rank (minimum_importance e.event_code)) (importance_rank e.importance)
