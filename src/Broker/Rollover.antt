-- ===== src/Broker/Rollover.antt =====
-- The rollover state machine (app/mt5/rollover.py, with app/core/models/mt5_rollover.py and
-- app/core/enums/mt5_rollover.py), and the step that a runtime cycle makes with it
-- (app/orchestration/runtime_cycle.py). A trading-day key is a natural number: the source compares
-- keys of the form YYYY-MM-DD, whose order as text is the order of the days.
use Prim.Native.String.{String}
use text.Mathlib.Text.{◌==◌ as str_eq}
use ai_trading_advisor.Prelude.{
  ℕ, Bool, true, false, ◌&&◌, ◌||◌, Option, none, some, List, [], ◌∷◌, if◌then◌else◌, negb, ltb,
  ◌==◌, ◌>>=◌,
}
use ai_trading_advisor.Decimal.Context.{DecimalContext, lt}
use ai_trading_advisor.Market.Result.{is_some}

pub data Mt5RolloverEstablishmentMode : Type 0 where
  midday_bootstrap post_boundary_first_observation same_day_reuse : Mt5RolloverEstablishmentMode

pub data Mt5RolloverOutcome : Type 0 where
  ready bootstrapped_midday persistence_unavailable persistence_corrupt : Mt5RolloverOutcome
  config_mismatch future_state : Mt5RolloverOutcome

pub data PersistedStateReadStatus : Type 0 where
  absent valid corrupt unavailable : PersistedStateReadStatus

pub record Mt5RolloverPolicyConfig : Type 0 where
  pub rollover_timezone : String
  pub rollover_hour : ℕ

pub record Mt5RolloverState (Decimal : Type 0) : Type 0 where
  pub trading_day_key : ℕ
  pub rollover_equity : Decimal
  pub established_at : ℕ
  pub rollover_timezone : String
  pub rollover_hour : ℕ
  pub establishment_mode : Mt5RolloverEstablishmentMode

-- What `decide_rollover` returns.
pub record Decision (Decimal : Type 0) : Type 0 where
  pub outcome : Mt5RolloverOutcome
  pub state : Option (Mt5RolloverState Decimal)

-- One cycle's observations: the day, the account, whether the store could be read, and whether a write
-- to it would succeed.
pub record Cycle (Decimal : Type 0) : Type 0 where
  pub trading_day_key : ℕ
  pub current_equity : Decimal
  pub as_of : ℕ
  pub readable : Bool
  pub writable : Bool

-- `_USABLE_OUTCOMES`
abbrev pub is_usable : Mt5RolloverOutcome → Bool
is_usable Mt5RolloverOutcome.ready = true
is_usable Mt5RolloverOutcome.bootstrapped_midday = true
is_usable Mt5RolloverOutcome.persistence_unavailable = false
is_usable Mt5RolloverOutcome.persistence_corrupt = false
is_usable Mt5RolloverOutcome.config_mismatch = false
is_usable Mt5RolloverOutcome.future_state = false

-- `_validate_rollover_state_presence`
abbrev pub has_state : {Decimal : Type 0} → Decision Decimal → Bool
has_state d = if is_usable d.outcome then is_some d.state else negb (is_some d.state)

abbrev pub refused : {Decimal : Type 0} → Mt5RolloverOutcome → Decision Decimal
refused outcome = record { outcome = outcome; state = none }

module _ (C : DecimalContext) (policy : Mt5RolloverPolicyConfig) where
  open C use {Decimal, zero}

  -- The state that a bootstrap or a new day establishes; the constructor raises unless the equity is
  -- positive. Its other constraints are those of the policy and of a key.
  abbrev pub established :
      ℕ → Decimal → ℕ → Mt5RolloverEstablishmentMode → Option (Mt5RolloverState Decimal)
  established key equity as_of mode =
      if lt C zero equity
      then some (record {
        trading_day_key = key;
        rollover_equity = equity;
        established_at = as_of;
        rollover_timezone = policy.rollover_timezone;
        rollover_hour = policy.rollover_hour;
        establishment_mode = mode;
      })
      else none

  -- The cases of a state that was read, by the order of the two keys.
  unfoldable pub decide_persisted :
      ℕ → Decimal → ℕ → Mt5RolloverState Decimal → Option (Decision Decimal)
  decide_persisted key equity as_of s =
      if ltb key s.trading_day_key
      then some (refused Mt5RolloverOutcome.future_state)
      else if ltb s.trading_day_key key
      then established key equity as_of Mt5RolloverEstablishmentMode.post_boundary_first_observation
        >>= (λ fresh. some (record { outcome = Mt5RolloverOutcome.ready; state = some fresh }))
      else if negb (str_eq s.rollover_timezone policy.rollover_timezone)
          || negb (s.rollover_hour == policy.rollover_hour)
      then some (refused Mt5RolloverOutcome.config_mismatch)
      else some (record { outcome = Mt5RolloverOutcome.ready; state = some s })

  -- `decide_rollover`; `none` where its `assert` fails or the constructor of a new state raises.
  unfoldable pub decide_rollover :
      ℕ
      → Decimal
      → ℕ
      → PersistedStateReadStatus
      → Option (Mt5RolloverState Decimal)
      → Option (Decision Decimal)
  decide_rollover key equity as_of PersistedStateReadStatus.corrupt s =
      some (refused Mt5RolloverOutcome.persistence_corrupt)
  decide_rollover key equity as_of PersistedStateReadStatus.unavailable s =
      some (refused Mt5RolloverOutcome.persistence_unavailable)
  decide_rollover key equity as_of PersistedStateReadStatus.absent s =
      established key equity as_of Mt5RolloverEstablishmentMode.midday_bootstrap >>= (λ fresh.
        some (record { outcome = Mt5RolloverOutcome.bootstrapped_midday; state = some fresh }))
  decide_rollover key equity as_of PersistedStateReadStatus.valid none = none
  decide_rollover key equity as_of PersistedStateReadStatus.valid (some s) =
      decide_persisted key equity as_of s

  -- What reading the store reports.
  abbrev pub read_status : Bool → Option (Mt5RolloverState Decimal) → PersistedStateReadStatus
  read_status false s = PersistedStateReadStatus.unavailable
  read_status true none = PersistedStateReadStatus.absent
  read_status true (some s) = PersistedStateReadStatus.valid

  abbrev pub read_state :
      Bool → Option (Mt5RolloverState Decimal) → Option (Mt5RolloverState Decimal)
  read_state false s = none
  read_state true s = s

  -- The store after the write; nothing is written when the decision raises. The source skips a write of the state that it has just read, which
  -- would leave the store as it is.
  abbrev pub stored_after :
      Bool
      → Option (Mt5RolloverState Decimal)
      → Option (Decision Decimal)
      → Option (Mt5RolloverState Decimal)
  stored_after writable stored none = stored
  stored_after writable stored (some d) = if writable && is_some d.state then d.state else stored

  -- One runtime cycle: read, decide, write.
  unfoldable pub step :
      Option (Mt5RolloverState Decimal) → Cycle Decimal → Option (Mt5RolloverState Decimal)
  step stored c = stored_after c.writable stored (
      decide_rollover c.trading_day_key c.current_equity c.as_of (read_status c.readable stored)
        (read_state c.readable stored))

  unfoldable pub run :
      Option (Mt5RolloverState Decimal) → List (Cycle Decimal) → Option (Mt5RolloverState Decimal)
  run stored [] = stored
  run stored (c ∷ cs) = run (step stored c) cs
