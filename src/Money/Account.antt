-- ===== src/Money/Account.antt =====
-- The account facts and the configuration that the money stages share
-- (app/core/models/risk_gate_result.py, app/core/config/trading_cycle.py), and the account-risk
-- arithmetic, of which app/risk/engine.py, app/diversification/supervisor.py, app/statistics/session.py
-- and the result models each keep a copy.
use ai_trading_advisor.Prelude.{ℕ, Bool, ◌&&◌, leb}
use ai_trading_advisor.Decimal.Context.{DecimalContext, lt, max}

pub record AccountRiskSnapshot (Decimal : Type 0) : Type 0 where
  pub rollover_equity : Decimal
  pub current_equity : Decimal
  pub realized_daily_pnl : Decimal
  pub floating_pnl : Decimal
  pub current_open_risk_to_stop : Decimal

pub record TradingCycleConfig (Decimal : Type 0) : Type 0 where
  pub starting_equity : Decimal
  pub target_profit_percent : Decimal
  pub daily_risk_limit_percent : Decimal
  pub per_trade_risk_limit_percent : Decimal
  pub portfolio_risk_limit_percent : Decimal
  pub max_cycle_drawdown_percent : Decimal
  pub cycle_days : ℕ

module _ (C : DecimalContext) where
  open C use {Decimal, zero, hundred, add, sub, mul, div, neg, le}

  -- The field constraints of `AccountRiskSnapshot`.
  unfoldable pub is_valid_snapshot : AccountRiskSnapshot Decimal → Bool
  is_valid_snapshot a =
      lt C zero a.rollover_equity
      && (lt C zero a.current_equity && le zero a.current_open_risk_to_stop)

  -- `PositivePercent`
  abbrev pub is_percent : Decimal → Bool
  is_percent p = lt C zero p && le p hundred

  -- The field constraints of `TradingCycleConfig`, and its validators.
  unfoldable pub is_valid_config : TradingCycleConfig Decimal → Bool
  is_valid_config c =
      (lt C zero c.starting_equity
        && (is_percent c.target_profit_percent
            && (is_percent c.daily_risk_limit_percent
                && (is_percent c.per_trade_risk_limit_percent
                    && (is_percent c.portfolio_risk_limit_percent
                        && (is_percent c.max_cycle_drawdown_percent && leb 1 c.cycle_days))))))
      && (le c.daily_risk_limit_percent c.max_cycle_drawdown_percent
          && (le c.per_trade_risk_limit_percent c.daily_risk_limit_percent
              && le c.portfolio_risk_limit_percent c.max_cycle_drawdown_percent))

  -- `equity * (percent / Decimal("100"))`
  abbrev pub percent_of : Decimal → Decimal → Decimal
  percent_of equity percent = mul equity (div percent hundred)

  unfoldable pub remaining_daily_loss_capacity :
      AccountRiskSnapshot Decimal → TradingCycleConfig Decimal → Decimal
  remaining_daily_loss_capacity account config =
      let daily_loss_limit = percent_of account.rollover_equity config.daily_risk_limit_percent in
      let current_daily_pnl = add account.realized_daily_pnl account.floating_pnl in
      let loss_consumed = max C zero (neg current_daily_pnl) in
      max C zero (sub daily_loss_limit loss_consumed)

  unfoldable pub available_new_trade_risk :
      AccountRiskSnapshot Decimal → TradingCycleConfig Decimal → Decimal
  available_new_trade_risk account config =
      max C zero
        (sub (remaining_daily_loss_capacity account config) account.current_open_risk_to_stop)

  unfoldable pub per_trade_risk_budget :
      AccountRiskSnapshot Decimal → TradingCycleConfig Decimal → Decimal
  per_trade_risk_budget account config =
      percent_of account.rollover_equity config.per_trade_risk_limit_percent
