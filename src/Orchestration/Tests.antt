-- ===== src/Orchestration/Tests.antt =====
-- The assembly of the account snapshot at two deals and one position, in a decimal context of four places.
use Prim.Native.String.{String}
use ai_trading_advisor.Prelude.{◌>>=◌, ◌≡◌, ◌↔◌, ◌+◌, refl, false, some, List, [], ◌∷◌}
use ai_trading_advisor.Decimal.FixedPoint.{ℤ, pos, fixed_point, fixed_point-OrderLaws}
use ai_trading_advisor.Decimal.ExactFixedPoint.{fixed_point-SignLaws}
use ai_trading_advisor.Money.Account.{is_valid_snapshot}
use ai_trading_advisor.Broker.Sizing.{Mt5SymbolFacts}
use ai_trading_advisor.Broker.Rollover.{Mt5RolloverOutcome, Mt5RolloverEstablishmentMode}
use ai_trading_advisor.Broker.Tally.{tally}
use ai_trading_advisor.Broker.Deals.{
  Mt5Deal, Mt5DealType, Mt5DealEntry, epoch, classify_trading_deal,
}
use ai_trading_advisor.Broker.History.{
  assess_deal, realized_daily_pnl_fields, compute_realized_daily_pnl, is_valid as is_valid_day,
}
use ai_trading_advisor.Broker.OpenRisk.{
  OrderSide, Mt5Position, position_contribution, open_risk_fields, assess_open_risk,
  is_valid as is_valid_risk,
}
use ai_trading_advisor.Orchestration.Facts.{
  RuntimeFactAssemblyOutcome, Mt5RolloverSnapshot, Stamps, AccountRiskSnapshotAssembly,
  timestamps_coherent, assemble_account_risk_snapshot,
}
use ai_trading_advisor.Orchestration.FactsReady.{
  FactsUsable, assemble_account_risk_snapshot-FactsUsable,
}

abbrev rollover : Mt5RolloverSnapshot ℤ
rollover = record {
  as_of = 9;
  rollover_outcome = Mt5RolloverOutcome.ready;
  rollover_state = some (record {
    trading_day_key = 20;
    rollover_equity = pos 10000000;
    established_at = 5;
    rollover_timezone = "Europe/Athens";
    rollover_hour = 0;
    establishment_mode = Mt5RolloverEstablishmentMode.midday_bootstrap;
  });
  current_equity = pos 10050000;
  floating_pnl = pos 20000;
}

abbrev stamps : Stamps
stamps = record { realized_as_of = 9; realized_trading_day_key = 20; open_risk_as_of = 9 }

abbrev deals : List (Mt5Deal ℤ)
deals =
    record {
      ticket = 1;
      position_id = 7;
      time = epoch + 10;
      symbol = some "EURUSD";
      deal_type = Mt5DealType.sell;
      entry = Mt5DealEntry.closing;
      volume = pos 10000;
      price = pos 11000;
      profit = pos 30000;
      commission = pos 0;
      swap = pos 0;
      fee = pos 0;
    }
    ∷ []

abbrev positions : List (Mt5Position ℤ)
positions =
    record {
      ticket = 8;
      symbol = "EURUSD";
      side = OrderSide.buy;
      volume = pos 20000;
      price_open = pos 11000;
      price_current = pos 12000;
      stop_loss = some (pos 11500);
    }
    ∷ []

-- The stop is above the opening price, so the facts of the symbol are not read.
abbrev facts : List (String × Mt5SymbolFacts ℤ)
facts = []

assembled :
    (compute_realized_daily_pnl (fixed_point false) deals epoch (epoch + 30) >>= (λ pnl.
      assess_open_risk (fixed_point false) positions facts
      >>= (λ risk. assemble_account_risk_snapshot (fixed_point false) 9 rollover stamps pnl risk)))
    ≡ some (record {
      outcome = RuntimeFactAssemblyOutcome.ready;
      account_snapshot = some (record {
        rollover_equity = pos 10000000;
        current_equity = pos 10050000;
        realized_daily_pnl = pos 30000;
        floating_pnl = pos 20000;
        current_open_risk_to_stop = pos 0;
      });
      reasons = [];
    })
unfolding assemble_account_risk_snapshot compute_realized_daily_pnl realized_daily_pnl_fields
    assess_open_risk open_risk_fields is_valid_day is_valid_risk tally assess_deal
    classify_trading_deal position_contribution timestamps_coherent is_valid_snapshot
assembled = refl

assemble_account_risk_snapshot-FactsUsable_example :
    (a : AccountRiskSnapshotAssembly ℤ) × ((compute_realized_daily_pnl
          (fixed_point false)
          deals
          epoch
          (epoch + 30)
        >>= (λ pnl. assess_open_risk (fixed_point false) positions facts >>= (λ risk.
            assemble_account_risk_snapshot (fixed_point false) 9 rollover stamps pnl risk)))
      ≡ some a)
    × ((a.outcome ≡ RuntimeFactAssemblyOutcome.ready)
        ↔ FactsUsable
            (fixed_point false)
            9
            rollover
            stamps
            deals
            epoch
            (epoch + 30)
            positions
            facts)
assemble_account_risk_snapshot-FactsUsable_example =
    assemble_account_risk_snapshot-FactsUsable (fixed_point false) (fixed_point-OrderLaws false)
      fixed_point-SignLaws 9 rollover stamps deals epoch (epoch + 30) positions facts refl refl refl
      (refl, tt)
