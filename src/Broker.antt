-- ===== src/Broker.antt =====
-- The broker side (app/mt5): what is computed from the broker's facts.
pub mod Tally
pub mod Deals
pub mod History
pub mod DayPnl
pub mod DaySplit
pub mod Rollover
pub mod RolloverDays
pub mod Sizing
pub mod SizingRisk
pub mod OpenRisk
pub mod OpenRiskTotal
pub mod OpenRiskValid
mod Tests
