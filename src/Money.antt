-- ===== src/Money.antt =====
-- The money stages: risk gate, portfolio supervisor and session gate, each over the result of the
-- stage before.
pub mod Enums
pub mod Account
pub mod Risk
pub mod Gate
pub mod RiskVerdicts
pub mod GateTotal
pub mod Portfolio
pub mod PortfolioCapacity
pub mod Session
pub mod SessionVerdicts
mod Tests
