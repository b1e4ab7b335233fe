-- ===== src/Strategy.antt =====
pub mod Enums
pub mod Router
pub mod Evidence
pub mod Readings
pub mod TechnicalFamilies
pub mod EventDriven
pub mod Judge
pub mod Canonical
pub mod Verdicts
pub mod FamilyVerdicts
pub mod Policy
pub mod PolicyVerdicts
pub mod PolicyTotal
mod Tests
