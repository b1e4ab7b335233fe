-- ===== src/Market.antt =====
pub mod Enums
pub mod EvidenceEnums
pub mod Evidence
pub mod Result
pub mod Evaluator
pub mod Validity
pub mod Quality
mod Tests
