-- ===== src/Orchestration.antt =====
-- What joins the parts in a cycle (app/orchestration).
pub mod Facts
pub mod FactsReady
mod Tests
