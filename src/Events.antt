-- ===== src/Events.antt =====
-- The high-impact event gate (app/decision/high_impact_event_gate.py), between the setups and the risk
-- gate.
pub mod Calendar
pub mod Gate
pub mod Verdicts
pub mod RiskBridge
mod Tests
