-- ===== src/Tracking.antt =====
-- Recommendation tracking (app/mt5/matching.py, app/mt5/tracker.py): the matching of a recommendation
-- with a broker position, the lifecycle of the position, and the update of every tracked recommendation.
pub mod Groups
pub mod Matching
pub mod Ownership
pub mod MatchResult
pub mod Lifecycle
pub mod Tracker
pub mod Following
pub mod Sweep
pub mod Claims
pub mod Upkeep
pub mod Issuance
pub mod IssuanceLock
mod Tests
