-- ===== src/OrderBook.antt =====
-- The local order book (app/market_data/realtime/order_book_sync.py): its sides, the synchronizer's state
-- machine, what every run of it keeps, and the recovery from any state.
pub mod Levels
pub mod LastWrite
pub mod Synchronizer
pub mod Continuity
pub mod Recovery
pub mod Published
mod Tests
