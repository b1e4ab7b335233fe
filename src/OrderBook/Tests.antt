-- ===== src/OrderBook/Tests.antt =====
-- The order book theorems at a snapshot and two events, in a decimal context of four places.
use ai_trading_advisor.Prelude.{◌≡◌, ◌≤◌, refl, false, some, List, [], ◌∷◌, arith}
use ai_trading_advisor.Decimal.FixedPoint.{ℤ, pos, fixed_point, fixed_point-OrderLaws}
use ai_trading_advisor.OrderBook.Levels.{
  OrderBookLevel, quantity_at, pop, set, apply_level, apply_levels, of_levels,
}
use ai_trading_advisor.OrderBook.LastWrite.{last_write, apply_levels-last_write}
use ai_trading_advisor.OrderBook.Synchronizer.{
  SyncState, OrderBookDeltaEvent, OrderBookSnapshot, Synchronizer, initial, start_buffering, apply,
  book_of, buffer_delta, on_delta, apply_snapshot, Call, step, run,
}
use ai_trading_advisor.OrderBook.Continuity.{replay, IsCoherent, run-IsCoherent}
use ai_trading_advisor.OrderBook.Recovery.{feed_all, run-recovers}
use ai_trading_advisor.OrderBook.Published.{IsHonest, step-IsHonest}

abbrev level : ℤ → ℤ → OrderBookLevel ℤ
level price quantity = record { price = price; quantity = quantity }

abbrev snapshot : OrderBookSnapshot ℤ
snapshot = record {
  last_update_id = 100;
  bids = level (pos 9) (pos 1) ∷ level (pos 8) (pos 2) ∷ [];
  asks = level (pos 11) (pos 3) ∷ [];
  timestamp = 5;
}

abbrev bridging : OrderBookDeltaEvent ℤ
bridging = record {
  first_update_id = 99;
  final_update_id = 101;
  previous_final_update_id = some 98;
  bid_updates = level (pos 9) (pos 0) ∷ level (pos 10) (pos 4) ∷ [];
  ask_updates = [];
  event_time = 6;
}

abbrev following : OrderBookDeltaEvent ℤ
following = record {
  first_update_id = 102;
  final_update_id = 103;
  previous_final_update_id = some 101;
  bid_updates = [];
  ask_updates = level (pos 11) (pos 5) ∷ [];
  event_time = 7;
}

abbrev calls : List (Call (fixed_point false))
calls = Call.starts ∷ feed_all (fixed_point false) (bridging ∷ following ∷ []) snapshot

abbrev synced : Synchronizer ℤ
synced = record {
  state = SyncState.synced;
  buffer = [];
  book = record {
    bids = level (pos 8) (pos 2) ∷ level (pos 10) (pos 4) ∷ [];
    asks = level (pos 11) (pos 5) ∷ [];
    last_update_id = 103;
    as_of = 7;
  };
}

-- The bid at 9 is removed, that at 10 added, and the ask replaced.
recovered : run (fixed_point false) 10 (initial (fixed_point false)) calls ≡ synced
unfolding run start_buffering on_delta buffer_delta apply_snapshot book_of apply apply_levels
    apply_level of_levels pop set
recovered = refl

-- A gap discards the book.
gap : (step (fixed_point false) 10 synced (Call.feeds bridging)).0.state ≡ SyncState.resync_required
unfolding on_delta
gap = refl

run-IsCoherent_example :
    IsCoherent
      (fixed_point false)
      (λ d. d.final_update_id ≤ 103)
      (λ s. s.last_update_id ≡ 100)
      10
      (run (fixed_point false) 10 (initial (fixed_point false)) calls)
run-IsCoherent_example =
    run-IsCoherent (fixed_point false) (λ d. d.final_update_id ≤ 103) (λ s. s.last_update_id ≡ 100)
      10 calls (tt, (ground arith, (ground arith, (refl, tt))))

run-recovers_example :
    ((run (fixed_point false) 10 synced calls).state ≡ SyncState.synced)
    × ((run (fixed_point false) 10 synced calls).book
        ≡ replay
            (fixed_point false)
            (apply (fixed_point false) (book_of (fixed_point false) snapshot) bridging)
            (following ∷ []))
run-recovers_example =
    run-recovers (fixed_point false) 10 synced snapshot bridging (following ∷ []) (ground arith)
      refl (refl, tt) (ground arith, (ground arith, tt))

step-IsHonest_example :
    IsHonest
      (fixed_point false)
      (fixed_point-OrderLaws false)
      (step (fixed_point false) 10 synced (Call.feeds following)).0
      (step (fixed_point false) 10 synced (Call.feeds following)).1
step-IsHonest_example =
    step-IsHonest (fixed_point false) (fixed_point-OrderLaws false) 10 synced (Call.feeds following)

apply_levels-last_write_example :
    quantity_at
      (fixed_point false)
      (pos 9)
      (apply_levels (fixed_point false) snapshot.bids bridging.bid_updates)
    ≡ last_write
        (fixed_point false)
        (fixed_point-OrderLaws false)
        (pos 9)
        bridging.bid_updates
        (some (pos 1))
apply_levels-last_write_example =
    apply_levels-last_write (fixed_point false) (fixed_point-OrderLaws false) (pos 9) snapshot.bids
      bridging.bid_updates
