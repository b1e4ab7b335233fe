-- ===== src/OrderBook/Synchronizer.antt =====
-- The synchronizer of a local order book (`OrderBookSynchronizer` of
-- app/market_data/realtime/order_book_sync.py). A call returns the new state with its reply, an exception
-- included. The symbol, the contract type and the source, which never change, are left out.
use ai_trading_advisor.Prelude.{
  ℕ, Bool, false, ◌&&◌, Option, none, some, List, [], ◌∷◌, ◌++◌, keep, if◌then◌else◌, leb, ◌==◌,
  length,
}
use ai_trading_advisor.Decimal.Context.{DecimalContext}
use ai_trading_advisor.OrderBook.Levels.{
  OrderBookLevel, apply_levels, of_levels, sorted_levels, descending, is_uncrossed,
}

pub data SyncState : Type 0 where
  unsynced buffering synced resync_required : SyncState

pub record OrderBookDeltaEvent (Decimal : Type 0) : Type 0 where
  pub first_update_id : ℕ
  pub final_update_id : ℕ
  pub previous_final_update_id : Option ℕ
  pub bid_updates : List (OrderBookLevel Decimal)
  pub ask_updates : List (OrderBookLevel Decimal)
  pub event_time : ℕ

pub record OrderBookSnapshot (Decimal : Type 0) : Type 0 where
  pub last_update_id : ℕ
  pub bids : List (OrderBookLevel Decimal)
  pub asks : List (OrderBookLevel Decimal)
  pub timestamp : ℕ

-- `_Book`
pub record Book (Decimal : Type 0) : Type 0 where
  pub bids : List (OrderBookLevel Decimal)
  pub asks : List (OrderBookLevel Decimal)
  pub last_update_id : ℕ
  pub as_of : ℕ

-- The fields of `OrderBookSynchronizer` that change.
pub record Synchronizer (Decimal : Type 0) : Type 0 where
  pub state : SyncState
  pub buffer : List (OrderBookDeltaEvent Decimal)
  pub book : Book Decimal

-- What a call returns or raises: `None`, a snapshot, `OrderBookSynchronizationError`, the
-- `ValidationError` of a crossed book, the `IndexError` of `pop(0)` on an empty buffer.
pub data Reply (Decimal : Type 0) : Type 0 where
  nothing : Reply Decimal
  publishes : OrderBookSnapshot Decimal → Reply Decimal
  synchronization_error validation_error index_error : Reply Decimal

-- `!=` against the last applied id, where `None` differs from every id.
abbrev pub continues : Option ℕ → ℕ → Bool
continues none last = false
continues (some pu) last = pu == last

module _ (C : DecimalContext) where
  open C use {Decimal, zero, le}

  -- `_Book()`
  abbrev pub empty_book : Book Decimal
  empty_book = record { bids = []; asks = []; last_update_id = 0; as_of = 0 }

  -- `__init__`
  abbrev pub initial : Synchronizer Decimal
  initial = record { state = SyncState.unsynced; buffer = []; book = empty_book }

  unfoldable pub start_buffering : Synchronizer Decimal → Synchronizer Decimal
  start_buffering s = record s { state = SyncState.buffering; buffer = [] }

  -- `_apply`
  unfoldable pub apply : Book Decimal → OrderBookDeltaEvent Decimal → Book Decimal
  apply b d = record {
    bids = apply_levels C b.bids d.bid_updates;
    asks = apply_levels C b.asks d.ask_updates;
    last_update_id = d.final_update_id;
    as_of = d.event_time;
  }

  abbrev pub snapshot_of : Book Decimal → OrderBookSnapshot Decimal
  snapshot_of b = record {
    last_update_id = b.last_update_id;
    bids = sorted_levels C (descending C) b.bids;
    asks = sorted_levels C le b.asks;
    timestamp = b.as_of;
  }

  -- `_materialize`, whose constructor refuses a crossed book.
  unfoldable pub materialize : Book Decimal → Reply Decimal
  materialize b =
      if is_uncrossed C (snapshot_of b).bids (snapshot_of b).asks
      then Reply.publishes (snapshot_of b)
      else Reply.validation_error

  -- `self._buffer.pop(0)`, then the append.
  abbrev pub drop_oldest :
      Synchronizer Decimal
      → List (OrderBookDeltaEvent Decimal)
      → OrderBookDeltaEvent Decimal
      → Synchronizer Decimal × Reply Decimal
  drop_oldest s [] d = (s, Reply.index_error)
  drop_oldest s (e ∷ es) d = (record s { buffer = es ++ (d ∷ []) }, Reply.nothing)

  -- `_buffer_delta`
  unfoldable pub buffer_delta :
      ℕ → Synchronizer Decimal → OrderBookDeltaEvent Decimal → Synchronizer Decimal × Reply Decimal
  buffer_delta max_buffer s d =
      if leb max_buffer (length s.buffer)
      then drop_oldest s s.buffer d
      else (record s { buffer = s.buffer ++ (d ∷ []) }, Reply.nothing)

  abbrev pub apply_continuous :
      Synchronizer Decimal → Book Decimal → Synchronizer Decimal × Reply Decimal
  apply_continuous s b = (record s { book = b }, materialize b)

  abbrev pub on_delta_in :
      SyncState
      → ℕ
      → Synchronizer Decimal
      → OrderBookDeltaEvent Decimal
      → Synchronizer Decimal × Reply Decimal
  on_delta_in SyncState.buffering max_buffer s d = buffer_delta max_buffer s d
  on_delta_in SyncState.synced max_buffer s d =
      if continues d.previous_final_update_id s.book.last_update_id
      then apply_continuous s (apply s.book d)
      else (record s { state = SyncState.resync_required; book = empty_book }, Reply.nothing)
  on_delta_in _ max_buffer s d = (s, Reply.nothing)

  unfoldable pub on_delta :
      ℕ → Synchronizer Decimal → OrderBookDeltaEvent Decimal → Synchronizer Decimal × Reply Decimal
  on_delta max_buffer s d = on_delta_in s.state max_buffer s d

  -- The event that bridges a snapshot.
  abbrev pub bridges : OrderBookSnapshot Decimal → OrderBookDeltaEvent Decimal → Bool
  bridges snapshot e =
      leb e.first_update_id snapshot.last_update_id && leb snapshot.last_update_id e.final_update_id

  -- `usable[sync_index:]`, empty where there is no such index.
  abbrev pub from_bridge :
      OrderBookSnapshot Decimal
      → List (OrderBookDeltaEvent Decimal)
      → List (OrderBookDeltaEvent Decimal)
  from_bridge snapshot [] = []
  from_bridge snapshot (e ∷ es) =
      let rest = from_bridge snapshot es in if bridges snapshot e then e ∷ es else rest

  -- The book of a snapshot.
  unfoldable pub book_of : OrderBookSnapshot Decimal → Book Decimal
  book_of snapshot = record {
    bids = of_levels C [] snapshot.bids;
    asks = of_levels C [] snapshot.asks;
    last_update_id = snapshot.last_update_id;
    as_of = snapshot.timestamp;
  }

  -- The rest of the loop of `apply_snapshot`, after the bridging event.
  abbrev pub drain :
      Synchronizer Decimal
      → List (OrderBookDeltaEvent Decimal)
      → Synchronizer Decimal × Reply Decimal
  drain s [] = (s, materialize s.book)
  drain s (e ∷ es) =
      let rest = drain (record s { book = apply s.book e }) es in
      if continues e.previous_final_update_id s.book.last_update_id
      then rest
      else (record s { state = SyncState.resync_required }, Reply.synchronization_error)

  -- `apply_snapshot` with the events from the bridging one on; the buffer is cleared.
  abbrev pub synchronize :
      Synchronizer Decimal
      → OrderBookSnapshot Decimal
      → List (OrderBookDeltaEvent Decimal)
      → Synchronizer Decimal × Reply Decimal
  synchronize s snapshot [] =
      (record s { state = SyncState.unsynced; buffer = [] }, Reply.synchronization_error)
  synchronize s snapshot (e ∷ es) =
      drain (record { state = SyncState.synced; buffer = []; book = apply (book_of snapshot) e }) es

  unfoldable pub apply_snapshot :
      Synchronizer Decimal → OrderBookSnapshot Decimal → Synchronizer Decimal × Reply Decimal
  apply_snapshot s snapshot =
      synchronize s snapshot
        (from_bridge snapshot (keep (λ e. leb snapshot.last_update_id e.final_update_id) s.buffer))

  -- A call of the synchronizer.
  pub data Call : Type 0 where
    starts : Call
    feeds : OrderBookDeltaEvent Decimal → Call
    restores : OrderBookSnapshot Decimal → Call

  abbrev pub step : ℕ → Synchronizer Decimal → Call → Synchronizer Decimal × Reply Decimal
  step max_buffer s Call.starts = (start_buffering s, Reply.nothing)
  step max_buffer s (Call.feeds d) = on_delta max_buffer s d
  step max_buffer s (Call.restores snapshot) = apply_snapshot s snapshot

  -- The state after a sequence of calls.
  unfoldable pub run : ℕ → Synchronizer Decimal → List Call → Synchronizer Decimal
  run max_buffer s [] = s
  run max_buffer s (c ∷ cs) = run max_buffer (step max_buffer s c).0 cs
