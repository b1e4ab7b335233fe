-- ===== src/OrderBook/Recovery.antt =====
-- The recovery of the local order book from any state
-- (app/market_data/realtime/order_book_sync.py).
use ai_trading_advisor.Prelude.{
  ℕ, ◌≡◌, ◌≤◌, ◌+◌, refl, ◌∙◌, ap, true, false, List, [], ◌∷◌, ◌++◌, keep, leb, le→leb, length,
  length-append, All, arith, suc,
}
use ai_trading_advisor.Decimal.Context.{DecimalContext}
use ai_trading_advisor.OrderBook.Synchronizer.{
  SyncState, OrderBookDeltaEvent, OrderBookSnapshot, Book, Synchronizer, start_buffering, apply,
  buffer_delta, on_delta, bridges, book_of, drain, apply_snapshot, Call, step, run,
}
use ai_trading_advisor.OrderBook.Continuity.{Chained, replay}

module _ (C : DecimalContext) where
  open C use {Decimal}

  abbrev Delta : Type 0
  Delta = OrderBookDeltaEvent Decimal

  abbrev buffered : Book Decimal → List Delta → Synchronizer Decimal
  buffered b ds = record { state = SyncState.buffering; buffer = ds; book = b }

  append_nil : (ds : List Delta) → ds ++ [] ≡ ds
  append_nil [] = refl
  append_nil (d ∷ ds) = ap (λ r. d ∷ r) (append_nil ds)

  append_assoc :
      (xs : List Delta) (d : Delta) (ds : List Delta) → (xs ++ (d ∷ [])) ++ ds ≡ xs ++ (d ∷ ds)
  append_assoc [] d ds = refl
  append_assoc (x ∷ xs) d ds = ap (λ r. x ∷ r) (append_assoc xs d ds)

  -- The calls that feed events and then give a snapshot.
  abbrev pub feed_all : List Delta → OrderBookSnapshot Decimal → List (Call C)
  feed_all [] snapshot = Call.restores snapshot ∷ []
  feed_all (d ∷ ds) snapshot = Call.feeds d ∷ feed_all ds snapshot

  feed-room :
      (max_buffer : ℕ) (b : Book Decimal) (xs : List Delta) (d : Delta)
      → suc (length xs) ≤ max_buffer
      → (step C max_buffer (buffered b xs) (Call.feeds d)).0 ≡ buffered b (xs ++ (d ∷ []))
  unfolding on_delta buffer_delta
  feed-room max_buffer b xs d h =
      let room : leb max_buffer (length xs) ≡ false = ground (arith, h) in rw room refl

  -- A buffer with room takes every event.
  run-feed_all :
      (max_buffer : ℕ) (b : Book Decimal) (xs ds : List Delta)
      (snapshot : OrderBookSnapshot Decimal)
      → length xs + length ds ≤ max_buffer
      → run C max_buffer (buffered b xs) (feed_all ds snapshot)
        ≡ (apply_snapshot C (buffered b (xs ++ ds)) snapshot).0
  unfolding run
  run-feed_all max_buffer b xs [] snapshot h = rw (append_nil xs) refl
  run-feed_all max_buffer b xs (d ∷ ds) snapshot h =
      ap (λ t. run C max_buffer t (feed_all ds snapshot))
        (feed-room max_buffer b xs d (omega (arith, h)))
      ∙ run-feed_all max_buffer b (xs ++ (d ∷ [])) ds snapshot
          (omega (arith, h, length-append xs (d ∷ [])))
      ∙ ap (λ es. (apply_snapshot C (buffered b es) snapshot).0) (append_assoc xs d ds)

  keep-All :
      (last : ℕ) (es : List Delta)
      → All (λ e. last ≤ e.final_update_id) es
      → keep (λ e. leb last e.final_update_id) es ≡ es
  keep-All last [] h = refl
  keep-All last (e ∷ es) (l, h) =
      rw (le→leb last e.final_update_id l) (ap (λ r. e ∷ r) (keep-All last es h))

  drain-Chained :
      (s : Synchronizer Decimal) (es : List Delta)
      → Chained C s.book.last_update_id es
      → (drain C s es).0 ≡ record s { book = replay C s.book es }
  unfolding apply
  drain-Chained s [] h = refl
  drain-Chained s (e ∷ es) (k, h) = rw k (drain-Chained (record s { book = apply C s.book e }) es h)

  restored :
      (b : Book Decimal) (snapshot : OrderBookSnapshot Decimal) (e : Delta) (es : List Delta)
      → bridges C snapshot e ≡ true
      → Chained C e.final_update_id es
      → All (λ d. snapshot.last_update_id ≤ d.final_update_id) (e ∷ es)
      → (apply_snapshot C (buffered b (e ∷ es)) snapshot).0 ≡ record {
        state = SyncState.synced;
        buffer = [];
        book = replay C (apply C (book_of C snapshot) e) es;
      }
  unfolding apply_snapshot apply
  restored b snapshot e es bridge chain newer =
      rw (keep-All snapshot.last_update_id (e ∷ es) newer, bridge)
        (drain-Chained
          (record { state = SyncState.synced; buffer = []; book = apply C (book_of C snapshot) e })
          es chain)

  -- From any state: when buffering is started, events are fed, at least one and at most as many as
  -- the buffer holds, and then a snapshot is given, the state is `SYNCED` and the book is the
  -- replay of all the events on the snapshot. The first event bridges the snapshot, each other one
  -- continues the one before, and none ends before the snapshot.
  pub run-recovers :
      (max_buffer : ℕ) (s : Synchronizer Decimal) (snapshot : OrderBookSnapshot Decimal)
      (e : OrderBookDeltaEvent Decimal) (es : List (OrderBookDeltaEvent Decimal))
      → length (e ∷ es) ≤ max_buffer
      → bridges C snapshot e ≡ true
      → Chained C e.final_update_id es
      → All (λ d. snapshot.last_update_id ≤ d.final_update_id) (e ∷ es)
      → ((run C max_buffer s (Call.starts ∷ feed_all (e ∷ es) snapshot)).state ≡ SyncState.synced)
        × ((run C max_buffer s (Call.starts ∷ feed_all (e ∷ es) snapshot)).book
            ≡ replay C (apply C (book_of C snapshot) e) es)
  unfolding run start_buffering
  run-recovers max_buffer s snapshot e es room bridge chain newer =
      let same =
        run-feed_all max_buffer s.book [] (e ∷ es) snapshot (omega (arith, room))
        ∙ restored s.book snapshot e es bridge chain newer in
      (
        ap (λ (t : Synchronizer Decimal). t.state) same,
        ap (λ (t : Synchronizer Decimal). t.book) same,
      )
