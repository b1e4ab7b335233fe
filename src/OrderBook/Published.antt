-- ===== src/OrderBook/Published.antt =====
-- What the synchronizer publishes (app/market_data/realtime/order_book_sync.py).
use ai_trading_advisor.Prelude.{
  ℕ, ◌≡◌, refl, true, List, [], ◌∷◌, keep, leb, length, Bool-cases, inl, inr,
}
use ai_trading_advisor.Decimal.Context.{DecimalContext, OrderLaws}
use ai_trading_advisor.OrderBook.Levels.{is_ordered, descending, is_uncrossed}
use ai_trading_advisor.OrderBook.LastWrite.{sorted_levels-is_ordered}
use ai_trading_advisor.OrderBook.Synchronizer.{
  SyncState, OrderBookDeltaEvent, OrderBookSnapshot, Synchronizer, Reply, continues, apply,
  snapshot_of, materialize, drop_oldest, buffer_delta, on_delta_in, on_delta, from_bridge, book_of,
  drain, synchronize, apply_snapshot, Call, step,
}

module _ (C : DecimalContext) (laws : OrderLaws C) where
  open C use {Decimal}

  -- A published snapshot is that of the synchronized book: the bids fall, the asks rise, and the best
  -- bid is at most the best ask.
  abbrev pub IsPublishable : Synchronizer Decimal → OrderBookSnapshot Decimal → Type 0
  IsPublishable s p =
      (s.state ≡ SyncState.synced)
      × (p ≡ snapshot_of C s.book)
      × (is_ordered C (descending C) p.bids ≡ true)
      × (is_ordered C C.le p.asks ≡ true)
      × (is_uncrossed C p.bids p.asks ≡ true)

  -- A reply that publishes, publishes what is to be.
  abbrev pub IsHonest : Synchronizer Decimal → Reply Decimal → Type 0
  IsHonest s (Reply.publishes p) = IsPublishable s p
  IsHonest s _ = Unit

  materialize-IsHonest :
      (s : Synchronizer Decimal) → s.state ≡ SyncState.synced → IsHonest s (materialize C s.book)
  unfolding materialize
  materialize-IsHonest s e =
      elim (Bool-cases (is_uncrossed C (snapshot_of C s.book).bids (snapshot_of C s.book).asks)) [
        | inl u ↦ rw u (
          e,
          refl,
          sorted_levels-is_ordered C laws (descending C) (λ a b. laws.le_total b a) s.book.bids,
          sorted_levels-is_ordered C laws C.le laws.le_total s.book.asks,
          u,
        )
        | inr u ↦ rw u tt
      ]

  drop_oldest-IsHonest :
      (s : Synchronizer Decimal) (buffer : List (OrderBookDeltaEvent Decimal))
      (d : OrderBookDeltaEvent Decimal)
      → IsHonest (drop_oldest C s buffer d).0 (drop_oldest C s buffer d).1
  drop_oldest-IsHonest s [] d = tt
  drop_oldest-IsHonest s (x ∷ xs) d = tt

  on_delta-IsHonest :
      (max_buffer : ℕ) (s : Synchronizer Decimal) (d : OrderBookDeltaEvent Decimal)
      (state : SyncState)
      → s.state ≡ state
      → IsHonest (on_delta_in C state max_buffer s d).0 (on_delta_in C state max_buffer s d).1
  unfolding buffer_delta
  on_delta-IsHonest max_buffer s d SyncState.unsynced e = tt
  on_delta-IsHonest max_buffer s d SyncState.resync_required e = tt
  on_delta-IsHonest max_buffer s d SyncState.buffering e =
      elim (Bool-cases (leb max_buffer (length s.buffer))) [
        | inl k ↦ rw k (drop_oldest-IsHonest s s.buffer d)
        | inr k ↦ rw k tt
      ]
  on_delta-IsHonest max_buffer s d SyncState.synced e =
      elim (Bool-cases (continues d.previous_final_update_id s.book.last_update_id)) [
        | inl k ↦ rw k (materialize-IsHonest (record s { book = apply C s.book d }) e)
        | inr k ↦ rw k tt
      ]

  drain-IsHonest :
      (s : Synchronizer Decimal) (es : List (OrderBookDeltaEvent Decimal))
      → s.state ≡ SyncState.synced
      → IsHonest (drain C s es).0 (drain C s es).1
  drain-IsHonest s [] h = materialize-IsHonest s h
  drain-IsHonest s (e ∷ es) h =
      elim (Bool-cases (continues e.previous_final_update_id s.book.last_update_id)) [
        | inl k ↦ rw k (drain-IsHonest (record s { book = apply C s.book e }) es h)
        | inr k ↦ rw k tt
      ]

  synchronize-IsHonest :
      (s : Synchronizer Decimal) (snapshot : OrderBookSnapshot Decimal)
      (es : List (OrderBookDeltaEvent Decimal))
      → IsHonest (synchronize C s snapshot es).0 (synchronize C s snapshot es).1
  synchronize-IsHonest s snapshot [] = tt
  synchronize-IsHonest s snapshot (e ∷ es) =
      drain-IsHonest
        (record { state = SyncState.synced; buffer = []; book = apply C (book_of C snapshot) e }) es
        refl

  -- A snapshot that any call publishes is that of the book in the new state, which is `SYNCED`; its
  -- bids fall, its asks rise, and its best bid is at most its best ask.
  pub step-IsHonest :
      (max_buffer : ℕ) (s : Synchronizer Decimal) (c : Call C)
      → IsHonest (step C max_buffer s c).0 (step C max_buffer s c).1
  unfolding on_delta apply_snapshot
  step-IsHonest max_buffer s Call.starts = tt
  step-IsHonest max_buffer s (Call.feeds d) = on_delta-IsHonest max_buffer s d s.state refl
  step-IsHonest max_buffer s (Call.restores snapshot) =
      synchronize-IsHonest s snapshot (
        from_bridge C snapshot (keep (λ e. leb snapshot.last_update_id e.final_update_id) s.buffer))
