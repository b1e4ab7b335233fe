-- ===== src/OrderBook/Continuity.antt =====
-- What every run of the synchronizer keeps: the bound of the buffer, and that a synchronized book is the
-- replay of a contiguous chain of events from a snapshot that the first one bridges
-- (app/market_data/realtime/order_book_sync.py).
use ai_trading_advisor.Prelude.{
  ℕ, ◌≡◌, ◌≤◌, ◌⊎◌, inl, inr, refl, sym, ◌∙◌, ap, Bool, true, List, [], ◌∷◌, ◌++◌, keep, leb,
  length, length-append, All, arith, Bool-cases,
}
use ai_trading_advisor.Decimal.Context.{DecimalContext}
use ai_trading_advisor.OrderBook.Synchronizer.{
  SyncState, OrderBookDeltaEvent, OrderBookSnapshot, Book, Synchronizer, continues, initial,
  start_buffering, apply, drop_oldest, buffer_delta, on_delta_in, on_delta, bridges, from_bridge,
  book_of, drain, synchronize, apply_snapshot, Call, step, run,
}

module _ (C : DecimalContext) where
  open C use {Decimal}

  abbrev Delta : Type 0
  Delta = OrderBookDeltaEvent Decimal

  -- Each event continues the one before it.
  abbrev pub Chained : ℕ → List Delta → Type 0
  Chained last [] = Unit
  Chained last (e ∷ es) =
      (continues e.previous_final_update_id last ≡ true) × Chained e.final_update_id es

  abbrev pub replay : Book Decimal → List Delta → Book Decimal
  replay b [] = b
  replay b (e ∷ es) = replay (apply C b e) es

  -- The book of a snapshot, an event that bridges it and a chain from there, all of which were given.
  abbrev pub IsReplay :
      (Delta → Type 0) → (OrderBookSnapshot Decimal → Type 0) → Book Decimal → Type 0
  IsReplay P Q b =
      (snapshot : OrderBookSnapshot Decimal) × (e : Delta) × (es : List Delta) × (Q snapshot
        × P e
        × All P es)
      × (bridges C snapshot e ≡ true)
      × Chained e.final_update_id es
      × (b ≡ replay (apply C (book_of C snapshot) e) es)

  append-Chained :
      (b : Book Decimal) (es : List Delta) (d : Delta)
      → Chained b.last_update_id es
      → continues d.previous_final_update_id (replay b es).last_update_id ≡ true
      → Chained b.last_update_id (es ++ (d ∷ []))
  unfolding apply
  append-Chained b [] d h k = (k, tt)
  append-Chained b (e ∷ es) d (c, h) k = (c, append-Chained (apply C b e) es d h k)

  append-replay :
      (b : Book Decimal) (es : List Delta) (d : Delta)
      → replay b (es ++ (d ∷ [])) ≡ apply C (replay b es) d
  append-replay b [] d = refl
  append-replay b (e ∷ es) d = append-replay (apply C b e) es d

module _ (C : DecimalContext) (P : OrderBookDeltaEvent C.Decimal → Type 0)
    (Q : OrderBookSnapshot C.Decimal → Type 0) where
  open C use {Decimal}

  append-All : (es : List (Delta C)) (d : Delta C) → All P es → P d → All P (es ++ (d ∷ []))
  append-All [] d h p = (p, tt)
  append-All (e ∷ es) d (q, h) p = (q, append-All es d h p)

  -- One more event of the chain.
  extend-IsReplay :
      (b : Book Decimal) (d : Delta C)
      → P d
      → continues d.previous_final_update_id b.last_update_id ≡ true
      → IsReplay C P Q b
      → IsReplay C P Q (apply C b d)
  unfolding apply
  extend-IsReplay b d p k (snapshot, e, es, (q, pe, all), bridge, chain, same) =
      let start = apply C (book_of C snapshot) e in
      (
        snapshot,
        e,
        es ++ (d ∷ []),
        (q, pe, append-All es d all p),
        bridge,
        append-Chained C start es d chain (rw same at k),
        ap (λ x. apply C x d) same ∙ sym (append-replay C start es d),
      )

  -- A synchronized book is a replay.
  abbrev pub BookIn : SyncState → Book Decimal → Type 0
  BookIn SyncState.synced b = IsReplay C P Q b
  BookIn _ b = Unit

  IsReplay-BookIn : (state : SyncState) (b : Book Decimal) → IsReplay C P Q b → BookIn state b
  IsReplay-BookIn SyncState.unsynced b h = tt
  IsReplay-BookIn SyncState.buffering b h = tt
  IsReplay-BookIn SyncState.synced b h = h
  IsReplay-BookIn SyncState.resync_required b h = tt

  -- The bound of the buffer, which is empty unless the state is `BUFFERING`, and the synchronized book.
  abbrev pub IsCoherent : ℕ → Synchronizer Decimal → Type 0
  IsCoherent max_buffer s =
      All P s.buffer
      × (length s.buffer ≤ max_buffer)
      × ((s.state ≡ SyncState.buffering) ⊎ (s.buffer ≡ []))
      × BookIn s.state s.book

  drop_oldest-IsCoherent :
      (max_buffer : ℕ) (s : Synchronizer Decimal) (buffer : List (Delta C)) (d : Delta C)
      → P d
      → s.buffer ≡ buffer
      → s.state ≡ SyncState.buffering
      → IsCoherent max_buffer s
      → IsCoherent max_buffer (drop_oldest C s buffer d).0
  drop_oldest-IsCoherent max_buffer s [] d p e b h = h
  drop_oldest-IsCoherent max_buffer s (x ∷ xs) d p e b (all, bound, _, good) =
      let all' : All P (x ∷ xs) = rw e at all in
      let bound' : length (x ∷ xs) ≤ max_buffer = rw e at bound in
      (append-All xs d all'.1 p, omega (arith, bound', length-append xs (d ∷ [])), inl b, good)

  buffer_delta-IsCoherent :
      (max_buffer : ℕ) (s : Synchronizer Decimal) (d : Delta C)
      → P d
      → s.state ≡ SyncState.buffering
      → IsCoherent max_buffer s
      → IsCoherent max_buffer (buffer_delta C max_buffer s d).0
  unfolding buffer_delta
  buffer_delta-IsCoherent max_buffer s d p b h =
      elim (Bool-cases (leb max_buffer (length s.buffer))) [
        | inl e ↦ rw e (drop_oldest-IsCoherent max_buffer s s.buffer d p refl b h)
        | inr e ↦
            let (all, _, _, good) = h in
            rw e (
              append-All s.buffer d all p,
              ground (arith, e, length-append s.buffer (d ∷ [])),
              inl b,
              good,
            )
      ]

  on_delta-IsCoherent :
      (max_buffer : ℕ) (s : Synchronizer Decimal) (d : Delta C) (state : SyncState)
      → s.state ≡ state
      → P d
      → IsCoherent max_buffer s
      → IsCoherent max_buffer (on_delta_in C state max_buffer s d).0
  on_delta-IsCoherent max_buffer s d SyncState.unsynced e p h = h
  on_delta-IsCoherent max_buffer s d SyncState.resync_required e p h = h
  on_delta-IsCoherent max_buffer s d SyncState.buffering e p h =
      buffer_delta-IsCoherent max_buffer s d p e h
  on_delta-IsCoherent max_buffer s d SyncState.synced e p (all, bound, empty, good) =
      elim (Bool-cases (continues d.previous_final_update_id s.book.last_update_id)) [
        | inl k ↦ rw k (
          all,
          bound,
          empty,
          IsReplay-BookIn s.state (apply C s.book d) (extend-IsReplay s.book d p k (rw e at good)),
        )
        | inr k ↦
            let none_left : s.buffer ≡ [] = elim empty [
              | inl x ↦ absurd (ground (arith, e, x))
              | inr y ↦ y
            ] in
            rw k (all, bound, inr none_left, tt)
      ]

  keep-All : (p : Delta C → Bool) (es : List (Delta C)) → All P es → All P (keep p es)
  keep-All p [] h = tt
  keep-All p (e ∷ es) (q, h) = ground (arith, q, keep-All p es h)

  from_bridge-All :
      (snapshot : OrderBookSnapshot Decimal) (es : List (Delta C))
      → All P es
      → All P (from_bridge C snapshot es)
  from_bridge-All snapshot [] h = tt
  from_bridge-All snapshot (e ∷ es) (q, h) = elim (Bool-cases (bridges C snapshot e)) [
    | inl b ↦ rw b (q, h)
    | inr b ↦ rw b (from_bridge-All snapshot es h)
  ]

  -- The first of the events, if there is one, bridges the snapshot.
  abbrev StartsAt : OrderBookSnapshot Decimal → List (Delta C) → Type 0
  StartsAt snapshot [] = Unit
  StartsAt snapshot (e ∷ es) = bridges C snapshot e ≡ true

  from_bridge-StartsAt :
      (snapshot : OrderBookSnapshot Decimal) (es : List (Delta C))
      → StartsAt snapshot (from_bridge C snapshot es)
  from_bridge-StartsAt snapshot [] = tt
  from_bridge-StartsAt snapshot (e ∷ es) = elim (Bool-cases (bridges C snapshot e)) [
    | inl b ↦ rw b b
    | inr b ↦ rw b (from_bridge-StartsAt snapshot es)
  ]

  drain-IsCoherent :
      (max_buffer : ℕ) (s : Synchronizer Decimal) (es : List (Delta C))
      → s.buffer ≡ []
      → All P es
      → IsReplay C P Q s.book
      → IsCoherent max_buffer (drain C s es).0
  drain-IsCoherent max_buffer s [] empty all good =
      (rw empty tt, rw empty (ground arith), inr empty, IsReplay-BookIn s.state s.book good)
  drain-IsCoherent max_buffer s (e ∷ es) empty (p, all) good =
      elim (Bool-cases (continues e.previous_final_update_id s.book.last_update_id)) [
        | inl k ↦ rw k (
            drain-IsCoherent max_buffer (record s { book = apply C s.book e }) es empty all
              (extend-IsReplay s.book e p k good))
        | inr k ↦ rw k (rw empty tt, rw empty (ground arith), inr empty, tt)
      ]

  synchronize-IsCoherent :
      (max_buffer : ℕ) (s : Synchronizer Decimal) (snapshot : OrderBookSnapshot Decimal)
      (es : List (Delta C))
      → Q snapshot
      → All P es
      → StartsAt snapshot es
      → IsCoherent max_buffer (synchronize C s snapshot es).0
  synchronize-IsCoherent max_buffer s snapshot [] q h b = (tt, ground arith, inr refl, tt)
  synchronize-IsCoherent max_buffer s snapshot (e ∷ es) q (p, h) b =
      drain-IsCoherent max_buffer
        (record { state = SyncState.synced; buffer = []; book = apply C (book_of C snapshot) e }) es
        refl h (snapshot, e, [], (q, p, tt), b, tt, refl)

  -- A call that was given what it is to be given.
  abbrev pub IsGiven : Call C → Type 0
  IsGiven Call.starts = Unit
  IsGiven (Call.feeds d) = P d
  IsGiven (Call.restores snapshot) = Q snapshot

  step-IsCoherent :
      (max_buffer : ℕ) (s : Synchronizer Decimal) (c : Call C)
      → IsGiven c
      → IsCoherent max_buffer s
      → IsCoherent max_buffer (step C max_buffer s c).0
  unfolding start_buffering on_delta apply_snapshot
  step-IsCoherent max_buffer s Call.starts g h = (tt, ground arith, inl refl, tt)
  step-IsCoherent max_buffer s (Call.feeds d) g h =
      on_delta-IsCoherent max_buffer s d s.state refl g h
  step-IsCoherent max_buffer s (Call.restores snapshot) g (all, _, _, _) =
      let usable = keep (λ e. leb snapshot.last_update_id e.final_update_id) s.buffer in
      synchronize-IsCoherent max_buffer s snapshot (from_bridge C snapshot usable) g
        (from_bridge-All snapshot usable
          (keep-All (λ e. leb snapshot.last_update_id e.final_update_id) s.buffer all))
        (from_bridge-StartsAt snapshot usable)

  run-from :
      (max_buffer : ℕ) (s : Synchronizer Decimal) (cs : List (Call C))
      → All IsGiven cs
      → IsCoherent max_buffer s
      → IsCoherent max_buffer (run C max_buffer s cs)
  unfolding run
  run-from max_buffer s [] g h = h
  run-from max_buffer s (c ∷ cs) (g, gs) h =
      run-from max_buffer (step C max_buffer s c).0 cs gs (step-IsCoherent max_buffer s c g h)

  -- After any sequence of calls on a fresh synchronizer the buffer is within its bound, and empty
  -- unless the state is `BUFFERING`; and when the state is `SYNCED`, the book is the replay, from a
  -- snapshot, of an event that bridges it and of a chain of events each of which continues the one
  -- before. The snapshot and the events have any property that all given ones have.
  pub run-IsCoherent :
      (max_buffer : ℕ) (cs : List (Call C))
      → All IsGiven cs
      → IsCoherent max_buffer (run C max_buffer (initial C) cs)
  run-IsCoherent max_buffer cs g =
      run-from max_buffer (initial C) cs g (tt, ground arith, inr refl, tt)
