-- ===== src/Tracking/Sweep.antt =====
-- The update of every tracked recommendation in a cycle (`_advance_all_existing_tracking` of
-- app/orchestration/runtime_cycle.py). The mapping is the list of its items in the order of the trade
-- ids, which are the sorted keys of the loop.
use Prim.Native.String.{String}
use ai_trading_advisor.Prelude.{
  ℕ, Option, none, some, List, [], ◌∷◌, keep, contains, if◌then◌else◌, ◌==◌, negb, ◌>>=◌,
}
use ai_trading_advisor.Decimal.Context.{DecimalContext}
use ai_trading_advisor.Tracking.Groups.{sorted}
use ai_trading_advisor.Tracking.Matching.{HistoryRead}
use ai_trading_advisor.Tracking.Tracker.{Mt5TrackedRecommendation, advance_tracked_recommendation}

-- `claimed.add(id)`
abbrev pub add_claim : ℕ → List ℕ → List ℕ
add_claim id claimed = if contains id claimed then claimed else id ∷ claimed

abbrev pub claim : Option ℕ → List ℕ → List ℕ
claim none claimed = claimed
claim (some id) claimed = add_claim id claimed

-- `claimed - ({own_id} if own_id is not None else set())`
abbrev pub claimed_by_others : Option ℕ → List ℕ → List ℕ
claimed_by_others none claimed = claimed
claimed_by_others (some own) claimed = keep (λ id. negb (id == own)) claimed

module _ (C : DecimalContext) where
  open C use {Decimal}

  -- An item of the mapping.
  abbrev pub Tracked : Type 0
  Tracked = String × Mt5TrackedRecommendation Decimal

  -- The claimed positions before the loop.
  abbrev pub initially_claimed : List Tracked → List ℕ
  initially_claimed [] = []
  initially_claimed (t ∷ ts) = claim t.1.matched_position_id (initially_claimed ts)

  abbrev pub advance_rest : ℕ → HistoryRead Decimal → List ℕ → List Tracked → Option (List Tracked)
  advance_rest as_of history claimed [] = some []
  advance_rest as_of history claimed (t ∷ ts) =
      advance_tracked_recommendation C as_of t.1 history
        (sorted (claimed_by_others t.1.matched_position_id claimed))
      >>= (λ updated.
          advance_rest as_of history (claim updated.matched_position_id claimed) ts
          >>= (λ rest. some ((t.0, updated) ∷ rest)))

  unfoldable pub advance_all_existing_tracking :
      ℕ → HistoryRead Decimal → List Tracked → Option (List Tracked)
  advance_all_existing_tracking as_of history tracked =
      advance_rest as_of history (initially_claimed tracked) tracked

  -- Several cycles, each with its time and its read of the history.
  unfoldable pub run : List (ℕ × HistoryRead Decimal) → List Tracked → Option (List Tracked)
  run [] tracked = some tracked
  run (c ∷ cs) tracked =
      advance_all_existing_tracking c.0 c.1 tracked >>= (λ updated. run cs updated)
