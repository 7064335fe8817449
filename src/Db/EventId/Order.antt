-- ===== src/Db/EventId/Order.antt =====
-- Encoded ids are ordered as the events are in the chain.
use midgard.Base.{ℕ, ◌+◌, ◌<◌, ◌≡◌, ◌⊎◌, true, arith, lt→ltb}
use midgard.Base.Int.{ltb_ℤ}
use midgard.Db.EventId.{EventLocation, begin_block_events, txs_results, end_block_events, as_bigint}
use midgard.Db.EventId.RoundTrip.{Fits, encoded, event_id, as_bigint-encoded}

abbrev rank : EventLocation → ℕ
rank begin_block_events = 0
rank txs_results = 1
rank end_block_events = 2

-- The order of the chain: by height, place in the block, transaction, and event.
abbrev pub Before : EventLocation → ℕ → ℕ → ℕ → EventLocation → ℕ → ℕ → ℕ → Type 0
Before l h t e l' h' t' e' =
    (h < h')
    ⊎ ((h ≡ h') × ((rank l < rank l') ⊎ ((rank l ≡ rank l') × ((t < t') ⊎ ((t ≡ t') × (e < e'))))))

Before-encoded :
    (l l' : EventLocation) (h t e h' t' e' : ℕ)
    → Fits l h t e
    → Fits l' h' t' e'
    → Before l h t e l' h' t' e'
    → encoded l h t e < encoded l' h' t' e'
Before-encoded begin_block_events begin_block_events h t e h' t' e' f f' b = omega arith
Before-encoded begin_block_events txs_results h t e h' t' e' f f' b = omega arith
Before-encoded begin_block_events end_block_events h t e h' t' e' f f' b = omega arith
Before-encoded txs_results begin_block_events h t e h' t' e' f f' b = omega arith
Before-encoded txs_results txs_results h t e h' t' e' f f' b = omega arith
Before-encoded txs_results end_block_events h t e h' t' e' f f' b = omega arith
Before-encoded end_block_events begin_block_events h t e h' t' e' f f' b = omega arith
Before-encoded end_block_events txs_results h t e h' t' e' f f' b = omega arith
Before-encoded end_block_events end_block_events h t e h' t' e' f f' b = omega arith

add_zero : (n : ℕ) → n + 0 ≡ n
add_zero n = omega arith

-- An event that comes earlier in the chain than another has a smaller id, if the numbers of both
-- are within the bounds of the format: so the rows in the order of their ids are in the order of
-- the chain.
pub as_bigint-Before :
    (l l' : EventLocation) (h t e h' t' e' : ℕ)
    → Fits l h t e
    → Fits l' h' t' e'
    → Before l h t e l' h' t' e'
    → ltb_ℤ (as_bigint (event_id l h t e)) (as_bigint (event_id l' h' t' e')) ≡ true
as_bigint-Before l l' h t e h' t' e' f f' b =
    rw (as_bigint-encoded l h t e f, as_bigint-encoded l' h' t' e' f')
      (lt→ltb _ _ (
        rw (add_zero (encoded l h t e), add_zero (encoded l' h' t' e'))
          (Before-encoded l l' h t e h' t' e' f f' b)))
