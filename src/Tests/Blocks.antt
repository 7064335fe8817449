-- ===== src/Tests/Blocks.antt =====
-- The ids of a small block.
use midgard.Base.{refl, ℕ, ◌+◌, ◌*◌, List, [], ◌∷◌, false, arith, ◌<◌}
use midgard.Base.Bytes.{Bytes, codes, same}
use midgard.Base.Int.{ℤ, pos}
use midgard.Record.Blocks.{AbciEvent, Attribute, Block, process_block}
use midgard.Record.Blocks.Ids.{observer, end_counts, process_block-Between}
use midgard.Record.Blocks.Increasing.{Extends}
use midgard.Record.ChainInfo.{new_chain_info}
use midgard.Record.Monad.{Recorder}
use midgard.Record.Totals.{new_running_totals}

abbrev event_of : List Attribute → AbciEvent
event_of attributes = record { type_name = codes "swap"; attributes = attributes }

abbrev in_mode : Bytes → AbciEvent
in_mode mode = event_of (record { key = codes "mode"; value = mode } ∷ [])

-- Two events at the begin, of which one does not say so, one in a transaction, and one at the end.
abbrev four_events : Block ℕ
four_events = record {
  height = pos 5;
  time = pos 0;
  finalize_block_events =
      in_mode (codes "BeginBlock") ∷ event_of [] ∷ in_mode (codes "EndBlock") ∷ [];
  txs_results = record { tx = 0; events = event_of [] ∷ [] } ∷ [];
}

abbrev nothing_seen : Recorder (List ℤ)
nothing_seen = record { totals = new_running_totals; info = new_chain_info; store = []; logs = [] }

one_at_the_end : end_counts four_events.finalize_block_events < 1_000_000_000
unfolding same
one_at_the_end = omega arith

process_block-Between_example :
    Extends []
      (process_block (observer (λ tx event. (event, false))) four_events nothing_seen).1.store
      (5 * 10_000_000_000)
      (5 * 10_000_000_000 + 9_999_999_999)
process_block-Between_example =
    process_block-Between (λ tx event. (event, false)) four_events 5 refl (omega arith) nothing_seen
      (omega arith) (omega arith) (omega arith, tt) one_at_the_end
