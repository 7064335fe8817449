-- ===== src/Tests/Sync.antt =====
-- The blocks of the store and of the node at concrete inputs.
use midgard.Base.{
  ℕ, zero, suc, ◌+◌, ◌≡◌, refl, Option, none, some, List, [], ◌∷◌, length, get_or, ap, map, ◌≤◌,
  ◌<◌, ltb, arith,
}
use midgard.Base.Bytes.{codes, same}
use midgard.Base.Int.{pos, ◌≤ℤ◌}
use midgard.Record.Blocks.{AbciEvent}
use midgard.Record.Dispatch.{process_event}
use midgard.Record.Load.Swaps.Printed.{attribute}
use midgard.Sync.Chunks.{
  Chunk, no_chunk, is_below, chunk_path, find_chunk_path_for_height, search_chunk,
}
use midgard.Sync.Chunks.Found.{IsFirst, find_chunk_path_for_height-IsFirst}
use midgard.Sync.Stored.{
  BlockResults, comet_to_tendermint_event, tendermint_to_comet_event,
  comet_to_tendermint_block_results, tendermint_to_comet_block_results, events_with_mode,
  get_event_mode,
}
use midgard.Sync.Stored.Recorded.{process_event-stored}
use midgard.Sync.Store.{Folder, Block}
use midgard.Sync.Node.{
  Info, Results, Node, fetch_blocks_parallel, chain_next, fetch_blocks, fetch_parts, checked_infos,
  checked_blocks,
}
use midgard.Sync.Node.Batches.{AreConsecutive, Covers, fetch_blocks_parallel-Covers}
use midgard.Sync.CatchUp.{Outside, catch_up_to, catch_up, catch_up_loop}
use midgard.Sync.Iterate.{next, new_iterator}
use midgard.Sync.CatchUp.Consecutive.{CatchesUp, catch_up_to-CatchesUp}
use midgard.Sync.KeepInSync.{keep_in_sync, start_keeping, rounds, after_round}
use midgard.Sync.KeepInSync.Sent.{keep_in_sync-AreConsecutive}
use midgard.Tests.Record.{list_env, no_corrections, meta_50, start}
use midgard.Tests.Load.{settings}

abbrev chunks : List Chunk
chunks =
    record { name = codes "000000000100"; height = pos 100 }
    ∷ record { name = codes "000000000200"; height = pos 200 }
    ∷ []

chunks_ascend :
    (i j : ℕ)
    → i ≤ j
    → j < length chunks
    → (get_or chunks i no_chunk).height ≤ℤ (get_or chunks j no_chunk).height
chunks_ascend zero zero le lt = omega arith
chunks_ascend zero (suc zero) le lt = omega arith
chunks_ascend zero (suc (suc j)) le lt = absurd (omega arith)
chunks_ascend (suc i) zero le lt = absurd (omega arith)
chunks_ascend (suc zero) (suc zero) le lt = omega arith
chunks_ascend (suc (suc i)) (suc zero) le lt = absurd (omega arith)
chunks_ascend (suc i) (suc (suc j)) le lt = absurd (omega arith)

find_chunk_path_for_height-IsFirst_example :
    (r : ℕ) × (find_chunk_path_for_height chunks (pos 150)
      ≡ chunk_path (get_or chunks r no_chunk).name)
    × (r < length chunks)
    × IsFirst (is_below chunks (pos 150)) r
find_chunk_path_for_height-IsFirst_example =
    find_chunk_path_for_height-IsFirst (record { name = codes "000000000100"; height = pos 100 })
      (record { name = codes "000000000200"; height = pos 200 } ∷ []) (pos 150) chunks_ascend refl

chunk_of_150 : find_chunk_path_for_height chunks (pos 150) ≡ chunk_path (codes "000000000200")
unfolding find_chunk_path_for_height search_chunk
chunk_of_150 = refl

-- The node answers every request with what was asked for.
abbrev infos : ℕ → ℕ → List (Option (Info ℕ))
infos h zero = []
infos h (suc n) = some (record { header_height = h; contents = h }) ∷ infos (suc h) n

abbrev results : List ℕ → List (Results ℕ)
results [] = []
results (h ∷ hs) = record { results_height = h; contents = 7 } ∷ results hs

abbrev node : Node ℕ ℕ ℕ
node = record {
  blocks = λ h n w. (some (infos h n), suc w);
  block_results = λ hs w. (some (results hs), suc w);
  batch_size = 4;
  parallelism = 2;
}

infos-length : (h n : ℕ) → length (infos h n) ≡ n
infos-length h zero = refl
infos-length h (suc n) = ap suc (infos-length (suc h) n)

fetch_blocks_parallel-Covers_example : Covers 5 9 (fetch_blocks_parallel node 5 4 2 0).0
fetch_blocks_parallel-Covers_example =
    fetch_blocks_parallel-Covers node (λ h n w. infos-length h n) 5 4 2 0

abbrev folder : Folder (ℕ × ℕ)
folder = record {
  chunks = [];
  open_file = λ name. none;
  decode_line = λ line. none;
  last_fetched_height = 0;
}

-- The node is at height 6, and the job is cancelled after enough requests.
abbrev outside : Outside ℕ
outside = record { latest_block_height = λ w. (some 6, w); is_cancelled = λ w. (ltb 40 w, w + 3) }

catch_up_to-CatchesUp_example : CatchesUp 4 6 (catch_up_to folder node outside 6 4 0)
catch_up_to-CatchesUp_example = catch_up_to-CatchesUp folder node outside 6 4 0

keep_in_sync-AreConsecutive_example :
    let r = keep_in_sync folder node outside 3 3 0 in AreConsecutive 4 r.sent r.next_height
keep_in_sync-AreConsecutive_example = keep_in_sync-AreConsecutive folder node outside 3 3 0

abbrev fee_event : AbciEvent
fee_event = record {
  type_name = codes "fee";
  attributes = attribute "mode" (codes "EndBlock") ∷ attribute "tx_id" (codes "A1") ∷ [];
}

process_event-stored_example :
    process_event list_env no_corrections settings
      (tendermint_to_comet_event (codes "EndBlock") (comet_to_tendermint_event fee_event))
      meta_50
      start
    ≡ process_event list_env no_corrections settings fee_event meta_50 start
process_event-stored_example =
    ap (λ run. run start)
      (process_event-stored list_env no_corrections settings (codes "EndBlock") fee_event meta_50)

abbrev block_results : BlockResults
block_results = record { height = pos 9; txs_results = []; finalize_block_events = fee_event ∷ [] }

-- Three blocks are sent in the first round, and then it waits for the node.
kept_heights :
    map (λ (b : Block (ℕ × ℕ)). b.height) (keep_in_sync folder node outside 3 3 0).sent
    ≡ 4 ∷ 5 ∷ 6 ∷ []
unfolding keep_in_sync start_keeping rounds catch_up catch_up_to catch_up_loop next new_iterator
    after_round chain_next fetch_blocks_parallel fetch_blocks fetch_parts checked_infos
    checked_blocks
kept_heights = refl

-- The event that has no mode does not come back.
lost_event :
    (tendermint_to_comet_block_results (
      comet_to_tendermint_block_results (record block_results {
        finalize_block_events = record { type_name = codes "fee"; attributes = [] } ∷ [];
      }))).finalize_block_events
    ≡ []
unfolding tendermint_to_comet_block_results comet_to_tendermint_block_results events_with_mode
    get_event_mode same
lost_event = refl
