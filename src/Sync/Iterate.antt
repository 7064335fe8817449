-- ===== src/Sync/Iterate.antt =====
-- internal/fetch/sync/iterator.go: the blocks from a height on, from the block store as long as it
-- has them, and then from the node.
use midgard.Base.{ℕ, suc, ltb, leb, nat_beq, if◌then◌else◌}
use midgard.Sync.Store.{
  Block, Fetched, fetched, at_end, fetch_error, Folder, StoreIterator, store_iterator, store_next,
}
use midgard.Sync.Node.{Node, ChainIterator, chain_iterator, chain_next}

-- The iterator that is read from. `bStoreIt` is nil exactly when it is the chain's.
pub data Source (B : Type 0) : Type 0 where
  from_store : StoreIterator → Source B
  from_chain : ChainIterator B → Source B

pub record Iterator (B : Type 0) : Type 0 where
  pub height : ℕ
  pub final_height : ℕ
  pub source : Source B

module _ {W B R : Type 0} (folder : Folder (B × R)) (node : Node W B R) where
  unfoldable pub new_iterator : ℕ → ℕ → Iterator (B × R)
  new_iterator start final = record {
    height = start;
    final_height = final;
    source =
        if leb start folder.last_fetched_height
        then from_store (store_iterator folder start)
        else from_chain (chain_iterator start final);
  }

  -- A block of another height is an error.
  abbrev pub expected :
      ℕ → ℕ → Block (B × R) → Source (B × R) → W → Fetched (B × R) × Iterator (B × R) × W
  expected height final block source w =
      if nat_beq block.height height
      then (fetched block, record { height = suc height; final_height = final; source = source }, w)
      else (fetch_error, record { height = height; final_height = final; source = source }, w)

  -- The end of the chain before the final height is an error.
  abbrev pub from_chain_answer :
      ℕ → ℕ → Fetched (B × R) × ChainIterator (B × R) × W → Fetched (B × R) × Iterator (B × R) × W
  from_chain_answer height final (fetched block, it, w) =
      expected height final block (from_chain it) w
  from_chain_answer height final (at_end, it, w) =
      (fetch_error, record { height = height; final_height = final; source = from_chain it }, w)
  from_chain_answer height final (fetch_error, it, w) =
      (fetch_error, record { height = height; final_height = final; source = from_chain it }, w)

  abbrev pub next_of_chain :
      ℕ → ℕ → ChainIterator (B × R) → W → Fetched (B × R) × Iterator (B × R) × W
  next_of_chain height final it w = from_chain_answer height final (chain_next node it w)

  -- At the end of the store, or after an error of it, the chain takes over.
  abbrev pub from_store_answer :
      ℕ → ℕ → Fetched (B × R) × StoreIterator → W → Fetched (B × R) × Iterator (B × R) × W
  from_store_answer height final (fetched block, it) w =
      expected height final block (from_store it) w
  from_store_answer height final (at_end, it) w =
      next_of_chain height final (chain_iterator height final) w
  from_store_answer height final (fetch_error, it) w =
      next_of_chain height final (chain_iterator height final) w

  abbrev pub next_from : ℕ → ℕ → Source (B × R) → W → Fetched (B × R) × Iterator (B × R) × W
  next_from height final (from_store it) w = from_store_answer height final (store_next folder it) w
  next_from height final (from_chain it) w = next_of_chain height final it w

  -- `Next`: nil behind the final height.
  unfoldable pub next : Iterator (B × R) → W → Fetched (B × R) × Iterator (B × R) × W
  next it w =
      if ltb it.final_height it.height
      then (at_end, it, w)
      else next_from it.height it.final_height it.source w
