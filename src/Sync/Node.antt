-- ===== src/Sync/Node.antt =====
-- internal/fetch/sync/chain/chain.go: reading blocks from a node, in batches. The requests are
-- parameters, which change the world outside; what the program checks of the answers is modelled.
use midgard.Base.{
  ℕ, zero, suc, ◌+◌, ◌-◌, ◌*◌, ◌/◌, Bool, true, false, ◌&&◌, ◌||◌, Option, none, some, List, [],
  ◌∷◌, ◌++◌, nat_beq, ltb, if◌then◌else◌,
}
use midgard.Sync.Store.{Block, Fetched, fetched, at_end, fetch_error}
pub mod Batches

-- What the node answers of a block, without its results, and the results of a block.
pub record Info (B : Type 0) : Type 0 where
  pub header_height : ℕ
  pub contents : B

pub record Results (R : Type 0) : Type 0 where
  pub results_height : ℕ
  pub contents : R

-- The requests for n blocks from a height, and for the results of blocks of the given heights.
-- `none` is an error; a block that is missing from the answer is `none` in the list.
pub record Node (W B R : Type 0) : Type 0 where
  pub blocks : ℕ → ℕ → W → Option (List (Option (Info B))) × W
  pub block_results : List ℕ → W → Option (List (Results R)) × W
  pub batch_size : ℕ
  pub parallelism : ℕ

abbrev pub and_info : {B : Type 0} → Info B → Option (List (Info B)) → Option (List (Info B))
and_info i none = none
and_info i (some rest) = some (i ∷ rest)

-- The check of the headers: the infos from a height on, each with its own height.
unfoldable pub checked_infos : {B : Type 0} → ℕ → List (Option (Info B)) → Option (List (Info B))
checked_infos h [] = some []
checked_infos h (none ∷ rest) = none
checked_infos h (some i ∷ rest) =
    if nat_beq i.header_height h then and_info i (checked_infos (suc h) rest) else none

abbrev pub heights_of : {B : Type 0} → List (Info B) → List ℕ
heights_of [] = []
heights_of (i ∷ rest) = i.header_height ∷ heights_of rest

abbrev pub and_block : {B : Type 0} → Block B → Option (List (Block B)) → Option (List (Block B))
and_block b none = none
and_block b (some rest) = some (b ∷ rest)

-- The check of the results: both heights are those that were asked for.
unfoldable pub checked_blocks :
    {B R : Type 0} → ℕ → List (Info B) → List (Results R) → Option (List (Block (B × R)))
checked_blocks h [] results = some []
checked_blocks h (i ∷ infos) [] = none
checked_blocks h (i ∷ infos) (r ∷ results) =
    if nat_beq i.header_height h && nat_beq r.results_height h
    then and_block (record { height = i.header_height; body = (i.contents, r.contents) })
        (checked_blocks (suc h) infos results)
    else none

pub record ChainIterator (B : Type 0) : Type 0 where
  pub next_batch_start : ℕ
  pub final_block_height : ℕ
  pub batch : List (Block B)

abbrev pub chain_iterator : {B : Type 0} → ℕ → ℕ → ChainIterator B
chain_iterator start final = record {
  next_batch_start = start;
  final_block_height = final;
  batch = [];
}

module _ {W B R : Type 0} (node : Node W B R) where
  abbrev pub with_results :
      ℕ → List (Info B) → Option (List (Results R)) × W → Option (List (Block (B × R))) × W
  with_results h infos (none, w) = (none, w)
  with_results h infos (some results, w) = (checked_blocks h infos results, w)

  abbrev pub with_infos : ℕ → Option (List (Info B)) → W → Option (List (Block (B × R))) × W
  with_infos h none w = (none, w)
  with_infos h (some infos) w = with_results h infos (node.block_results (heights_of infos) w)

  abbrev pub with_answer :
      ℕ → Option (List (Option (Info B))) × W → Option (List (Block (B × R))) × W
  with_answer h (none, w) = (none, w)
  with_answer h (some infos, w) = with_infos h (checked_infos h infos) w

  -- `fetchBlock` and `fetchBlocks`: n blocks from a height.
  unfoldable pub fetch_blocks : ℕ → ℕ → W → Option (List (Block (B × R))) × W
  unfolding checked_infos checked_blocks
  fetch_blocks h n w = with_answer h (node.blocks h n w)

  abbrev pub and_part :
      Option (List (Block (B × R)))
      → Option (List (Block (B × R))) × W
      → Option (List (Block (B × R))) × W
  and_part (some part) (some rest, w) = (some (part ++ rest), w)
  and_part (some part) (none, w) = (none, w)
  and_part none (rest, w) = (none, w)

  -- The parts, each of k blocks. All are fetched, at once in the program, whatever becomes of the
  -- others; one error is returned if there was any.
  unfoldable pub fetch_parts : ℕ → ℕ → ℕ → W → Option (List (Block (B × R))) × W
  fetch_parts zero k h w = (some [], w)
  fetch_parts (suc parts) k h w =
      let (part, w') = fetch_blocks h k w in and_part part (fetch_parts parts k (h + k) w')

  unfoldable pub fetch_blocks_parallel : ℕ → ℕ → ℕ → W → Option (List (Block (B × R))) × W
  unfolding fetch_blocks fetch_parts
  fetch_blocks_parallel h n parallelism w =
      if nat_beq n 1 || nat_beq parallelism 1
      then fetch_blocks h n w
      else if nat_beq (n / parallelism * parallelism) n
      then fetch_parts parallelism (n / parallelism) h w
      else (none, w)

  -- The size of the next batch, and in how many parts it is fetched.
  abbrev pub batch_shape : ℕ → ℕ × ℕ
  batch_shape remaining =
      if ltb remaining node.batch_size then (remaining, 1) else (node.batch_size, node.parallelism)

  -- The first block of a batch. A batch that could not be fetched leaves blocks that were filled in
  -- part; the program does not ask the iterator again then. The batch size is positive.
  abbrev pub first_of :
      ℕ → ℕ → Option (List (Block (B × R))) × W → Fetched (B × R) × ChainIterator (B × R) × W
  first_of start final (none, w) = (fetch_error, chain_iterator start final, w)
  first_of start final (some [], w) = (fetch_error, chain_iterator start final, w)
  first_of start final (some (b ∷ rest), w) =
      (fetched b, record { next_batch_start = start; final_block_height = final; batch = rest }, w)

  abbrev pub next_batch : ℕ → ℕ → W → Fetched (B × R) × ChainIterator (B × R) × W
  next_batch start final w =
      if ltb final start
      then (at_end, chain_iterator start final, w)
      else let (size, parts) = batch_shape (final + 1 - start) in
        first_of (start + size) final (fetch_blocks_parallel start size parts w)

  abbrev pub chain_next_from :
      ℕ → ℕ → List (Block (B × R)) → W → Fetched (B × R) × ChainIterator (B × R) × W
  chain_next_from start final [] w = next_batch start final w
  chain_next_from start final (b ∷ rest) w =
      (fetched b, record { next_batch_start = start; final_block_height = final; batch = rest }, w)

  unfoldable pub chain_next :
      ChainIterator (B × R) → W → Fetched (B × R) × ChainIterator (B × R) × W
  unfolding fetch_blocks_parallel
  chain_next it w = chain_next_from it.next_batch_start it.final_block_height it.batch w
