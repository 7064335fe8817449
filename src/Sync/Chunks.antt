-- ===== src/Sync/Chunks.antt =====
-- internal/fetch/sync/blockstore: the chunks of the block store (chunk.go), which are files named by
-- the height of their last block, and the search for the chunk of a height (blockstore.go). What
-- the folder holds is an argument: `os.ReadDir` lists it in the order of the names.
use midgard.Base.{
  ℕ, zero, suc, ◌+◌, ◌-◌, ◌/◌, Bool, true, false, ◌&&◌, ◌||◌, Option, none, some, List, [], ◌∷◌,
  length, get_or, ltb, nat_beq, if◌then◌else◌,
}
use midgard.Base.Bytes.{Bytes, codes, same, has_suffix, without_suffix}
use midgard.Base.Int.{ℤ, pos, ltb_ℤ}
use midgard.Util.Numbers.{ParseError, parse_int, is_digit}
pub mod Found

pub record Chunk : Type 0 where
  pub name : Bytes
  pub height : ℤ

-- `NewChunk`; `none` is an error.
abbrev pub chunk_or_error : Bytes → ℤ × Option ParseError → Option Chunk
chunk_or_error name (height, none) = some (record { name = name; height = height })
chunk_or_error name (height, some _) = none

unfoldable pub new_chunk : Bytes → Option Chunk
new_chunk name = chunk_or_error name (parse_int name)

-- The files whose names are not numbers are passed over.
abbrev pub and_chunk : Option Chunk → List Chunk → List Chunk
and_chunk none rest = rest
and_chunk (some c) rest = c ∷ rest

unfoldable pub get_local_chunks : List Bytes → List Chunk
unfolding new_chunk
get_local_chunks [] = []
get_local_chunks (name ∷ names) = and_chunk (new_chunk name) (get_local_chunks names)

-- `^tmp$|^[0-9]{12}\.tmp$`
abbrev pub all_digits : Bytes → Bool
all_digits [] = true
all_digits (c ∷ cs) = is_digit c && all_digits cs

unfoldable pub is_temporary_chunk : Bytes → Bool
is_temporary_chunk name =
    same name (codes "tmp")
    || (has_suffix name (codes ".tmp")
        && nat_beq (length name) 16
        && all_digits (without_suffix name (codes ".tmp")))

-- `cleanUp`: the names that are left in the folder.
unfoldable pub clean_up : List Bytes → List Bytes
unfolding is_temporary_chunk
clean_up [] = []
clean_up (name ∷ names) = if is_temporary_chunk name then clean_up names else name ∷ clean_up names

abbrev pub no_chunk : Chunk
no_chunk = record { name = []; height = pos 0 }

-- `chunks[i].height < h`
abbrev pub is_below : List Chunk → ℤ → ℕ → Bool
is_below chunks h i = ltb_ℤ (get_or chunks i no_chunk).height h

-- `for lo < hi`; `none` means that the fuel ran out.
unfoldable pub search_chunk : ℕ → (ℕ → Bool) → ℕ → ℕ → Option ℕ
search_chunk zero below lo hi = none
search_chunk (suc fuel) below lo hi =
    let mid = lo + (hi - lo) / 2 in
    let right = search_chunk fuel below (mid + 1) hi in
    let left = search_chunk fuel below lo mid in
    if ltb lo hi then (if below mid then right else left) else some lo

-- `findChunkPathForHeight`: the name of a chunk, or the empty path that it returns with no error if
-- there are no chunks, or `io.EOF`.
pub data ChunkPath : Type 0 where
  chunk_path : Bytes → ChunkPath
  empty_path : ChunkPath
  end_of_chunks : ChunkPath

abbrev pub path_at : List Chunk → Option ℕ → ChunkPath
path_at chunks none = empty_path
path_at chunks (some i) = chunk_path (get_or chunks i no_chunk).name

unfoldable pub find_chunk_path_for_height : List Chunk → ℤ → ChunkPath
unfolding search_chunk
find_chunk_path_for_height [] h = empty_path
find_chunk_path_for_height (c ∷ cs) h =
    if is_below (c ∷ cs) h (length cs)
    then end_of_chunks
    else path_at (c ∷ cs) (search_chunk (suc (length cs)) (is_below (c ∷ cs) h) 0 (length cs))
