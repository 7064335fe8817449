-- ===== src/Sync/Store.antt =====
-- internal/fetch/sync/blockstore: reading blocks from the chunks, by height (iterator.go, gobtext.go).
-- What a file holds, and how a line is decoded, are parameters; closing a file does not fail.
use midgard.Base.{
  ℕ, suc, ◌-◌, Bool, Option, none, some, List, [], ◌∷◌, ◌++◌, length, take, replicate,
  if◌then◌else◌,
}
use midgard.Base.Bytes.{Bytes, codes, same}
use midgard.Base.Int.{pos, ltb_ℤ}
use midgard.Util.Numbers.{nat_str}
use midgard.Sync.Chunks.{
  Chunk, new_chunk, ChunkPath, chunk_path, empty_path, end_of_chunks, find_chunk_path_for_height,
}

-- A block of the chain with its height; the rest of it is handed on.
pub record Block (B : Type 0) : Type 0 where
  pub height : ℕ
  pub body : B

-- A block, or nil, or an error.
pub data Fetched (B : Type 0) : Type 0 where
  fetched : Block B → Fetched B
  at_end fetch_error : Fetched B

-- The local folder: its chunks, the lines of a file that can be opened, and the decoding of a line.
pub record Folder (B : Type 0) : Type 0 where
  pub chunks : List Chunk
  pub open_file : Bytes → Option (List Bytes)
  pub decode_line : Bytes → Option (Block B)
  pub last_fetched_height : ℕ

-- "height=%012d,gob="
abbrev pub pad_12 : Bytes → Bytes
pad_12 digits = replicate (12 - length digits) b'0' ++ digits

unfoldable pub gob_line_prefix : ℕ → Bytes
gob_line_prefix height = codes "height=" ++ (pad_12 (nat_str height) ++ codes ",gob=")

-- A line has at least the prefix: in the program a shorter one is out of range.
unfoldable pub gob_line_match_height : Bytes → ℕ → Bool
unfolding gob_line_prefix
gob_line_match_height line height = same (take 24 line) (gob_line_prefix height)

-- The chunk that is open, with the lines that are left of it.
pub record StoreIterator : Type 0 where
  pub current_chunk : Option (Chunk × List Bytes)
  pub next_height : ℕ

module _ {B : Type 0} (folder : Folder B) where
  unfoldable pub store_iterator : ℕ → StoreIterator
  store_iterator start = record { current_chunk = none; next_height = start }

  abbrev pub decoded : Chunk → List Bytes → ℕ → Option (Block B) → Fetched B × StoreIterator
  decoded c rest height none =
      (fetch_error, record { current_chunk = some (c, rest); next_height = height })
  decoded c rest height (some block) =
      (fetched block, record { current_chunk = some (c, rest); next_height = suc height })

  -- The loop over the lines of the chunk.
  unfoldable pub unmarshal_next_block : Chunk → ℕ → List Bytes → Fetched B × StoreIterator
  unmarshal_next_block c height [] =
      (fetch_error, record { current_chunk = some (c, []); next_height = height })
  unmarshal_next_block c height (line ∷ rest) =
      let later = unmarshal_next_block c height rest in
      if gob_line_match_height line height
      then decoded c rest height (folder.decode_line line)
      else later

  abbrev pub not_opened : ℕ → Fetched B → Fetched B × StoreIterator
  not_opened height answer = (answer, record { current_chunk = none; next_height = height })

  abbrev pub read_opened : ℕ → Option Chunk → Option (List Bytes) → Fetched B × StoreIterator
  read_opened height chunk none = not_opened height fetch_error
  read_opened height none (some lines) = not_opened height fetch_error
  read_opened height (some c) (some lines) = unmarshal_next_block c height lines

  -- `openNextChunk`, and the block from it; the empty path cannot be opened.
  abbrev pub open_next_chunk : ℕ → ChunkPath → Fetched B × StoreIterator
  open_next_chunk height (chunk_path name) =
      read_opened height (new_chunk name) (folder.open_file name)
  open_next_chunk height empty_path = not_opened height fetch_error
  open_next_chunk height end_of_chunks = not_opened height at_end

  abbrev pub reopen : ℕ → Fetched B × StoreIterator
  reopen height = open_next_chunk height (find_chunk_path_for_height folder.chunks (pos height))

  abbrev pub store_next_from : ℕ → Option (Chunk × List Bytes) → Fetched B × StoreIterator
  store_next_from height none = reopen height
  store_next_from height (some (c, lines)) =
      if ltb_ℤ c.height (pos height) then reopen height else unmarshal_next_block c height lines

  unfoldable pub store_next : StoreIterator → Fetched B × StoreIterator
  unfolding unmarshal_next_block
  store_next it = store_next_from it.next_height it.current_chunk
