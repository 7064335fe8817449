-- ===== src/Record/Genesis/Start.antt =====
-- internal/fetch/record/genesis.go: `LoadGenesis`, which records the genesis when the program starts.
pub mod Commits
use Prim.Native.String.{String}
use midgard.Base.{Bool, true, false, ◌&&◌, not, Option, none, some, if◌then◌else◌}
use midgard.Base.Bytes.{Bytes}
use midgard.Base.Int.{ℤ, pos, sub64, ltb_ℤ, int_beq}
use midgard.Db.EventId.{begin_block_events}
use midgard.Record.Monad.{Metadata, Env, Recorder, Action, ⊤, ◌>>=◌, ◌>>◌, pure, skip}
use midgard.Record.Genesis.State.{GenesisData}
use midgard.Record.Genesis.Records.{
  record_gen_pools, record_gen_supplies, record_gen_transfers, record_gen_lps,
  record_gen_thor_names, record_gen_nodes, record_gen_loans, record_gen_mimirs,
}

-- The block inserter, and the constant "genesis" of the database; `some` is an error.
pub record GenesisStore (S : Type 0) : Type 0 where
  pub start_block : S → Option Bytes × S
  pub end_block : S → Option Bytes × S
  pub flush : S → Option Bytes × S
  pub set_genesis_constant : ℤ → S → Option Bytes × S

-- What the program knows when it starts.
pub record AtStart : Type 0 where
  pub config_has_genesis : Bool
  pub genesis_exists : Bool
  pub genesis_block_height : ℤ
  pub last_committed : ℤ
  pub case_insensitive_chains : Bytes → Bool

-- What becomes of the last committed block; a fatal error ends the program.
pub data Loaded : Type 0 where
  left_alone : Loaded
  committed_at : ℤ → Loaded
  fatal : String → Loaded

abbrev pub genesis_metadata : ℤ → GenesisData → Metadata
genesis_metadata height g = record {
  block_height = height;
  block_timestamp = g.genesis_time;
  event_id = record {
    block_height = height;
    location = begin_block_events;
    tx_index = pos 0;
    event_index = pos 1;
  };
}

module _ {S : Type 0} (env : Env S) where
  -- The records, in their order.
  unfoldable pub record_genesis : (Bytes → Bool) → GenesisData → Metadata → Action S Metadata
  record_genesis case_insensitive g m₀ = do
    m₁ ← record_gen_pools env g.pools m₀
    record_gen_supplies env g.supplies
    m₂ ← record_gen_transfers env g.balances m₁
    m₃ ← record_gen_lps env g.lps m₂
    m₄ ← record_gen_thor_names env case_insensitive g.thor_names m₃
    m₅ ← record_gen_nodes env g.nodes m₄
    m₆ ← record_gen_loans env g.loans m₅
    record_gen_mimirs env g.mimirs m₆

  -- An operation on the store, which is fatal if it returns an error.
  abbrev pub or_fatal :
      String → Option Bytes × S → Recorder S → Action S Loaded → Loaded × Recorder S
  or_fatal line (none, store) s rest = rest (record s { store = store })
  or_fatal line (some err, store) s rest = (fatal line, record s { store = store })

  abbrev pub unless_fatal : String → (S → Option Bytes × S) → Action S Loaded → Action S Loaded
  unless_fatal line op rest s = or_fatal line (op s.store) s rest

  unfoldable pub write_genesis : GenesisStore S → AtStart → GenesisData → Action S Loaded
  unfolding record_genesis
  write_genesis store start g =
      let height = sub64 start.genesis_block_height (pos 1) in
      unless_fatal "Failed to StartBlock" store.start_block (
        record_genesis start.case_insensitive_chains g (genesis_metadata height g) >>= λ m.
        unless_fatal "Failed to Insert into constants"
          (store.set_genesis_constant start.genesis_block_height)
          (unless_fatal "Failed to EndBlock" store.end_block
            (unless_fatal "Failed to Flush" store.flush (pure (committed_at height)))))

  unfoldable pub load_genesis : GenesisStore S → AtStart → GenesisData → Action S Loaded
  unfolding write_genesis
  load_genesis store start g =
      if not start.config_has_genesis
      then pure left_alone
      else if start.genesis_exists
      then (if int_beq start.last_committed (pos 0)
          then pure (committed_at (sub64 start.genesis_block_height (pos 1)))
          else pure left_alone)
      else if ltb_ℤ start.genesis_block_height start.last_committed
      then pure left_alone
      else write_genesis store start g
