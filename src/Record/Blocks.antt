-- ===== src/Record/Blocks.antt =====
-- internal/fetch/record/mux.go, `ProcessBlock`: the events of a block, in order, each with its id.
use Prim.Native.String.{String}
use midgard.Base.{ℕ, suc, Bool, true, false, not, ◌&&◌, ◌||◌, Option, List, [], ◌∷◌, if◌then◌else◌}
use midgard.Base.Bytes.{Bytes, codes, same}
use midgard.Base.Int.{ℤ, pos}
use midgard.Db.EventId.{EventLocation, begin_block_events, txs_results, end_block_events}
use midgard.Record.Monad.{Metadata, Action, ⊤, ◌>>=◌, ◌>>◌, pure, skip, when, log_event_parse_error}
pub mod Increasing
pub mod Ids

pub record Attribute : Type 0 where
  pub key : Bytes
  pub value : Bytes

pub record AbciEvent : Type 0 where
  pub type_name : Bytes
  pub attributes : List Attribute

-- A transaction as it was decoded, by a package of the chain, and what it resulted in.
pub record Transaction (Tx : Type 0) : Type 0 where
  pub tx : Tx
  pub events : List AbciEvent

pub record Block (Tx : Type 0) : Type 0 where
  pub height : ℤ
  pub time : ℤ
  pub finalize_block_events : List AbciEvent
  pub txs_results : List (Transaction Tx)

abbrev pub has_mode : List Attribute → Bool
has_mode [] = false
has_mode (a ∷ rest) = same a.key (codes "mode") || has_mode rest

abbrev pub has_mode_of : Bytes → Attribute → Bool
has_mode_of mode a = same a.key (codes "mode") && same a.value mode

abbrev pub is_begin_block : List Attribute → Bool
is_begin_block [] = false
is_begin_block (a ∷ rest) = has_mode_of (codes "BeginBlock") a || is_begin_block rest

abbrev pub is_end_block : Attribute → Bool
is_end_block = has_mode_of (codes "EndBlock")

-- The place of an event in its block.
abbrev pub at : {Tx : Type 0} → Block Tx → EventLocation → ℕ → ℕ → Metadata
at block location tx_index event_index = record {
  block_height = block.height;
  block_timestamp = block.time;
  event_id = record {
    block_height = block.height;
    location = location;
    tx_index = pos tx_index;
    event_index = pos event_index;
  };
}

-- `processEvent`, `processTx` and `processParentTx`: true if there was an error.
pub record Handlers (S Tx : Type 0) : Type 0 where
  pub process_event : AbciEvent → Metadata → Action S Bool
  pub process_tx : Transaction Tx → Metadata → Action S Bool
  pub process_parent_tx : Tx → AbciEvent → AbciEvent × Bool
  pub missing_events : Metadata → Action S ⊤

module _ {S Tx : Type 0} (handlers : Handlers S Tx) (block : Block Tx) where
  abbrev pub run : AbciEvent → Metadata → Action S ⊤
  run event meta = do
    failed ← handlers.process_event event meta
    when failed (log_event_parse_error "event skipped")

  -- The index counts the events that are left out too.
  unfoldable pub begin_events : ℕ → List AbciEvent → Action S ⊤
  begin_events i [] = skip
  begin_events i (event ∷ rest) =
      when (is_begin_block event.attributes || not (has_mode event.attributes))
        (run event (at block begin_block_events 0 i))
      >> begin_events (suc i) rest

  abbrev pub run_in_tx : Tx → AbciEvent → Metadata → Action S ⊤
  run_in_tx tx event meta =
      let (updated, failed) = handlers.process_parent_tx tx event in
      when failed (log_event_parse_error "can't process parent") >> run updated meta

  unfoldable pub tx_events : Tx → ℕ → ℕ → List AbciEvent → Action S ⊤
  tx_events tx t i [] = skip
  tx_events tx t i (event ∷ rest) =
      run_in_tx tx event (at block txs_results t i) >> tx_events tx t (suc i) rest

  abbrev pub run_tx : Transaction Tx → Metadata → Action S ⊤
  run_tx tx meta = do
    failed ← handlers.process_tx tx meta
    when failed (log_event_parse_error "tx skipped")

  unfoldable pub transactions : ℕ → List (Transaction Tx) → Action S ⊤
  transactions t [] = skip
  transactions t (tx ∷ rest) =
      run_tx tx (at block txs_results t 1)
      >> tx_events tx.tx t 1 tx.events
      >> transactions (suc t) rest

  -- An event runs once for each of its attributes that says so; the index counts the runs.
  unfoldable pub end_attributes : AbciEvent → ℕ → ℕ → List Attribute → Action S ℕ
  end_attributes event t i [] = pure i
  end_attributes event t i (a ∷ rest) =
      if is_end_block a
      then run event (at block end_block_events t i) >> end_attributes event t (suc i) rest
      else end_attributes event t i rest

  unfoldable pub end_events : ℕ → ℕ → List AbciEvent → Action S ℕ
  end_events t i [] = pure i
  end_events t i (event ∷ rest) =
      end_attributes event t i event.attributes >>= λ j. end_events t j rest

  abbrev pub tx_count : List (Transaction Tx) → ℕ
  tx_count [] = 0
  tx_count (_ ∷ rest) = suc (tx_count rest)

  unfoldable pub process_block : Action S ⊤
  process_block = do
    begin_events 1 block.finalize_block_events
    transactions 1 block.txs_results
    last ← end_events (suc (tx_count block.txs_results)) 1 block.finalize_block_events
    handlers.missing_events (at block end_block_events (suc (tx_count block.txs_results)) last)
