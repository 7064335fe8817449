-- ===== src/Sync/Stored.antt =====
-- internal/fetch/sync/blockstore/storedblock.go: the results of a block are stored in the types of
-- an older library, whose attributes are byte slices and which tells the events of the block's
-- beginning from those of its end. The serialisation between the two conversions (gob) is not
-- modelled.
use Prim.Native.String.{String}
use midgard.Base.{ℕ, Bool, true, false, Option, none, some, List, [], ◌∷◌, ◌++◌, map, if◌then◌else◌}
use midgard.Base.Bytes.{Bytes, Slice, str, codes, same}
use midgard.Base.Int.{ℤ}
use midgard.Record.Blocks.{Attribute, AbciEvent}
use midgard.Record.Load.Reader.{is}
pub mod Restored
pub mod Recorded

-- `abci.ExecTxResult`, and the stored `ResponseDeliverTx`, with the events of either kind.
pub record TxResults (E : Type 0) : Type 0 where
  pub code : ℕ
  pub result_data : Slice
  pub log : Bytes
  pub info : Bytes
  pub gas_wanted : ℤ
  pub gas_used : ℤ
  pub codespace : Bytes
  pub events : List E

pub record BlockResults : Type 0 where
  pub height : ℤ
  pub txs_results : List (TxResults AbciEvent)
  pub finalize_block_events : List AbciEvent

pub record StoredAttribute : Type 0 where
  pub key : Slice
  pub value : Slice

pub record StoredEvent : Type 0 where
  pub type_name : Bytes
  pub attributes : List StoredAttribute

pub record StoredResults : Type 0 where
  pub height : ℤ
  pub txs_results : List (TxResults StoredEvent)
  pub begin_block_events : List StoredEvent
  pub end_block_events : List StoredEvent

-- An attribute "mode" leaves a zero attribute in its place.
unfoldable pub stored_attribute : Attribute → StoredAttribute
stored_attribute a =
    if is a "mode"
    then record { key = none; value = none }
    else record { key = some a.key; value = some a.value }

unfoldable pub comet_to_tendermint_event : AbciEvent → StoredEvent
unfolding stored_attribute
comet_to_tendermint_event e = record {
  type_name = e.type_name;
  attributes = map stored_attribute e.attributes;
}

unfoldable pub get_event_mode : List Attribute → Bytes
get_event_mode [] = []
get_event_mode (a ∷ rest) = if is a "mode" then a.value else get_event_mode rest

unfoldable pub events_with_mode : String → List AbciEvent → List StoredEvent
unfolding comet_to_tendermint_event get_event_mode
events_with_mode mode [] = []
events_with_mode mode (e ∷ events) =
    let rest = events_with_mode mode events in
    if same (get_event_mode e.attributes) (codes mode)
    then comet_to_tendermint_event e ∷ rest
    else rest

-- The fields of a transaction's result are copied, and its events converted.
abbrev pub with_events : {E F : Type 0} → (E → F) → TxResults E → TxResults F
with_events f tx = record {
  code = tx.code;
  result_data = tx.result_data;
  log = tx.log;
  info = tx.info;
  gas_wanted = tx.gas_wanted;
  gas_used = tx.gas_used;
  codespace = tx.codespace;
  events = map f tx.events;
}

unfoldable pub comet_to_tendermint_block_results : BlockResults → StoredResults
unfolding comet_to_tendermint_event events_with_mode
comet_to_tendermint_block_results r = record {
  height = r.height;
  txs_results = map (with_events comet_to_tendermint_event) r.txs_results;
  begin_block_events = events_with_mode "BeginBlock" r.finalize_block_events;
  end_block_events = events_with_mode "EndBlock" r.finalize_block_events;
}

abbrev pub and_attribute : Slice → Slice → List Attribute → List Attribute
and_attribute none value rest = rest
and_attribute (some key) value rest = record { key = key; value = str value } ∷ rest

unfoldable pub named_attributes : List StoredAttribute → List Attribute
named_attributes [] = []
named_attributes (a ∷ rest) = and_attribute a.key a.value (named_attributes rest)

abbrev pub mode_attribute : Bytes → List Attribute
mode_attribute [] = []
mode_attribute (c ∷ cs) = record { key = codes "mode"; value = c ∷ cs } ∷ []

unfoldable pub tendermint_to_comet_event : Bytes → StoredEvent → AbciEvent
unfolding named_attributes
tendermint_to_comet_event mode te = record {
  type_name = te.type_name;
  attributes = named_attributes te.attributes ++ mode_attribute mode;
}

unfoldable pub tendermint_to_comet_block_results : StoredResults → BlockResults
unfolding tendermint_to_comet_event
tendermint_to_comet_block_results s = record {
  height = s.height;
  txs_results = map (with_events (tendermint_to_comet_event [])) s.txs_results;
  finalize_block_events =
      map (tendermint_to_comet_event (codes "BeginBlock")) s.begin_block_events
      ++ map (tendermint_to_comet_event (codes "EndBlock")) s.end_block_events;
}
