-- ===== src/Sync/Stored/Restored.antt =====
-- internal/fetch/sync/blockstore/storedblock.go: what is left of a block's results when they have
-- been stored and read back.
use Prim.Native.String.{String}
use midgard.Base.{◌≡◌, refl, ap, Bool-cases, inl, inr, List, [], ◌∷◌, ◌++◌, map, if◌then◌else◌}
use midgard.Base.Bytes.{Bytes, codes, same}
use midgard.Record.Blocks.{Attribute, AbciEvent}
use midgard.Record.Load.Reader.{is}
use midgard.Sync.Stored.{
  BlockResults, stored_attribute, comet_to_tendermint_event, get_event_mode, with_events,
  named_attributes, mode_attribute, tendermint_to_comet_event,
}

-- The specification: every attribute "mode" is gone, and of the events of the block those whose
-- first mode is BeginBlock come first, then those with EndBlock, each with its mode behind.
abbrev pub without_mode : List Attribute → List Attribute
without_mode [] = []
without_mode (a ∷ rest) = if is a "mode" then without_mode rest else a ∷ without_mode rest

abbrev pub settled : Bytes → AbciEvent → AbciEvent
settled mode e = record {
  type_name = e.type_name;
  attributes = without_mode e.attributes ++ mode_attribute mode;
}

abbrev pub settled_events : String → List AbciEvent → List AbciEvent
settled_events mode [] = []
settled_events mode (e ∷ events) =
    if same (get_event_mode e.attributes) (codes mode)
    then settled (codes mode) e ∷ settled_events mode events
    else settled_events mode events

abbrev pub restored : BlockResults → BlockResults
restored r = record {
  height = r.height;
  txs_results = map (with_events (settled [])) r.txs_results;
  finalize_block_events =
      settled_events "BeginBlock" r.finalize_block_events
      ++ settled_events "EndBlock" r.finalize_block_events;
}

named_attributes-stored :
    (attrs : List Attribute) → named_attributes (map stored_attribute attrs) ≡ without_mode attrs
unfolding named_attributes stored_attribute
named_attributes-stored [] = refl
named_attributes-stored (a ∷ rest) = elim (Bool-cases (is a "mode")) [
  | inl mode ↦ rw mode (named_attributes-stored rest)
  | inr other ↦ rw other (ap (◌∷◌ a) (named_attributes-stored rest))
]

pub event_back :
    (mode : Bytes) (e : AbciEvent)
    → tendermint_to_comet_event mode (comet_to_tendermint_event e) ≡ settled mode e
unfolding tendermint_to_comet_event comet_to_tendermint_event
event_back mode e =
    ap (λ attrs. record { type_name = e.type_name; attributes = attrs ++ mode_attribute mode })
      (named_attributes-stored e.attributes)
