-- ===== src/Sync/Stored/Recorded.antt =====
-- internal/fetch: an event that was stored and read back is recorded as the event of the chain is.
use midgard.Base.{◌≡◌, refl, sym, ap, ◌∙◌, true, List, [], ◌∷◌, ◌++◌, Bool-cases, inl, inr}
use midgard.Base.Bytes.{Bytes, same}
use midgard.Record.Blocks.{Attribute, AbciEvent}
use midgard.Record.Corrections.{Corrections}
use midgard.Record.Monad.{Metadata, Env}
use midgard.Record.Load.Reader.{Settings, is}
use midgard.Record.Dispatch.{filter_attributes, handle, process_event}
use midgard.Record.Dispatch.Read.{read_event}
use midgard.Sync.Stored.{comet_to_tendermint_event, mode_attribute, tendermint_to_comet_event}
use midgard.Sync.Stored.Restored.{without_mode, event_back}

filter_of_mode : (mode : Bytes) → filter_attributes (mode_attribute mode) ≡ filter_attributes []
unfolding filter_attributes same
filter_of_mode [] = refl
filter_of_mode (c ∷ cs) = refl

filter_drops_mode :
    (a : Attribute) (rest : List Attribute)
    → is a "mode" ≡ true
    → filter_attributes (a ∷ rest) ≡ filter_attributes rest
unfolding filter_attributes
filter_drops_mode a rest is_mode = rw is_mode refl

filter_same :
    (a : Attribute) (xs ys : List Attribute)
    → filter_attributes xs ≡ filter_attributes ys
    → filter_attributes (a ∷ xs) ≡ filter_attributes (a ∷ ys)
unfolding filter_attributes
filter_same a xs ys e = rw e refl

filter_attributes-settled :
    (mode : Bytes) (attrs : List Attribute)
    → filter_attributes (without_mode attrs ++ mode_attribute mode) ≡ filter_attributes attrs
filter_attributes-settled mode [] = filter_of_mode mode
filter_attributes-settled mode (a ∷ rest) = elim (Bool-cases (is a "mode")) [
  | inl is_mode ↦
      rw is_mode (filter_attributes-settled mode rest ∙ sym (filter_drops_mode a rest is_mode))
  | inr other ↦ rw other (filter_same a _ rest (filter_attributes-settled mode rest))
]

-- An event of the chain, with whatever mode, that was converted for the block store and back is
-- recorded as the event itself is: the state, the log and the error are the same.
pub process_event-stored :
    {S : Type 0} (env : Env S) (corrections : Corrections) (cfg : Settings) (mode : Bytes)
    (event : AbciEvent) (meta : Metadata)
    → process_event env corrections cfg
        (tendermint_to_comet_event mode (comet_to_tendermint_event event))
        meta
      ≡ process_event env corrections cfg event meta
unfolding process_event
process_event-stored env corrections cfg mode event meta =
    ap (λ e. process_event env corrections cfg e meta) (event_back mode event)
    ∙ ap (λ attrs. handle env corrections (read_event cfg event.type_name attrs) meta)
        (filter_attributes-settled mode event.attributes)
