-- ===== src/Record/Dispatch/Filter.antt =====
-- internal/fetch/record/mux.go: the attributes that make no difference.
use midgard.Base.{◌≡◌, ◌⊎◌, inl, inr, arith, refl, true, List, [], ◌∷◌, ◌++◌, ap}
use midgard.Base.Bytes.{Bytes, codes, same_iff}
use midgard.Record.Blocks.{Attribute, AbciEvent}
use midgard.Record.Corrections.{Corrections}
use midgard.Record.Monad.{Metadata, Env, Recorder}
use midgard.Record.Load.Reader.{Settings}
use midgard.Record.Dispatch.{is_dropped, filter_attributes, handle, process_event}
use midgard.Record.Dispatch.Read.{read_event}

abbrev pub event_with : Bytes → List Attribute → AbciEvent
event_with type_name attrs = record { type_name = type_name; attributes = attrs }

-- An attribute of one of two keys, or one with no value.
abbrev pub IsNoise : Attribute → Type 0
IsNoise a = (a.key ≡ codes "mode") ⊎ ((a.key ≡ codes "msg_index") ⊎ (a.value ≡ []))

IsNoise-is_dropped : (a : Attribute) → IsNoise a → is_dropped a ≡ true
IsNoise-is_dropped a (inl mode) = rw ((same_iff a.key (codes "mode")).1 mode) refl
IsNoise-is_dropped a (inr (inl index)) =
    rw ((same_iff a.key (codes "msg_index")).1 index) (ground arith)
IsNoise-is_dropped a (inr (inr empty)) = rw empty (ground arith)

filter_attributes-append :
    (before after : List Attribute) (a : Attribute)
    → is_dropped a ≡ true
    → filter_attributes (before ++ a ∷ after) ≡ filter_attributes (before ++ after)
unfolding filter_attributes
filter_attributes-append [] after a dropped = rw dropped refl
filter_attributes-append (b ∷ before) after a dropped =
    rw (filter_attributes-append before after a dropped) refl

-- An attribute "mode" or "msg_index", or one with an empty value, makes no difference to an event,
-- wherever it stands among the other attributes: what is recorded, logged and returned is the same.
pub process_event-dropped :
    {S : Type 0} (env : Env S) (corrections : Corrections) (cfg : Settings) (type_name : Bytes)
    (before after : List Attribute) (a : Attribute) (meta : Metadata) (s : Recorder S)
    → IsNoise a
    → process_event env corrections cfg (event_with type_name (before ++ a ∷ after)) meta s
      ≡ process_event env corrections cfg (event_with type_name (before ++ after)) meta s
unfolding process_event
process_event-dropped env corrections cfg type_name before after a meta s noise =
    ap (λ attrs. handle env corrections (read_event cfg type_name attrs) meta s)
      (filter_attributes-append before after a (IsNoise-is_dropped a noise))
