-- ===== src/Record/Dispatch/Refused.antt =====
-- internal/fetch/record/mux.go: an event that is refused changes nothing but the log.
use midgard.Base.{◌≡◌, refl, true, List, [], ◌∷◌}
use Prim.Native.String.{String}
use midgard.Record.Blocks.{AbciEvent}
use midgard.Record.Corrections.{Corrections}
use midgard.Record.Monad.{Metadata, Env, Recorder}
use midgard.Record.Load.Reader.{Settings, loaded, failed}
use midgard.Record.Dispatch.{log_all, handle, process_event, filter_attributes}
use midgard.Record.Dispatch.Read.{Reading, reading, ignored, unknown_type, read_event}

-- The two recorders have the same totals, chain info and rows.
abbrev pub SameButLogs : {S : Type 0} → Recorder S → Recorder S → Type 0
SameButLogs s s' = (s'.totals ≡ s.totals) × (s'.info ≡ s.info) × (s'.store ≡ s.store)

pub log_all-SameButLogs :
    {S : Type 0} (lines : List String) (s : Recorder S) → SameButLogs s (log_all lines s).1
log_all-SameButLogs [] s = (refl, refl, refl)
log_all-SameButLogs (line ∷ lines) s = log_all-SameButLogs lines _

module _ {S : Type 0} (env : Env S) (corrections : Corrections) where
  handle-SameButLogs :
      (r : Reading) (meta : Metadata) (s : Recorder S)
      → (handle env corrections r meta s).0 ≡ true
      → SameButLogs s (handle env corrections r meta s).1
  unfolding handle
  handle-SameButLogs (reading (loaded e logs)) meta s refused = cc
  handle-SameButLogs (reading (failed err logs)) meta s refused = log_all-SameButLogs logs s
  handle-SameButLogs (ignored logs) meta s refused = cc
  handle-SameButLogs unknown_type meta s refused = (refl, refl, refl)

  -- An event for which an error is returned changes neither the running totals, nor the chain info,
  -- nor the rows, whatever its type and its attributes are.
  pub process_event_refused :
      (cfg : Settings) (event : AbciEvent) (meta : Metadata) (s : Recorder S)
      → (process_event env corrections cfg event meta s).0 ≡ true
      → SameButLogs s (process_event env corrections cfg event meta s).1
  unfolding process_event
  process_event_refused cfg event meta s refused =
      handle-SameButLogs (read_event cfg event.type_name (filter_attributes event.attributes)) meta
        s refused
