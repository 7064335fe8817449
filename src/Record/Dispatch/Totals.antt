-- ===== src/Record/Dispatch/Totals.antt =====
-- internal/fetch/record/mux.go: what an event, as it comes from the chain, does to the depths.
use midgard.Base.{◌≡◌, refl, ◌∙◌, ap}
use midgard.Record.Blocks.{AbciEvent}
use midgard.Record.Corrections.{Corrections}
use midgard.Record.Monad.{Metadata, Env, Recorder, NeverFails}
use midgard.Record.Totals.{RunningTotals}
use midgard.Record.Load.Reader.{Settings, loaded, failed}
use midgard.Record.Process.Depths.{expected_totals, on_event-totals}
use midgard.Record.Dispatch.{handle, process_event, filter_attributes}
use midgard.Record.Dispatch.Read.{Reading, reading, ignored, unknown_type, read_event}
use midgard.Record.Dispatch.Refused.{log_all-SameButLogs}

module _ {S : Type 0} (env : Env S) (corrections : Corrections) where
  -- The specification: what is read posts its amounts, and anything else nothing.
  abbrev pub totals_after : Reading → Metadata → RunningTotals → RunningTotals
  totals_after (reading (loaded e logs)) meta totals = expected_totals env corrections e meta totals
  totals_after (reading (failed err logs)) meta totals = totals
  totals_after (ignored logs) meta totals = totals
  totals_after unknown_type meta totals = totals

module _ {S : Type 0} (env : Env S) (corrections : Corrections) (never : NeverFails env) where
  handle-totals :
      (r : Reading) (meta : Metadata) (s : Recorder S)
      → (handle env corrections r meta s).1.totals ≡ totals_after env corrections r meta s.totals
  unfolding handle
  handle-totals (reading (loaded e logs)) meta s =
      on_event-totals env never corrections e meta _
      ∙ ap (expected_totals env corrections e meta) (log_all-SameButLogs logs s).0
  handle-totals (reading (failed err logs)) meta s = (log_all-SameButLogs logs s).0
  handle-totals (ignored logs) meta s = (log_all-SameButLogs logs s).0
  handle-totals unknown_type meta s = refl

  -- The depths after an event of the chain, if no insertion fails, are those that the ledger gives
  -- for what was read of its attributes: an event that is malformed, left alone or of an unknown
  -- type posts nothing.
  pub process_event-totals :
      (cfg : Settings) (event : AbciEvent) (meta : Metadata) (s : Recorder S)
      → (process_event env corrections cfg event meta s).1.totals
        ≡ totals_after env corrections
            (read_event cfg event.type_name (filter_attributes event.attributes))
            meta
            s.totals
  unfolding process_event
  process_event-totals cfg event meta s =
      handle-totals (read_event cfg event.type_name (filter_attributes event.attributes)) meta s
