-- ===== src/Timeseries/Commit/Progress.antt =====
-- A block that is to be committed becomes visible when nothing fails.
use midgard.Base.{◌≡◌, refl, Bool, true, false, Option, none, some, if◌then◌else◌, arith}
use midgard.Base.Bytes.{Bytes}
use midgard.Db.Rows.{Row}
use midgard.Record.Monad.{Recorder}
use midgard.Timeseries.Commit.{
  RowInserter, BlockInfo, State, Chain, Outcome, returned, fatal, unless_error, fatal_if, track_of,
  is_first, with_inserter, set_last_block, checked, flush_block, finish, record_depths, log_block,
  process_block, block_log_row, set_and_check_first_block,
}
use midgard.Timeseries.DepthRecorder.{update}
use midgard.Timeseries.Latest.{set_latest_states}

-- No method of the inserter returns an error.
abbrev pub NoErrors : {I : Type 0} → RowInserter I → Type 0
NoErrors {I} ins =
    (i : I)
    → ((ins.start_block i).0 ≡ none)
      × ((ins.end_block i).0 ≡ none)
      × ((ins.flush i).0 ≡ none)
      × ((row : Row) → (ins.settings.insert_row row i).0 ≡ none)

module _ {I : Type 0} (ins : RowInserter I) (c : Chain)
    (record_block : BlockInfo → Recorder I → Recorder I) (block : BlockInfo)
    (sound : NoErrors ins) where
  -- The call has returned without an error, and the state that readers see is that of the block.
  abbrev pub Visible : Outcome (State I) → Type 0
  Visible (returned none s) =
      (s.latest ≡ set_latest_states block.height block.time s.recorder.totals)
      × (s.last_block_track ≡ some (track_of ins c record_block block s))
  Visible (returned (some e) s) = ⊥
  Visible fatal = ⊥

  Visible-unless_error :
      (err : Option Bytes) (s : State I) (rest : Outcome (State I))
      → err ≡ none
      → Visible rest
      → Visible (unless_error err s rest)
  Visible-unless_error (some e) s rest h k = absurd (ground arith)
  Visible-unless_error none s rest h k = k

  Visible-fatal_if :
      (err : Option Bytes) (rest : Outcome (State I))
      → err ≡ none
      → Visible rest
      → Visible (fatal_if err rest)
  Visible-fatal_if (some e) rest h k = absurd (ground arith)
  Visible-fatal_if none rest h k = k

  Visible-later :
      (b : Bool) (x y : Outcome (State I)) → b ≡ false → Visible y → Visible (if b then x else y)
  Visible-later true x y h k = absurd (ground arith)
  Visible-later false x y h k = k

  Visible-flush_block :
      (s : State I)
      → is_first ins c record_block block s ≡ false
      → Visible (flush_block ins c record_block block s)
  Visible-flush_block s later =
      let (err, i) = ins.flush s.recorder.store in
      let s' =
        set_last_block ins c record_block (track_of ins c record_block block s)
          (with_inserter ins c record_block i s) in
      let first =
        checked ins c record_block (set_and_check_first_block c block.height block.time s') in
      let b = is_first ins c record_block block s in
      Visible-fatal_if err (if b then first else returned none s') (sound s.recorder.store).2
        (Visible-later b first (returned none s') later (refl, refl))

  Visible-finish :
      (s : State I)
      → is_first ins c record_block block s ≡ false
      → Visible (finish ins c record_block block true s)
  Visible-finish s later =
      let (err, i) = ins.end_block s.recorder.store in
      let s' = with_inserter ins c record_block i s in
      Visible-unless_error err s' (flush_block ins c record_block block s')
        (sound s.recorder.store).1 (Visible-flush_block s' later)

  Visible-record_depths :
      (s : State I)
      → is_first ins c record_block block s ≡ false
      → Visible (record_depths ins c record_block block true s)
  Visible-record_depths s later =
      let t = s.recorder.totals in
      let names = c.names t s.depth_snapshot in
      let (err, snapshot, i) =
        update ins.settings s.recorder.info names block.time t block.height s.depth_snapshot
          s.recorder.store in
      let with_i = with_inserter ins c record_block i s in
      let s' = record with_i { depth_snapshot = snapshot } in
      Visible-unless_error err s' (finish ins c record_block block true s')
        (unfold update in (sound _).3 _) (Visible-finish s' later)

  Visible-log_block :
      (s : State I)
      → is_first ins c record_block block s ≡ false
      → Visible (log_block ins c record_block block true s)
  Visible-log_block s later =
      let row = block_log_row block (c.encode s.recorder.totals) in
      let (err, i) = ins.settings.insert_row row s.recorder.store in
      let s' = with_inserter ins c record_block i s in
      Visible-unless_error err s' (record_depths ins c record_block block true s')
        ((sound s.recorder.store).3 row) (Visible-record_depths s' later)

  -- A block that is to be committed and is not the first one becomes visible if no method of the
  -- inserter returns an error: the call returns without an error, and the state that readers see
  -- is that of this block, with the depths that the recorder has.
  pub process_block-Visible :
      (s : State I)
      → is_first ins c record_block block s ≡ false
      → Visible (process_block ins c record_block block true s)
  unfolding process_block
  process_block-Visible s later =
      let (err, i) = ins.start_block s.recorder.store in
      let s' = with_inserter ins c record_block i s in
      let recorded = record s' { recorder = record_block block s'.recorder } in
      Visible-unless_error err s' (log_block ins c record_block block true recorded)
        (sound s.recorder.store).0 (Visible-log_block recorded later)
