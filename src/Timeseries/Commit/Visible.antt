-- ===== src/Timeseries/Commit/Visible.antt =====
-- What readers see is what has been committed.
use midgard.Base.{
  ◌≡◌, refl, ap, Bool, true, false, ◌&&◌, ◌⊎◌, inl, inr, Option, none, some, if◌then◌else◌, ◌==◌,
}
use midgard.Base.Bytes.{Bytes}
use midgard.Base.Int.{ℤ, pos, int_eq}
use midgard.Record.Monad.{Recorder}
use midgard.Timeseries.Commit.{
  RowInserter, BlockTrack, BlockInfo, State, Chain, Outcome, returned, fatal, unless_error,
  fatal_if, track_of, is_first, commits, with_inserter, set_last_block, checked, flush_block,
  finish, record_depths, log_block, process_block, set_and_check_first_block, expected_height,
  check_first_block, check_start, block_log_row,
}
use midgard.Timeseries.DepthRecorder.{update}
use midgard.Timeseries.Latest.{BlockState, set_latest_states}

module _ {I : Type 0} (ins : RowInserter I) (c : Chain)
    (record_block : BlockInfo → Recorder I → Recorder I) (block : BlockInfo) (seen : BlockState)
    (last : Option BlockTrack) where
  -- The state that readers see is the one before, or that of the block, and then a flush has
  -- returned no error and left the inserter as it is.
  abbrev pub SeenOrFlushed : Option Bytes → State I → Type 0
  SeenOrFlushed err s =
      ((s.latest ≡ seen) × (s.last_block_track ≡ last))
      ⊎ ((err ≡ none)
          × (s.latest ≡ set_latest_states block.height block.time s.recorder.totals)
          × (s.last_block_track ≡ some (track_of ins c record_block block s))
          × ((i : I) × (ins.flush i ≡ (none, s.recorder.store))))

  abbrev pub Safe : Outcome (State I) → Type 0
  Safe (returned err s) = SeenOrFlushed err s
  Safe fatal = Unit

  Safe-unless_error :
      (err : Option Bytes) (s : State I) (rest : Outcome (State I))
      → s.latest ≡ seen
      → s.last_block_track ≡ last
      → (err ≡ none → Safe rest)
      → Safe (unless_error err s rest)
  Safe-unless_error (some e) s rest h k r = inl (h, k)
  Safe-unless_error none s rest h k r = r refl

  Safe-fatal_if :
      (err : Option Bytes) (rest : Outcome (State I))
      → (err ≡ none → Safe rest)
      → Safe (fatal_if err rest)
  Safe-fatal_if (some e) rest r = tt
  Safe-fatal_if none rest r = r refl

  Safe-checked_if :
      (b : Bool) (x y : Option (State I))
      → Safe (checked ins c record_block x)
      → Safe (checked ins c record_block y)
      → Safe (checked ins c record_block (if b then x else y))
  Safe-checked_if true x y h k = h
  Safe-checked_if false x y h k = k

  Safe-if : (b : Bool) (x y : Outcome (State I)) → Safe x → Safe y → Safe (if b then x else y)
  Safe-if true x y h k = h
  Safe-if false x y h k = k

  Safe-check_start :
      (start : Option ℤ) (height time : ℤ) (s : State I)
      → SeenOrFlushed none s
      → Safe (checked ins c record_block (check_start start height time s))
  Safe-check_start none height time s h = tt
  Safe-check_start (some start) height time s h =
      let known = s.first_height == height && s.first_timestamp == time in
      Safe-checked_if (start == height) (check_first_block height time s) none
        (Safe-checked_if (s.first_height == pos 0)
          (some (record s { first_height = height; first_timestamp = time }))
          (if known then some s else none) h (Safe-checked_if known (some s) none h tt))
        tt

  Safe-first_block :
      (s : State I)
      → SeenOrFlushed none s
      → Safe (checked ins c record_block (set_and_check_first_block c block.height block.time s))
  unfolding set_and_check_first_block
  Safe-first_block s h = Safe-check_start (expected_height c) block.height block.time s h

  Safe-flush_block : (s : State I) → Safe (flush_block ins c record_block block s)
  Safe-flush_block s =
      let (err, i) = ins.flush s.recorder.store in
      let s' =
        set_last_block ins c record_block (track_of ins c record_block block s)
          (with_inserter ins c record_block i s) in
      let first =
        checked ins c record_block (set_and_check_first_block c block.height block.time s') in
      let b = is_first ins c record_block block s in
      Safe-fatal_if err (if b then first else returned none s') (λ e.
        let flushed : SeenOrFlushed none s' =
          inr (refl, refl, refl, (s.recorder.store, ap (λ x. (x, i)) e)) in
        Safe-if b first (returned none s') (Safe-first_block s' flushed) flushed)

  module _ (commit : Bool) where
    Safe-finish :
        (s : State I)
        → s.latest ≡ seen
        → s.last_block_track ≡ last
        → Safe (finish ins c record_block block commit s)
    Safe-finish s h k =
        let (err, i) = ins.end_block s.recorder.store in
        let s' = with_inserter ins c record_block i s in
        let b = commits ins c record_block block commit s in
        let flushed = flush_block ins c record_block block s' in
        Safe-unless_error err s' (if b then flushed else returned none s') h k
          (λ e. Safe-if b flushed (returned none s') (Safe-flush_block s') (inl (h, k)))

    Safe-record_depths :
        (s : State I)
        → s.latest ≡ seen
        → s.last_block_track ≡ last
        → Safe (record_depths ins c record_block block commit s)
    Safe-record_depths s h k =
        let t = s.recorder.totals in
        let (err, snapshot, i) =
          update ins.settings s.recorder.info (c.names t s.depth_snapshot) block.time t block.height
            s.depth_snapshot s.recorder.store in
        let with_i = with_inserter ins c record_block i s in
        let s' = record with_i { depth_snapshot = snapshot } in
        Safe-unless_error err s' (finish ins c record_block block commit s') h k
          (λ e. Safe-finish s' h k)

    Safe-log_block :
        (s : State I)
        → s.latest ≡ seen
        → s.last_block_track ≡ last
        → Safe (log_block ins c record_block block commit s)
    Safe-log_block s h k =
        let agg_state =
          if commits ins c record_block block commit s then c.encode s.recorder.totals else none in
        let (err, i) = ins.settings.insert_row (block_log_row block agg_state) s.recorder.store in
        let s' = with_inserter ins c record_block i s in
        Safe-unless_error err s' (record_depths ins c record_block block commit s') h k
          (λ e. Safe-record_depths s' h k)

-- Whatever fails, when a block has been processed the state that readers see, the last block and
-- the depths of its pools, is either the one before, or the state of this block with the depths
-- that the recorder has; and then no error is returned, and the inserter's flush has returned no
-- error and nothing has been inserted after it.
pub process_block-Safe :
    {I : Type 0} (ins : RowInserter I) (c : Chain)
    (record_block : BlockInfo → Recorder I → Recorder I) (block : BlockInfo) (commit : Bool)
    (s : State I)
    → Safe ins c record_block block s.latest s.last_block_track
        (process_block ins c record_block block commit s)
unfolding process_block
process_block-Safe ins c record_block block commit s =
    let (err, i) = ins.start_block s.recorder.store in
    let s' = with_inserter ins c record_block i s in
    let recorded = record s' { recorder = record_block block s'.recorder } in
    Safe-unless_error ins c record_block block s.latest s.last_block_track err s'
      (log_block ins c record_block block commit recorded) refl refl
      (λ e.
        Safe-log_block ins c record_block block s.latest s.last_block_track commit recorded refl
          refl)
