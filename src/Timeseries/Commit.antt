-- ===== src/Timeseries/Commit.antt =====
-- internal/timeseries/timeseries.go, `ProcessBlock`: a block is recorded, and the state that readers
-- see moves only when the rows have been committed. With `SetAndCheckFirstBlock` of
-- internal/db/globalblocks.go.
use Prim.Native.String.{String}
use midgard.Base.{
  ℕ, Bool, true, false, not, ◌&&◌, ◌||◌, Option, none, some, List, [], ◌∷◌, ◌==◌, if◌then◌else◌,
}
use midgard.Base.Bytes.{Bytes, Slice}
use midgard.Base.Int.{ℤ, pos, leb_ℤ, ltb_ℤ, int_eq}
use midgard.Db.Rows.{Row, Value, int, slice}
use midgard.Record.Monad.{Recorder}
use midgard.Record.Totals.{RunningTotals}
use midgard.Timeseries.DepthRecorder.{Settings, update}
use midgard.Timeseries.Latest.{BlockState, set_latest_states}
pub mod Visible
pub mod Progress

-- `RowInserter`: each method returns an error, or none.
pub record RowInserter (I : Type 0) : Type 0 where
  pub start_block : I → Option Bytes × I
  pub end_block : I → Option Bytes × I
  pub flush : I → Option Bytes × I
  pub settings : Settings I

pub record BlockTrack : Type 0 where
  pub height : ℤ
  pub timestamp : ℤ
  pub hash : Bytes
  pub agg : RunningTotals

-- What a block of the chain has for the database; its events are behind `record_block`.
pub record BlockInfo : Type 0 where
  pub height : ℤ
  pub time : ℤ
  pub hash : Bytes

pub record State (I : Type 0) : Type 0 where
  pub recorder : Recorder I
  pub depth_snapshot : RunningTotals
  pub last_block_track : Option BlockTrack
  pub latest : BlockState
  pub first_height : ℤ
  pub first_timestamp : ℤ

-- The height at which the chain starts, the heights of the genesis (0 if there is none, and the one
-- of the database), whether a genesis file is configured, the encoding of the depths, which may
-- fail, and the order in which the names of pools are visited.
pub record Chain : Type 0 where
  pub start_height : ℤ
  pub initial_block_height : ℤ
  pub db_genesis_height : ℤ
  pub has_genesis : Bool
  pub genesis_height : ℤ
  pub encode : RunningTotals → Slice
  pub names : RunningTotals → RunningTotals → List Bytes

-- The process returns, or ends with `log.Fatal`.
pub data Outcome (A : Type 0) : Type 0 where
  returned : Option Bytes → A → Outcome A
  fatal : Outcome A

-- `if err != nil { return }`, and what follows.
abbrev pub unless_error : {A : Type 0} → Option Bytes → A → Outcome A → Outcome A
unless_error (some e) s rest = returned (some e) s
unless_error none s rest = rest

abbrev pub fatal_if : {A : Type 0} → Option Bytes → Outcome A → Outcome A
fatal_if (some e) rest = fatal
fatal_if none rest = rest

abbrev expected_height : Chain → Option ℤ
expected_height c =
    if ltb_ℤ (pos 0) c.initial_block_height
    then (if c.db_genesis_height == c.initial_block_height
        then some c.initial_block_height
        else none)
    else some c.start_height

abbrev check_first_block : {I : Type 0} → ℤ → ℤ → State I → Option (State I)
check_first_block height timestamp s =
    if s.first_height == pos 0
    then some (record s { first_height = height; first_timestamp = timestamp })
    else if s.first_height == height && s.first_timestamp == timestamp
    then some s
    else none

abbrev pub check_start : {I : Type 0} → Option ℤ → ℤ → ℤ → State I → Option (State I)
check_start none height timestamp s = none
check_start (some start) height timestamp s =
    if start == height then check_first_block height timestamp s else none

-- `none` is a fatal mismatch.
unfoldable pub set_and_check_first_block : {I : Type 0} → Chain → ℤ → ℤ → State I → Option (State I)
set_and_check_first_block c height timestamp s = check_start (expected_height c) height timestamp s

abbrev pub block_log_row : BlockInfo → Slice → Row
block_log_row block agg_state = record {
  table = "block_log";
  columns = "height" ∷ "timestamp" ∷ "hash" ∷ "agg_state" ∷ [];
  values = int block.height ∷ int block.time ∷ slice (some block.hash) ∷ slice agg_state ∷ [];
}

module _ {I : Type 0} (ins : RowInserter I) (c : Chain)
    (record_block : BlockInfo → Recorder I → Recorder I) where
  abbrev pub track_of : BlockInfo → State I → BlockTrack
  track_of block s = record {
    height = block.height;
    timestamp = block.time;
    hash = block.hash;
    agg = s.recorder.totals;
  }

  abbrev pub is_first : BlockInfo → State I → Bool
  is_first block s = s.first_height == pos 0 || leb_ℤ block.height s.first_height

  abbrev pub commits : BlockInfo → Bool → State I → Bool
  commits block commit s =
      commit || is_first block s || (c.has_genesis && c.genesis_height == block.height)

  abbrev pub with_inserter : I → State I → State I
  with_inserter i s = record s { recorder = record s.recorder { store = i } }

  abbrev pub set_last_block : BlockTrack → State I → State I
  set_last_block track s = record s {
    last_block_track = some track;
    latest = set_latest_states track.height track.timestamp track.agg;
  }

  abbrev pub checked : Option (State I) → Outcome (State I)
  checked none = fatal
  checked (some s) = returned none s

  abbrev pub flush_block : BlockInfo → State I → Outcome (State I)
  flush_block block s =
      let (err, i) = ins.flush s.recorder.store in
      let s' = set_last_block (track_of block s) (with_inserter i s) in
      fatal_if err (
        if is_first block s
        then checked (set_and_check_first_block c block.height block.time s')
        else returned none s')

  -- From the end of the block on.
  abbrev pub finish : BlockInfo → Bool → State I → Outcome (State I)
  finish block commit s =
      let (err, i) = ins.end_block s.recorder.store in
      unless_error err (with_inserter i s) (
        if commits block commit s
        then flush_block block (with_inserter i s)
        else returned none (with_inserter i s))

  abbrev pub record_depths : BlockInfo → Bool → State I → Outcome (State I)
  record_depths block commit s =
      let t = s.recorder.totals in
      let (err, snapshot, i) =
        update ins.settings s.recorder.info (c.names t s.depth_snapshot) block.time t block.height
          s.depth_snapshot s.recorder.store in
      let s' = record (with_inserter i s) { depth_snapshot = snapshot } in
      unless_error err s' (finish block commit s')

  abbrev pub log_block : BlockInfo → Bool → State I → Outcome (State I)
  log_block block commit s =
      let agg_state = if commits block commit s then c.encode s.recorder.totals else none in
      let (err, i) = ins.settings.insert_row (block_log_row block agg_state) s.recorder.store in
      unless_error err (with_inserter i s) (record_depths block commit (with_inserter i s))

  unfoldable pub process_block : BlockInfo → Bool → State I → Outcome (State I)
  process_block block commit s =
      let (err, i) = ins.start_block s.recorder.store in
      let s' = with_inserter i s in
      unless_error err s'
        (log_block block commit (record s' { recorder = record_block block s'.recorder }))
