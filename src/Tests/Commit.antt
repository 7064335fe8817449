-- ===== src/Tests/Commit.antt =====
-- The processing of a block with a flush that fails, and with one that does not.
use midgard.Base.{refl, true, false, none, some, List, [], ◌∷◌, ◌++◌, ltb}
use midgard.Base.Bytes.{codes}
use midgard.Base.Int.{pos}
use midgard.Db.Rows.{Row}
use midgard.Record.ChainInfo.{new_chain_info}
use midgard.Record.Monad.{Recorder}
use midgard.Record.Totals.{new_running_totals, add_pool_rune_e8_depth}
use midgard.Timeseries.Commit.{RowInserter, BlockInfo, State, Chain, process_block}
use midgard.Timeseries.Commit.Progress.{Visible, process_block-Visible}
use midgard.Timeseries.Commit.Visible.{Safe, process_block-Safe}

abbrev working : RowInserter (List Row)
working = record {
  start_block = λ rows. (none, rows);
  end_block = λ rows. (none, rows);
  flush = λ rows. (none, []);
  settings = record {
    insert_row = λ row rows. (none, rows ++ row ∷ []);
    root_chain = codes "thorchain";
    usd_pools = [];
    floats = record { less = ltb; midpoint = λ a b. a; ratio = λ a b. 0 };
  };
}

abbrev losing : RowInserter (List Row)
losing = record working { flush = λ rows. (some (codes "closed"), rows) }

abbrev chain : Chain
chain = record {
  start_height = pos 1;
  initial_block_height = pos 0;
  db_genesis_height = pos 0;
  has_genesis = false;
  genesis_height = pos 0;
  encode = λ t. none;
  names = λ new old. codes "BTC" ∷ [];
}

abbrev block_9 : BlockInfo
block_9 = record { height = pos 9; time = pos 900; hash = codes "H9" }

abbrev before : State (List Row)
before = record {
  recorder = record { totals = new_running_totals; info = new_chain_info; store = []; logs = [] };
  depth_snapshot = new_running_totals;
  last_block_track = none;
  latest = record { height = pos 8; timestamp = pos 800; pools = [] };
  first_height = pos 1;
  first_timestamp = pos 100;
}

abbrev adds_rune : BlockInfo → Recorder (List Row) → Recorder (List Row)
adds_rune block r = record r { totals = add_pool_rune_e8_depth (codes "BTC") (pos 7) r.totals }

process_block-Safe_example :
    Safe losing chain adds_rune block_9 before.latest before.last_block_track
      (process_block losing chain adds_rune block_9 true before)
process_block-Safe_example = process_block-Safe losing chain adds_rune block_9 true before

process_block-Visible_example :
    Visible working chain adds_rune block_9
      (λ rows. (refl, refl, refl, λ row. refl))
      (process_block working chain adds_rune block_9 true before)
process_block-Visible_example =
    process_block-Visible working chain adds_rune block_9 (λ rows. (refl, refl, refl, λ row. refl))
      before refl
