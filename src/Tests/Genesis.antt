-- ===== src/Tests/Genesis.antt =====
-- The recording of a genesis at concrete inputs.
use midgard.Base.{◌≡◌, true, false, none, List, [], ◌∷◌}
use midgard.Base.Bytes.{codes}
use midgard.Base.Int.{pos}
use midgard.Db.Rows.{Row}
use midgard.Record.Postings.{post}
use midgard.Record.Genesis.State.{GenesisData, Loan}
use midgard.Record.Genesis.Depths.{genesis_postings, record_genesis-totals}
use midgard.Record.Genesis.Start.{GenesisStore, AtStart, record_genesis, load_genesis}
use midgard.Record.Genesis.Start.Commits.{Says, load_genesis-Says}
use midgard.Tests.Record.{list_env, failing_env, meta_50, start, btc}

abbrev loan : Loan
loan = record {
  asset = btc;
  owner = codes "thor1owner";
  collateral_deposited = pos 7;
  collateral_withdrawn = pos 2;
  debt_issued = pos 5;
  debt_repaid = pos 0;
  last_open_height = pos 33;
}

abbrev genesis : GenesisData
genesis = record {
  genesis_time = pos 1_700_000_000_000_000_000;
  pools =
      record {
        balance_rune = pos 90;
        balance_asset = pos 4;
        asset = btc;
        status = codes "Available";
      }
      ∷ [];
  supplies = record { amount = pos 3; denom = codes "btc/btc" } ∷ [];
  balances =
      record {
        address = codes "thor1holder";
        coins = record { amount = pos 8; denom = codes "rune" } ∷ [];
      }
      ∷ [];
  lps = [];
  thor_names = [];
  nodes = [];
  loans = loan ∷ [];
  mimirs = record { key = codes "HALT"; value = pos 1 } ∷ [];
}

record_genesis-totals_example :
    (record_genesis failing_env (λ chain. false) genesis meta_50 start).1.totals
    ≡ post (genesis_postings genesis) start.totals
record_genesis-totals_example =
    record_genesis-totals failing_env (λ chain. false) genesis meta_50 start

abbrev store : GenesisStore (List Row)
store = record {
  start_block = λ rows. (none, rows);
  end_block = λ rows. (none, rows);
  flush = λ rows. (none, rows);
  set_genesis_constant = λ height rows. (none, rows);
}

abbrev at_start : AtStart
at_start = record {
  config_has_genesis = true;
  genesis_exists = false;
  genesis_block_height = pos 51;
  last_committed = pos 0;
  case_insensitive_chains = λ chain. false;
}

load_genesis-Says_example :
    Says store at_start genesis start (load_genesis list_env store at_start genesis start)
load_genesis-Says_example = load_genesis-Says list_env store at_start genesis start
