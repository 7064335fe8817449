-- ===== src/Tests/Record.antt =====
-- The recorder's events at concrete inputs.
use midgard.Base.{◌≡◌, ◌≢◌, refl, ◌+◌, true, false, none, some, List, [], ◌∷◌, ◌++◌, length, arith}
use midgard.Base.Bytes.{Bytes, bytes_eq, codes, same, contains, has_prefix, to_upper, split2}
use midgard.Base.Int.{pos, negsuc, int_eq}
use midgard.Db.EventId.{txs_results}
use midgard.Db.Rows.{Row}
use midgard.Record.ChainInfo.{new_chain_info}
use midgard.Record.Coin.{get_coin_type, is_switch, is_tcy, parse_asset, split_chain, find_separator}
use midgard.Record.Corrections.{Corrections}
use midgard.Record.Events.{Swap, Withdraw}
use midgard.Record.Monad.{Env, Metadata, Recorder}
use midgard.Record.Postings.{posting, asset, rune, post, depth_of, settle, depth_of-post}
use midgard.Record.Process.{swap, on_event}
use midgard.Record.Process.Depths.{expected_totals, on_event-totals}
use midgard.Record.Swaps.{on_swap}
use midgard.Record.Swaps.Depths.{from_coin, to_coin, is_two_sided, on_swap_rejects, on_swap_lost}
use midgard.Record.Withdrawals.{on_withdraw}
use midgard.Record.Withdrawals.Depths.{withdraw_postings, on_withdraw-post}

abbrev pub list_env : Env (List Row)
list_env = record {
  insert_row = λ row rows. (none, rows ++ row ∷ []);
  withdraw_coin_kept_height = pos 100;
  withdraw_coin_pooled_height = pos 200;
  undelayed_liquidity_fees_height = pos 300;
  on_message_enabled = true;
  on_transfer_enabled = true;
  in_rune = λ e8 r a. e8;
}

-- An inserter that has lost its connection.
abbrev pub failing_env : Env (List Row)
failing_env = record list_env { insert_row = λ row rows. (some (codes "closed"), rows) }

abbrev pub meta_50 : Metadata
meta_50 = record {
  block_height = pos 50;
  block_timestamp = pos 1_650_000_000_000_000_000;
  event_id = record {
    block_height = pos 50;
    location = txs_results;
    tx_index = pos 1;
    event_index = pos 1;
  };
}

abbrev pub btc : Bytes
btc = codes "BTC.BTC"

abbrev pub start : Recorder (List Row)
start = record {
  totals = record {
    asset_e8_depth_per_pool = (btc, pos 1000) ∷ [];
    rune_e8_depth_per_pool = (btc, pos 5000) ∷ [];
    synth_e8_depth_per_pool = [];
  };
  info = new_chain_info;
  store = [];
  logs = [];
}

abbrev swap_of : Bytes → Bytes → Swap
swap_of from to = record {
  tx = some (codes "A1");
  chain = some (codes "BTC");
  from_addr = some (codes "from");
  to_addr = some (codes "to");
  from_asset = some from;
  from_e8 = pos 10;
  to_asset = some to;
  to_e8 = pos 49;
  memo = some [];
  pool = some btc;
  to_e8_min = pos 0;
  swap_slip_bp = pos 1;
  liq_fee_e8 = pos 1;
  liq_fee_in_rune_e8 = pos 1;
  streaming_quantity = pos 1;
  streaming_count = pos 1;
}

abbrev pub to_switch : Swap
to_switch = swap_of btc (codes "SWITCHLY.SWITCH")

abbrev pub no_corrections : Corrections
no_corrections = record {
  global_withdraw_correction = none;
  withdraw_corrections = [];
  fee_accept_funcs = [];
}

on_event-totals_example :
    (on_event list_env no_corrections (swap to_switch) meta_50 start).1.totals
    ≡ expected_totals list_env no_corrections (swap to_switch) meta_50 start.totals
on_event-totals_example =
    on_event-totals list_env (λ row rows. refl) no_corrections (swap to_switch) meta_50 start

abbrev to_itself : Swap
to_itself = swap_of btc btc

no_switch : is_two_sided (from_coin to_itself) (to_coin to_itself) ≡ false
unfolding get_coin_type is_switch is_tcy same contains has_prefix to_upper
no_switch = refl

on_swap_rejects_example :
    let s' = (on_swap list_env to_itself meta_50 start).1 in
    (s'.totals ≡ start.totals) × (s'.store ≡ start.store) × (length s'.logs ≡ length start.logs + 1)
on_swap_rejects_example = on_swap_rejects list_env to_itself meta_50 start no_switch

error_ne_none : some (codes "closed") ≢ none
error_ne_none e = ground arith

on_swap_lost_example : (on_swap failing_env to_switch meta_50 start).1.totals ≡ start.totals
on_swap_lost_example =
    on_swap_lost failing_env to_switch meta_50 start (λ row store h. error_ne_none)

abbrev half_out : Withdraw
half_out = record {
  tx = some (codes "B2");
  chain = some (codes "BTC");
  from_addr = some (codes "from");
  to_addr = some (codes "to");
  asset = some (codes "SWITCHLY.SWITCH");
  asset_e8 = pos 1;
  emit_asset_e8 = pos 500;
  emit_rune_e8 = pos 2500;
  memo = some [];
  pool = some btc;
  stake_units = pos 7;
  basis_points = pos 5000;
  asymmetry = 0;
  imp_loss_protection_e8 = pos 3;
}

on_withdraw-post_example :
    (on_withdraw list_env half_out meta_50 start).1.totals
    ≡ post (withdraw_postings list_env half_out meta_50 start.totals) start.totals
on_withdraw-post_example = on_withdraw-post list_env half_out meta_50 start

depth_of-post_example :
    depth_of rune
      (post (posting asset btc (pos 10) ∷ posting rune btc (negsuc 48) ∷ []) start.totals)
      btc
    ≡ settle rune btc
        (posting asset btc (pos 10) ∷ posting rune btc (negsuc 48) ∷ [])
        (depth_of rune start.totals btc)
depth_of-post_example =
    depth_of-post (posting asset btc (pos 10) ∷ posting rune btc (negsuc 48) ∷ []) rune btc
      start.totals ((omega arith, omega arith), ((omega arith, omega arith), tt))

-- A text with no separator is cut behind a character, of however many bytes.
parse_asset_character :
    parse_asset (0xC3 ∷ 0xA9 ∷ codes "XY")
    ≡ record { chain = 0xC3 ∷ 0xA9 ∷ []; ticker = codes "XY"; id = [] }
unfolding parse_asset split_chain find_separator split2
parse_asset_character = refl
