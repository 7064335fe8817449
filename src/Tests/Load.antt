-- ===== src/Tests/Load.antt =====
-- The reading of events at concrete inputs.
use midgard.Base.{inl, some, ◌++◌, ◌≡◌, refl, true, none, [], ◌∷◌, arith}
use midgard.Base.Bytes.{Bytes, codes, same, split2, split_all, contains}
use midgard.Base.Int.{pos, negsuc}
use midgard.Util.Numbers.{parse_int, uint_loop, int_str}
use midgard.Util.Numbers.RoundTrip.{parse_int-int_str}
use midgard.Util.Text.{utf8_from, base64}
use midgard.Util.Text.Storable.{storable}
use midgard.Record.Blocks.{AbciEvent}
use midgard.Record.Events.{Add}
use midgard.Record.Load.Reader.{Settings, loaded}
use midgard.Record.Load.Texts.{parse_coin, sanitize_bytes, coin}
use midgard.Record.Load.Texts.Coins.{sanitize_bytes-storable}
use midgard.Record.Load.Pools.{coins, load_fee, fee_attribute}
use midgard.Record.Load.Pools.Coins.{read_parts, coins-read_parts}
use midgard.Record.Load.Swaps.{load_swap}
use midgard.Record.Load.Swaps.Printed.{
  folded, attribute, whole_swap, swap_attributes, load_swap-printed,
}
use midgard.Record.Dispatch.{process_event, handle, filter_attributes}
use midgard.Record.Dispatch.Read.{read_event}
use midgard.Record.Dispatch.Refused.{SameButLogs, process_event_refused}
use midgard.Record.Dispatch.Totals.{totals_after, process_event-totals}
use midgard.Record.Dispatch.Filter.{event_with, process_event-dropped}
use midgard.Record.Load.Reader.{each}
use midgard.Db.Rows.{text, int}
use midgard.Db.EventId.{as_bigint}
use midgard.Record.Load.Nodes.{load_active_vault, active_vault_attribute}
use midgard.Record.Notices.Nodes.{on_active_vault}
use midgard.Record.Process.{on_event, on_notice}
use midgard.Record.Monad.{insert_or_log, insert_with_meta}
use midgard.Tests.Record.{list_env, no_corrections, meta_50, start}

abbrev pub settings : Settings
settings = record { case_insensitive_chains = same (codes "ETH"); parse_float = λ text. none }

parse_int-int_str_example : parse_int (int_str (negsuc 1204)) ≡ (negsuc 1204, none)
parse_int-int_str_example = parse_int-int_str (negsuc 1204) (omega arith, omega arith)

parse_minus_1205 : parse_int (codes "-1205") ≡ (negsuc 1204, none)
unfolding parse_int uint_loop
parse_minus_1205 = refl

-- The byte 0xFF is in no valid text.
abbrev bad_text : Bytes
bad_text = b'a' ∷ 255 ∷ []

sanitize_bytes-storable_example :
    (storable (sanitize_bytes bad_text) ≡ true)
    × (storable bad_text ≡ true → sanitize_bytes bad_text ≡ bad_text)
sanitize_bytes-storable_example = sanitize_bytes-storable bad_text

sanitized : sanitize_bytes bad_text ≡ codes "MidgardBadUTF8EncodedBase64: Yf8="
unfolding sanitize_bytes utf8_from base64 contains
sanitized = refl

abbrev no_add : Add
no_add = record {
  tx = none;
  chain = none;
  from_addr = none;
  to_addr = none;
  asset = none;
  asset_e8 = pos 0;
  memo = none;
  rune_e8 = pos 0;
  pool = none;
}

abbrev two_coins : Bytes
two_coins = codes "7 BNB.BNB, 9 SWITCHLY.SWITCH"

coins-read_parts_example :
    coins 40 two_coins no_add ≡ read_parts (split_all b',' b' ' two_coins) no_add
coins-read_parts_example = coins-read_parts 40 two_coins no_add (omega arith)

load_swap-printed_example :
    let attrs =
      swap_attributes
        (codes "A1")
        (codes "ETH")
        (codes "0xAB")
        (codes "0xCD")
        (codes "ETH.ETH")
        (codes "SWITCHLY.SWITCH")
        (codes "=:r")
        (codes "ETH.ETH")
        (pos 5)
        (pos 70)
        (pos 60)
        (pos 12)
        (pos 1)
        (pos 14)
        (pos 1)
        (pos 1) in
    let s =
      whole_swap
        (codes "A1")
        (codes "ETH")
        (codes "0xAB")
        (codes "0xCD")
        (codes "ETH.ETH")
        (codes "SWITCHLY.SWITCH")
        (codes "=:r")
        (codes "ETH.ETH")
        (pos 5)
        (pos 70)
        (pos 60)
        (pos 12)
        (pos 1)
        (pos 14)
        (pos 1)
        (pos 1) in
    load_swap settings attrs
    ≡ loaded
        (record s {
          from_addr = some (folded settings (codes "ETH") (codes "0xAB"));
          to_addr = some (folded settings (codes "ETH") (codes "0xCD"));
        })
        []
load_swap-printed_example =
    load_swap-printed (codes "A1") (codes "ETH") (codes "0xAB") (codes "0xCD") (codes "ETH.ETH")
      (codes "SWITCHLY.SWITCH") (codes "=:r") (codes "ETH.ETH") (pos 5) (pos 70) (pos 60) (pos 12)
      (pos 1) (pos 14) (pos 1) (pos 1) settings (omega arith, omega arith)
      (omega arith, omega arith) (omega arith, omega arith) (omega arith, omega arith)
      (omega arith, omega arith) (omega arith, omega arith) (omega arith, omega arith)
      (omega arith, omega arith)

-- A fee whose coin has no space.
abbrev bad_fee : AbciEvent
bad_fee =
    event_with (codes "fee") (attribute "tx_id" (codes "A1") ∷ attribute "coins" (codes "100") ∷ [])

bad_fee_fails : (process_event list_env no_corrections settings bad_fee meta_50 start).0 ≡ true
unfolding process_event handle filter_attributes read_event load_fee each fee_attribute coin
    parse_coin split2 same
bad_fee_fails = refl

process_event_refused_example :
    SameButLogs start (process_event list_env no_corrections settings bad_fee meta_50 start).1
process_event_refused_example =
    process_event_refused list_env no_corrections settings bad_fee meta_50 start bad_fee_fails

abbrev fee_event : AbciEvent
fee_event = event_with (codes "fee") (
    attribute "tx_id" (codes "A1")
    ∷ attribute "coins" (codes "100 BNB.BNB")
    ∷ attribute "pool_deduct" (codes "30")
    ∷ [])

process_event-totals_example :
    (process_event list_env no_corrections settings fee_event meta_50 start).1.totals
    ≡ totals_after list_env no_corrections
        (read_event settings (codes "fee") (filter_attributes fee_event.attributes))
        meta_50
        start.totals
process_event-totals_example =
    process_event-totals list_env no_corrections (λ row rows. refl) settings fee_event meta_50 start

process_event-dropped_example :
    process_event list_env no_corrections settings
      (event_with
        (codes "fee")
        (attribute "tx_id" (codes "A1") ∷ attribute "mode" (codes "EndBlock") ∷ []))
      meta_50
      start
    ≡ process_event list_env no_corrections settings
        (event_with (codes "fee") (attribute "tx_id" (codes "A1") ∷ []))
        meta_50
        start
process_event-dropped_example =
    process_event-dropped list_env no_corrections settings (codes "fee")
      (attribute "tx_id" (codes "A1") ∷ []) [] (attribute "mode" (codes "EndBlock")) meta_50 start
      (inl refl)

abbrev vault_event : AbciEvent
vault_event = event_with (codes "ActiveVault") (attribute "add new asgard vault" (codes "B2") ∷ [])

-- It is recorded as a row.
vault_row :
    (process_event list_env no_corrections settings vault_event meta_50 start).1.store
    ≡ start.store
      ++ record {
        table = "active_vault_events";
        columns = "add_asgard_addr" ∷ "event_id" ∷ "block_timestamp" ∷ [];
        values =
            text (codes "B2") ∷ int (as_bigint meta_50.event_id) ∷ int meta_50.block_timestamp ∷ [];
      }
        ∷ []
unfolding process_event handle filter_attributes read_event load_active_vault each
    active_vault_attribute same on_event on_notice on_active_vault insert_or_log insert_with_meta
vault_row = refl
