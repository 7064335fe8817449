-- ===== src/Db/EventId.antt =====
-- internal/db/eventid.go: the place of an event in the chain, encoded as one int64.
use midgard.Base.{ℕ, ◌*◌, ◌%◌, ◌^◌, ltb, if◌then◌else◌}
use midgard.Base.Int.{ℤ, pos, add64, mul64, div64, mod64, sub64, ltb_ℤ}
pub mod RoundTrip
pub mod Order

-- `EventLocation` is an int in Go, and the program makes no value but its three constants: on
-- another one `AsBigint` panics.
pub data EventLocation : Type 0 where
  begin_block_events txs_results end_block_events : EventLocation

pub record EventId : Type 0 where
  pub block_height : ℤ
  pub location : EventLocation
  pub tx_index : ℤ
  pub event_index : ℤ

abbrev pub block_height_scale : ℕ
block_height_scale = 10_000_000_000

abbrev pub type_digit : ℕ
type_digit = 1_000_000_000

abbrev pub tx_index_scale : ℕ
tx_index_scale = 10_000

abbrev pub end_block_pseudo_tx : ℕ
end_block_pseudo_tx = 999_999

unfoldable pub as_bigint_at : EventLocation → EventId → ℤ
as_bigint_at begin_block_events e =
    add64 (add64 (mul64 e.block_height block_height_scale) (pos 0)) e.event_index
as_bigint_at txs_results e =
    add64
      (add64 (add64 (mul64 e.block_height block_height_scale) (pos type_digit))
        (mul64 e.tx_index tx_index_scale))
      e.event_index
as_bigint_at end_block_events e =
    add64 (add64 (mul64 e.block_height block_height_scale) (pos (9 * type_digit))) e.event_index

abbrev pub as_bigint : EventId → ℤ
as_bigint e = as_bigint_at e.location e

unfoldable pub parse_event_id : ℤ → EventId
parse_event_id eid =
    let height = div64 eid block_height_scale in
    let rest = mod64 eid block_height_scale in
    if ltb_ℤ rest (pos type_digit)
    then record {
      block_height = height;
      location = begin_block_events;
      tx_index = pos 0;
      event_index = mod64 rest type_digit;
    }
    else if ltb_ℤ rest (pos (9 * type_digit))
    then record {
      block_height = height;
      location = txs_results;
      tx_index = div64 (sub64 rest (pos type_digit)) tx_index_scale;
      event_index = mod64 rest tx_index_scale;
    }
    else record {
      block_height = height;
      location = end_block_events;
      tx_index = pos end_block_pseudo_tx;
      event_index = mod64 rest type_digit;
    }

unfoldable pub height_from_event_id : ℤ → ℤ
height_from_event_id eid = div64 eid block_height_scale

-- On uint64, whose product wraps.
unfoldable pub height_to_event_id : ℕ → ℕ
height_to_event_id height = height * block_height_scale % 2 ^ 64
