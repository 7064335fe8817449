-- ===== src/Record/Load/Swaps.antt =====
-- internal/fetch/record/event.go: the readers of swaps.
pub mod Printed
use midgard.Base.{◌||◌, none, some, List, if◌then◌else◌}
use midgard.Base.Bytes.{str, split_all}
use midgard.Base.Int.{pos}
use midgard.Record.Blocks.{Attribute}
use midgard.Record.Events.{Swap}
use midgard.Record.Notices.Transfers.{StreamingSwapDetails}
use midgard.Record.Load.Reader.{
  Settings, Load, ◌>>=◌, ok, fail, unknown, is, set, each, to_lower_bytes, is_nil,
}
use midgard.Record.Load.Texts.{number, parse_array_int, coin}

abbrev pub lower_addresses : Settings → Swap → Swap
lower_addresses cfg e =
    if cfg.case_insensitive_chains (str e.chain)
    then record e { from_addr = to_lower_bytes e.from_addr; to_addr = to_lower_bytes e.to_addr }
    else e

abbrev pub finish_swap : Settings → Swap → Load Swap
finish_swap cfg e =
    if is_nil e.tx then fail "swap transaction with malformed id" else ok (lower_addresses cfg e)

unfoldable pub swap_attribute : Attribute → Swap → Load Swap
swap_attribute a e =
    if is a "id"
    then ok (record e { tx = some a.value })
    else if is a "chain"
    then ok (record e { chain = some a.value })
    else if is a "from"
    then ok (record e { from_addr = some a.value })
    else if is a "to"
    then ok (record e { to_addr = some a.value })
    else if is a "coin"
    then set (coin "malformed coins" a.value) (λ c. record e { from_asset = c.0; from_e8 = c.1 })
    else if is a "emit_asset"
    then set (coin "malformed emit_asset" a.value) (λ c. record e { to_asset = c.0; to_e8 = c.1 })
    else if is a "memo"
    then ok (record e { memo = some a.value })
    else if is a "pool"
    then ok (record e { pool = some a.value })
    else if is a "price_target" || is a "swap_target"
    then set (number "malformed price_target" a.value) (λ v. record e { to_e8_min = v })
    else if is a "trade_slip" || is a "swap_slip"
    then set (number "malformed swap_slip" a.value) (λ v. record e { swap_slip_bp = v })
    else if is a "liquidity_fee"
    then set (number "malformed liquidity_fee" a.value) (λ v. record e { liq_fee_e8 = v })
    else if is a "liquidity_fee_in_rune"
    then set (number "malformed liquidity_fee_in_rune" a.value)
        (λ v. record e { liq_fee_in_rune_e8 = v })
    else if is a "streaming_swap_count"
    then set (number "malformed streaming_swap_count" a.value)
        (λ v. record e { streaming_count = v })
    else if is a "streaming_swap_quantity"
    then set (number "malformed streaming_swap_quantity" a.value)
        (λ v. record e { streaming_quantity = v })
    else if is a "pool_slip"
    then ok e
    else unknown "unknown swap event attribute" e

unfoldable pub load_swap : Settings → List Attribute → Load Swap
load_swap cfg attrs =
    each swap_attribute attrs (record {
      tx = none;
      chain = none;
      from_addr = none;
      to_addr = none;
      from_asset = none;
      from_e8 = pos 0;
      to_asset = none;
      to_e8 = pos 0;
      memo = none;
      pool = none;
      to_e8_min = pos 0;
      swap_slip_bp = pos 0;
      liq_fee_e8 = pos 0;
      liq_fee_in_rune_e8 = pos 0;
      streaming_quantity = pos 0;
      streaming_count = pos 0;
    })
    >>= finish_swap cfg

unfoldable pub streaming_swap_details_attribute :
    Attribute → StreamingSwapDetails → Load StreamingSwapDetails
streaming_swap_details_attribute a e =
    if is a "tx_id"
    then ok (record e { tx_id = some a.value })
    else if is a "last_height"
    then set (number "malformed last height value" a.value) (λ v. record e { last_height = v })
    else if is a "count"
    then set (number "malformed count value" a.value) (λ v. record e { count = v })
    else if is a "quantity"
    then set (number "malformed quantity value" a.value) (λ v. record e { quantity = v })
    else if is a "interval"
    then set (number "malformed interval value" a.value) (λ v. record e { interval = v })
    else if is a "in"
    then set (coin "malformed in value" a.value) (λ c. record e { in_asset = c.0; in_e8 = c.1 })
    else if is a "out"
    then set (coin "malformed out value" a.value) (λ c. record e { out_asset = c.0; out_e8 = c.1 })
    else if is a "deposit"
    then set (coin "malformed deposit value" a.value)
        (λ c. record e { deposit_asset = c.0; depoit_e8 = c.1 })
    else if is a "failed_swaps"
    then set (parse_array_int "malformed streaming failed swaps" (split_all b',' b' ' a.value))
        (λ v. record e { failed_swaps = some v })
    else if is a "failed_swap_reasons"
    then ok (record e { failed_reasons = some (split_all 10 b' ' a.value) })
    else unknown "unknown streaming_swap event attribute" e

unfoldable pub load_streaming_swap_details : List Attribute → Load StreamingSwapDetails
load_streaming_swap_details attrs = each streaming_swap_details_attribute attrs (record {
  tx_id = none;
  interval = pos 0;
  quantity = pos 0;
  count = pos 0;
  last_height = pos 0;
  deposit_asset = none;
  depoit_e8 = pos 0;
  in_asset = none;
  in_e8 = pos 0;
  out_asset = none;
  out_e8 = pos 0;
  failed_swaps = none;
  failed_reasons = none;
})
