-- ===== src/Record/Load/Liquidity.antt =====
-- internal/fetch/record/event.go: the readers of the events of liquidity that is added.
use midgard.Base.{◌||◌, none, some, List, [], ◌∷◌, ◌++◌, if◌then◌else◌}
use midgard.Base.Bytes.{Bytes, str, codes, same, has_suffix, without_suffix}
use midgard.Base.Int.{pos}
use midgard.Record.Blocks.{Attribute}
use midgard.Record.Events.{AddBase, Stake}
use midgard.Record.Notices.Transfers.{PendingLiquidity}
use midgard.Record.Load.Reader.{
  ◌>>=◌, Settings, Load, ok, fail, unknown, is, set, each, to_lower_bytes, is_nil,
}
use midgard.Record.Load.Texts.{number}

-- `AddBase.parse`: the fields that both events have, and the attributes that are left.
abbrev pub tx_id_suffix : Bytes
tx_id_suffix = codes "_txid"

unfoldable pub base_attribute :
    Attribute → AddBase × List Attribute → Load (AddBase × List Attribute)
base_attribute a (e, remainder) =
    if is a "pool"
    then ok (record e { pool = some a.value }, remainder)
    else if is a "THOR_txid"
    then ok (
      record e { rune_tx = some a.value; rune_chain = some (without_suffix a.key tx_id_suffix) },
      remainder,
    )
    else if is a "rune_address"
    then ok (record e { rune_addr = some a.value }, remainder)
    else if is a "rune_amount"
    then set (number "malformed rune_amount" a.value) (λ v. (record e { rune_e8 = v }, remainder))
    else if is a "asset_amount"
    then set (number "malformed asset_amount" a.value) (λ v. (record e { asset_e8 = v }, remainder))
    else if is a "asset_address"
    then ok (record e { asset_addr = some a.value }, remainder)
    else if is a "memo"
    then ok (record e { memo = some a.value }, remainder)
    else if has_suffix a.key tx_id_suffix
    then (if is_nil e.asset_chain
        then ok (
          record e {
            asset_chain = some (without_suffix a.key tx_id_suffix);
            asset_tx = some a.value;
          },
          remainder,
        )
        else fail "preceded by another txid")
    else ok (e, remainder ++ a ∷ [])

abbrev pub lower_asset_addr : Settings → AddBase → AddBase
lower_asset_addr cfg e =
    if cfg.case_insensitive_chains (str e.asset_chain)
    then record e { asset_addr = to_lower_bytes e.asset_addr }
    else e

unfoldable pub parse_base : Settings → List Attribute → Load (AddBase × List Attribute)
parse_base cfg attrs = do
  (e, remainder) ← each base_attribute attrs (
    record {
      pool = none;
      asset_tx = none;
      asset_chain = none;
      asset_addr = none;
      asset_e8 = pos 0;
      rune_tx = none;
      rune_chain = none;
      rune_addr = none;
      memo = none;
      rune_e8 = pos 0;
    },
    [],
  )
  ok (lower_asset_addr cfg e, remainder)

unfoldable pub pending_liquidity_attribute : Attribute → PendingLiquidity → Load PendingLiquidity
pending_liquidity_attribute a e =
    if is a "type"
    then (if same a.value (codes "add") || same a.value (codes "withdraw")
        then ok (record e { pending_type = some a.value })
        else unknown "unknown pending_liquidity type" e)
    else unknown "unknown pending_liquidity event attribute" e

unfoldable pub load_pending_liquidity : Settings → List Attribute → Load PendingLiquidity
load_pending_liquidity cfg attrs = do
  (base, remainder) ← parse_base cfg attrs
  each pending_liquidity_attribute remainder (record { base = base; pending_type = none })

unfoldable pub stake_attribute : Attribute → Stake → Load Stake
stake_attribute a e =
    if is a "liquidity_provider_units"
    then set (number "malformed liquidity_provider_units" a.value)
        (λ v. record e { stake_units = v })
    else unknown "unknown stake event attribute" e

unfoldable pub load_stake : Settings → List Attribute → Load Stake
load_stake cfg attrs = do
  (base, remainder) ← parse_base cfg attrs
  each stake_attribute remainder (record { base = base; stake_units = pos 0 })
