-- ===== src/Record/Notices/Outbounds.antt =====
-- internal/fetch/record: the events of coins that move in and out of the vaults, which become one
-- row each.
use midgard.Base.{true, Option, List, [], ◌∷◌, if◌then◌else◌}
use midgard.Base.Bytes.{Bytes, Slice, str, codes, same}
use midgard.Base.Int.{ℤ}
use midgard.Util.Memo.{tx_type_from_memo}
use midgard.Record.Monad.{
  Value, null, text, int, bool, tx_type, texts, ints, slice, or_empty, Metadata, Env, Action, ⊤,
  insert_or_log,
}

pub record AsgardFundYggdrasil : Type 0 where
  pub tx : Slice
  pub asset : Slice
  pub asset_e8 : ℤ
  pub vault_key : Slice

pub record Bond : Type 0 where
  pub tx : Slice
  pub chain : Slice
  pub from_addr : Slice
  pub to_addr : Slice
  pub asset : Slice
  pub asset_e8 : ℤ
  pub memo : Slice
  pub bond_addr : Slice
  pub node_addr : Slice
  pub signer_addr : Slice
  pub bond_type : Bytes
  pub e8 : ℤ

pub record Outbound : Type 0 where
  pub tx : Slice
  pub chain : Slice
  pub from_addr : Slice
  pub to_addr : Slice
  pub asset : Slice
  pub asset_e8 : ℤ
  pub memo : Slice
  pub in_tx : Slice

pub record ScheduledOutbound : Type 0 where
  pub chain : Slice
  pub to_addr : Slice
  pub asset : Slice
  pub asset_e8 : ℤ
  pub asset_decimals : ℤ
  pub memo : Slice
  pub in_hash : Slice
  pub out_hash : Slice
  pub max_gas : Option (List ℤ)
  pub max_gas_asset : Option (List Bytes)
  pub max_gas_decimal : Option (List ℤ)
  pub gas_rate : ℤ
  pub module_name : Slice
  pub vault_pub_key : Slice

pub record Refund : Type 0 where
  pub tx : Slice
  pub chain : Slice
  pub from_addr : Slice
  pub to_addr : Slice
  pub asset : Slice
  pub asset_e8 : ℤ
  pub asset_2nd : Slice
  pub asset_2nd_e8 : ℤ
  pub memo : Slice
  pub code : ℤ
  pub reason : Slice

pub record Reserve : Type 0 where
  pub tx : Slice
  pub chain : Slice
  pub from_addr : Slice
  pub to_addr : Slice
  pub asset : Slice
  pub asset_e8 : ℤ
  pub memo : Slice
  pub addr : Slice
  pub e8 : ℤ

-- The column `internal`: true for the memo "noop", and NULL for any other.
abbrev internal_of : Bytes → Value
internal_of memo = if same memo (codes "noop") then bool true else null

module _ {S : Type 0} (env : Env S) where
  unfoldable pub on_asgard_fund_yggdrasil : AsgardFundYggdrasil → Metadata → Action S ⊤
  on_asgard_fund_yggdrasil e meta =
      insert_or_log env "asgard_fund_yggdrasil_events" meta
        ("tx" ∷ "asset" ∷ "asset_e8" ∷ "vault_key" ∷ [])
        (slice e.tx ∷ slice e.asset ∷ int e.asset_e8 ∷ slice e.vault_key ∷ [])

  unfoldable pub on_bond : Bond → Metadata → Action S ⊤
  on_bond e meta =
      let memo = or_empty e.memo in
      let tx = or_empty e.tx in
      insert_or_log env "bond_events" meta
        ("tx" ∷ "chain" ∷ "from_addr" ∷ "to_addr" ∷ "asset" ∷ "asset_e8" ∷ "memo" ∷ "bond_type"
          ∷ "e8" ∷ "bond_addr" ∷ "node_addr" ∷ "signer_addr" ∷ "_tx_type" ∷ [])
        (slice tx
          ∷ slice e.chain
          ∷ slice e.from_addr
          ∷ slice e.to_addr
          ∷ slice e.asset
          ∷ int e.asset_e8
          ∷ slice memo
          ∷ text e.bond_type
          ∷ int e.e8
          ∷ slice e.bond_addr
          ∷ slice e.node_addr
          ∷ slice e.signer_addr
          ∷ tx_type (tx_type_from_memo (str memo))
          ∷ [])

  unfoldable pub on_outbound : Outbound → Metadata → Action S ⊤
  on_outbound e meta =
      insert_or_log env "outbound_events" meta
        ("tx" ∷ "chain" ∷ "from_addr" ∷ "to_addr" ∷ "asset" ∷ "asset_e8" ∷ "memo" ∷ "in_tx"
          ∷ "internal" ∷ "_tx_type" ∷ [])
        (slice e.tx
          ∷ slice e.chain
          ∷ slice e.from_addr
          ∷ slice e.to_addr
          ∷ slice e.asset
          ∷ int e.asset_e8
          ∷ slice e.memo
          ∷ slice e.in_tx
          ∷ internal_of (str e.memo)
          ∷ tx_type (tx_type_from_memo (str e.memo))
          ∷ [])

  unfoldable pub on_scheduled_outbound : ScheduledOutbound → Metadata → Action S ⊤
  on_scheduled_outbound e meta =
      insert_or_log env "scheduled_outbound_events" meta
        ("chain" ∷ "to_addr" ∷ "asset" ∷ "asset_e8" ∷ "asset_decimals" ∷ "gas_rate" ∷ "memo"
          ∷ "in_hash" ∷ "out_hash" ∷ "max_gas_amount" ∷ "max_gas_decimals" ∷ "max_gas_asset"
          ∷ "module_name" ∷ "vault_pub_key" ∷ [])
        (slice e.chain
          ∷ slice e.to_addr
          ∷ slice e.asset
          ∷ int e.asset_e8
          ∷ int e.asset_decimals
          ∷ int e.gas_rate
          ∷ slice e.memo
          ∷ slice e.in_hash
          ∷ slice e.out_hash
          ∷ ints e.max_gas
          ∷ ints e.max_gas_decimal
          ∷ texts e.max_gas_asset
          ∷ slice e.module_name
          ∷ slice e.vault_pub_key
          ∷ [])

  unfoldable pub on_refund : Refund → Metadata → Action S ⊤
  on_refund e meta =
      let memo = or_empty e.memo in
      insert_or_log env "refund_events" meta
        ("tx" ∷ "chain" ∷ "from_addr" ∷ "to_addr" ∷ "asset" ∷ "asset_e8" ∷ "asset_2nd"
          ∷ "asset_2nd_e8" ∷ "memo" ∷ "code" ∷ "reason" ∷ "_tx_type" ∷ [])
        (slice e.tx
          ∷ slice e.chain
          ∷ slice e.from_addr
          ∷ slice e.to_addr
          ∷ slice e.asset
          ∷ int e.asset_e8
          ∷ slice e.asset_2nd
          ∷ int e.asset_2nd_e8
          ∷ slice memo
          ∷ int e.code
          ∷ slice e.reason
          ∷ tx_type (tx_type_from_memo (str memo))
          ∷ [])

  unfoldable pub on_reserve : Reserve → Metadata → Action S ⊤
  on_reserve e meta =
      let memo = or_empty e.memo in
      insert_or_log env "reserve_events" meta
        ("tx" ∷ "chain" ∷ "from_addr" ∷ "to_addr" ∷ "asset" ∷ "asset_e8" ∷ "memo" ∷ "addr" ∷ "e8"
          ∷ "_tx_type" ∷ [])
        (slice e.tx
          ∷ slice e.chain
          ∷ slice e.from_addr
          ∷ slice e.to_addr
          ∷ slice e.asset
          ∷ int e.asset_e8
          ∷ slice memo
          ∷ slice e.addr
          ∷ int e.e8
          ∷ tx_type (tx_type_from_memo (str memo))
          ∷ [])
