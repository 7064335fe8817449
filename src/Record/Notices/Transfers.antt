-- ===== src/Record/Notices/Transfers.antt =====
-- internal/fetch/record: the events and messages of coins that move outside of the pools, which
-- become one row each.
use midgard.Base.{Bool, true, false, Option, none, some, List, [], ◌∷◌}
use midgard.Base.Bytes.{Bytes, Slice, codes}
use midgard.Base.Int.{ℤ, ltb_ℤ}
use midgard.Record.Events.{AddBase}
use midgard.Record.Monad.{
  text, int, texts, ints, slice, or_empty, Metadata, Env, Action, ⊤, when, insert_or_log,
}

pub record PendingLiquidity : Type 0 where
  pub base : AddBase
  pub open base use *
  pub pending_type : Slice

pub record SwitchEvent : Type 0 where
  pub tx : Slice
  pub from_addr : Slice
  pub to_addr : Slice
  pub burn_asset : Slice
  pub mint_asset : Slice
  pub burn_e8 : ℤ
  pub mint_e8 : ℤ

pub record Transfer : Type 0 where
  pub from_addr : Slice
  pub to_addr : Slice
  pub asset : Slice
  pub amount_e8 : ℤ

pub record StreamingSwapDetails : Type 0 where
  pub tx_id : Slice
  pub interval : ℤ
  pub quantity : ℤ
  pub count : ℤ
  pub last_height : ℤ
  pub deposit_asset : Slice
  pub depoit_e8 : ℤ
  pub in_asset : Slice
  pub in_e8 : ℤ
  pub out_asset : Slice
  pub out_e8 : ℤ
  pub failed_swaps : Option (List ℤ)
  pub failed_reasons : Option (List Bytes)

pub record Send : Type 0 where
  pub from_addr : Bytes
  pub to_addr : Bytes
  pub asset : Slice
  pub asset_e8 : ℤ
  pub memo : Bytes
  pub hash : Bytes
  pub code : ℤ
  pub log : Bytes

pub record Deposit : Type 0 where
  pub from_addr : Bytes
  pub asset : Slice
  pub code : ℤ
  pub log : Bytes
  pub asset_e8 : ℤ
  pub memo : Bytes
  pub hash : Bytes

-- Switches before a certain height, and those that name no asset, are all of THOR.RUNE.
abbrev minted : Slice → Bool → Slice
minted asset true = some (codes "THOR.RUNE")
minted none false = some (codes "THOR.RUNE")
minted (some asset) false = some asset

module _ {S : Type 0} (env : Env S) where
  unfoldable pub on_pending_liquidity : PendingLiquidity → Metadata → Action S ⊤
  on_pending_liquidity e meta =
      insert_or_log env "pending_liquidity_events" meta
        ("pool" ∷ "asset_tx" ∷ "asset_chain" ∷ "asset_addr" ∷ "asset_e8" ∷ "rune_tx" ∷ "rune_addr"
          ∷ "rune_e8" ∷ "pending_type" ∷ [])
        (slice e.pool
          ∷ slice e.asset_tx
          ∷ slice e.asset_chain
          ∷ slice e.asset_addr
          ∷ int e.asset_e8
          ∷ slice e.rune_tx
          ∷ slice e.rune_addr
          ∷ int e.rune_e8
          ∷ slice e.pending_type
          ∷ [])

  unfoldable pub on_switch : SwitchEvent → Metadata → Action S ⊤
  on_switch e meta =
      let from_addr = or_empty e.from_addr in
      let mint_asset =
        minted e.mint_asset (ltb_ℤ meta.block_height env.undelayed_liquidity_fees_height) in
      insert_or_log env "switch_events" meta
        ("tx" ∷ "from_addr" ∷ "to_addr" ∷ "burn_asset" ∷ "burn_e8" ∷ "mint_e8" ∷ "mint_asset" ∷ [])
        (slice e.tx
          ∷ slice from_addr
          ∷ slice e.to_addr
          ∷ slice e.burn_asset
          ∷ int e.burn_e8
          ∷ int e.mint_e8
          ∷ slice mint_asset
          ∷ [])

  unfoldable pub on_transfer : Transfer → Metadata → Action S ⊤
  on_transfer e meta = when env.on_transfer_enabled (
      insert_or_log env "transfer_events" meta
        ("from_addr" ∷ "to_addr" ∷ "asset" ∷ "amount_e8" ∷ [])
        (slice e.from_addr ∷ slice e.to_addr ∷ slice e.asset ∷ int e.amount_e8 ∷ []))

  unfoldable pub on_streaming_swap_details : StreamingSwapDetails → Metadata → Action S ⊤
  on_streaming_swap_details e meta =
      insert_or_log env "streaming_swap_details_events" meta
        ("tx_id" ∷ "interval" ∷ "quantity" ∷ "count" ∷ "last_height" ∷ "deposit_asset"
          ∷ "deposit_e8" ∷ "in_asset" ∷ "in_e8" ∷ "out_asset" ∷ "out_e8" ∷ "failed_swaps"
          ∷ "failed_swap_reasons" ∷ [])
        (slice e.tx_id
          ∷ int e.interval
          ∷ int e.quantity
          ∷ int e.count
          ∷ int e.last_height
          ∷ slice e.deposit_asset
          ∷ int e.depoit_e8
          ∷ slice e.in_asset
          ∷ int e.in_e8
          ∷ slice e.out_asset
          ∷ int e.out_e8
          ∷ ints e.failed_swaps
          ∷ texts e.failed_reasons
          ∷ [])

  unfoldable pub on_msg_send : Send → Metadata → Action S ⊤
  on_msg_send e meta =
      insert_or_log env "send_messages" meta
        ("amount_e8" ∷ "asset" ∷ "from_addr" ∷ "to_addr" ∷ "memo" ∷ "tx_id" ∷ "code" ∷ "raw_log"
          ∷ [])
        (int e.asset_e8
          ∷ slice e.asset
          ∷ text e.from_addr
          ∷ text e.to_addr
          ∷ text e.memo
          ∷ text e.hash
          ∷ int e.code
          ∷ text e.log
          ∷ [])

  unfoldable pub on_deposit : Deposit → Metadata → Action S ⊤
  on_deposit e meta =
      insert_or_log env "failed_deposit_messages" meta
        ("amount_e8" ∷ "asset" ∷ "from_addr" ∷ "reason" ∷ "code" ∷ "memo" ∷ "tx_id" ∷ [])
        (int e.asset_e8
          ∷ slice e.asset
          ∷ text e.from_addr
          ∷ text e.log
          ∷ int e.code
          ∷ text e.memo
          ∷ text e.hash
          ∷ [])
