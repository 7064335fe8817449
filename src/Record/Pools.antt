-- ===== src/Record/Pools.antt =====
-- internal/fetch/record/record.go: the handlers of events that move a pool's depths, but swaps and
-- withdrawals.
pub mod Ledger
pub mod Depths
use Prim.Native.String.{String}
use midgard.Base.{Bool, true, false, not, ◌&&◌, List, [], ◌∷◌, if◌then◌else◌}
use midgard.Base.Bytes.{Bytes, Slice, str, codes, same, to_lower}
use midgard.Base.Int.{ℤ, pos, neg64, add64, int_beq}
use midgard.Db.EventId.{EventLocation, end_block_events}
use midgard.Util.Memo.{tx_type_from_memo, convert_synth_pool_to_native}
use midgard.Record.Coin.{
  CoinType, switch, asset_native, asset_synth, is_switch, get_coin_type, get_native_asset,
}
use midgard.Record.Totals.{set_asset_depth, set_rune_depth, set_synth_depth}
use midgard.Record.ChainInfo.{set_pool_status}
use midgard.Record.Events.{
  Amount, Add, Errata, Fee, Gas, Pool, Rewards, Slash, Stake, PoolBalanceChange, MintBurn,
  AccountMove, Coinbase, Burn,
}
use midgard.Record.Monad.{
  text, int, bool, tx_type, slice, or_empty, Metadata, Env, Action, ⊤, ◌>>=◌, ◌>>◌, skip,
  log_event_parse_error, change_totals, change_info, get_depths, add_asset, add_rune, add_synth,
  when, insert_with_meta,
}

abbrev pub is_synth : CoinType → Bool
is_synth asset_synth = true
is_synth _ = false

abbrev pub is_native : CoinType → Bool
is_native asset_native = true
is_native _ = false

abbrev pub is_end_block : EventLocation → Bool
is_end_block end_block_events = true
is_end_block _ = false

-- The amount, negated unless it is to be added.
abbrev pub signed : Bool → ℤ → ℤ
signed true amount = amount
signed false amount = neg64 amount

abbrev is_nil : List Amount → Bool
is_nil [] = true
is_nil (_ ∷ _) = false

module _ {S : Type 0} (env : Env S) where
  -- A donation of the savers' yield mints synths, and is a row of the rewards.
  unfoldable pub on_add : Add → Metadata → Action S ⊤
  on_add e meta =
      let memo = or_empty e.memo in
      let pool = str e.pool in
      let move : Action S ⊤ = add_asset pool e.asset_e8 >> add_rune pool e.rune_e8 in
      if is_synth (get_coin_type pool) && same (str memo) (codes "THOR-SAVERS-YIELD")
      then (do
        add_synth (convert_synth_pool_to_native pool) e.asset_e8
        failed ←
            insert_with_meta env "rewards_event_entries" meta ("pool" ∷ "rune_e8" ∷ "saver_e8" ∷ [])
              (text (convert_synth_pool_to_native pool) ∷ int (pos 0) ∷ int e.asset_e8 ∷ [])
        if failed then log_event_parse_error "synth donate" else move)
      else (do
        failed ←
            insert_with_meta env "add_events" meta
              ("tx" ∷ "chain" ∷ "from_addr" ∷ "to_addr" ∷ "asset" ∷ "asset_e8" ∷ "memo" ∷ "rune_e8"
                ∷ "pool" ∷ "_tx_type" ∷ [])
              (slice e.tx
                ∷ slice e.chain
                ∷ slice e.from_addr
                ∷ slice e.to_addr
                ∷ slice e.asset
                ∷ int e.asset_e8
                ∷ slice memo
                ∷ int e.rune_e8
                ∷ slice e.pool
                ∷ tx_type (tx_type_from_memo (str memo))
                ∷ [])
        if failed then log_event_parse_error "add" else move)

  unfoldable pub on_errata : Errata → Metadata → Action S ⊤
  on_errata e meta = do
    failed ←
        insert_with_meta env "errata_events" meta ("in_tx" ∷ "asset" ∷ "asset_e8" ∷ "rune_e8" ∷ [])
          (slice e.in_tx ∷ slice e.asset ∷ int e.asset_e8 ∷ int e.rune_e8 ∷ [])
    if failed
        then log_event_parse_error "errata"
        else (add_asset (str e.asset) e.asset_e8 >> add_rune (str e.asset) e.rune_e8)

  unfoldable pub on_fee : Fee → Metadata → Action S ⊤
  on_fee e meta =
      let asset = str e.asset in
      let coin_type = get_coin_type asset in
      let pool = get_native_asset asset in
      do
        failed ←
            insert_with_meta env "fee_events" meta
              ("tx" ∷ "asset" ∷ "asset_e8" ∷ "pool_deduct" ∷ [])
              (slice e.tx ∷ slice e.asset ∷ int e.asset_e8 ∷ int e.pool_deduct ∷ [])
        when failed (log_event_parse_error "fee")
        when (not (is_switch asset)) (do
          when (is_native coin_type) (add_asset pool e.asset_e8)
          when (is_synth coin_type) (add_synth pool (neg64 e.asset_e8))
          add_rune pool (neg64 e.pool_deduct))

  unfoldable pub on_gas : Gas → Metadata → Action S ⊤
  on_gas e meta = do
    failed ←
        insert_with_meta env "gas_events" meta ("asset" ∷ "asset_e8" ∷ "rune_e8" ∷ "tx_count" ∷ [])
          (slice e.asset ∷ int e.asset_e8 ∷ int e.rune_e8 ∷ int e.tx_count ∷ [])
    if failed
        then log_event_parse_error "gas"
        else (add_asset (str e.asset) (neg64 e.asset_e8) >> add_rune (str e.asset) e.rune_e8)

  -- A pool that is suspended loses its depths.
  unfoldable pub on_pool : Pool → Metadata → Action S ⊤
  on_pool e meta =
      let pool = str e.asset in
      do
        failed ←
            insert_with_meta env "pool_events" meta ("asset" ∷ "status" ∷ [])
              (slice e.asset ∷ slice e.status ∷ [])
        when failed (log_event_parse_error "pool")
        when (same (to_lower (str e.status)) (codes "suspended")) (do
          change_totals (set_asset_depth pool (pos 0))
          change_totals (set_rune_depth pool (pos 0))
          change_totals (set_synth_depth pool (pos 0)))
        change_info (set_pool_status pool (str e.status))

  -- The loop that writes the entries: true if one of them failed, and then the rest is not written.
  insert_entries : Metadata → List Amount → Action S Bool
  insert_entries meta [] s = (false, s)
  insert_entries meta (p ∷ ps) s =
      let (failed, s') =
        insert_with_meta env "rewards_event_entries" meta ("pool" ∷ "rune_e8" ∷ "saver_e8" ∷ [])
          (slice p.asset ∷ int p.e8 ∷ int (pos 0) ∷ []) s in
      let rest = insert_entries meta ps s' in if failed then (true, s') else rest

  add_rewards : List Amount → Action S ⊤
  add_rewards [] = skip
  add_rewards (a ∷ rest) = add_rune (str a.asset) a.e8 >> add_rewards rest

  unfoldable pub on_rewards : Rewards → Metadata → Action S ⊤
  unfolding insert_entries add_rewards
  on_rewards e meta = do
    failed ← insert_with_meta env "rewards_events" meta ("bond_e8" ∷ []) (int e.bond_e8 ∷ [])
    if failed then log_event_parse_error "reserve" else (do
      entry_failed ← insert_entries meta e.per_pool
      if entry_failed then log_event_parse_error "reserve pools" else add_rewards e.per_pool)

  abbrev pub slash_amount : Bytes → CoinType → ℤ → Action S ⊤
  slash_amount pool switch e8 = add_rune pool e8
  slash_amount pool asset_native e8 = add_asset pool e8
  slash_amount pool _ e8 = log_event_parse_error "slash coin type"

  slash_amounts : Slice → Metadata → List Amount → Action S ⊤
  slash_amounts pool meta [] = skip
  slash_amounts pool meta (a ∷ rest) =
      (do
        failed ←
            insert_with_meta env "slash_events" meta ("pool" ∷ "asset" ∷ "asset_e8" ∷ [])
              (slice pool ∷ slice a.asset ∷ int a.e8 ∷ [])
        when failed (log_event_parse_error "slash")
        slash_amount (str pool) (get_coin_type (str a.asset)) a.e8)
      >> slash_amounts pool meta rest

  unfoldable pub on_slash : Slash → Metadata → Action S ⊤
  unfolding slash_amounts
  on_slash e meta = do
    when (is_nil e.amounts) (log_event_parse_error "slash ignored")
    slash_amounts e.pool meta e.amounts

  unfoldable pub on_stake : Stake → Metadata → Action S ⊤
  on_stake e meta =
      let pool = str e.pool in
      do
        before ← get_depths pool
        let a_e8 = add64 before.asset_e8 e.asset_e8
        let r_e8 = add64 before.rune_e8 e.rune_e8
        let asset_in_rune = if int_beq a_e8 (pos 0) then pos 0 else env.in_rune e.asset_e8 r_e8 a_e8
        failed ←
            insert_with_meta env "stake_events" meta
              ("pool" ∷ "asset_tx" ∷ "asset_chain" ∷ "asset_addr" ∷ "asset_e8" ∷ "stake_units"
                ∷ "rune_tx" ∷ "rune_addr" ∷ "rune_e8" ∷ "_asset_in_rune_e8" ∷ "memo" ∷ [])
              (slice e.pool
                ∷ slice e.asset_tx
                ∷ slice e.asset_chain
                ∷ slice e.asset_addr
                ∷ int e.asset_e8
                ∷ int e.stake_units
                ∷ slice e.rune_tx
                ∷ slice e.rune_addr
                ∷ int e.rune_e8
                ∷ int asset_in_rune
                ∷ slice e.memo
                ∷ [])
        if failed
            then log_event_parse_error "stake"
            else (add_asset pool e.asset_e8 >> add_rune pool e.rune_e8)

  unfoldable pub on_pool_balance_change : PoolBalanceChange → Metadata → Action S ⊤
  on_pool_balance_change e meta = do
    failed ←
        insert_with_meta env "pool_balance_change_events" meta
          ("asset" ∷ "rune_amt" ∷ "rune_add" ∷ "asset_amt" ∷ "asset_add" ∷ "reason" ∷ [])
          (slice e.asset
            ∷ int e.rune_amt
            ∷ bool e.rune_add
            ∷ int e.asset_amt
            ∷ bool e.asset_add
            ∷ text e.reason
            ∷ [])
    when failed (log_event_parse_error "pool_balance_change")
    when (not (int_beq e.asset_amt (pos 0)))
        (add_asset (str e.asset) (signed e.asset_add e.asset_amt))
    when (not (int_beq e.rune_amt (pos 0))) (add_rune (str e.asset) (signed e.rune_add e.rune_amt))

  -- Synths that a failed refund burns leave the pool.
  unfoldable pub on_mint_burn : MintBurn → Metadata → Action S ⊤
  on_mint_burn e meta = do
    failed ←
        insert_with_meta env "mint_burn_events" meta
          ("asset" ∷ "asset_e8" ∷ "supply" ∷ "reason" ∷ [])
          (slice e.asset ∷ int e.asset_e8 ∷ slice e.supply ∷ slice e.reason ∷ [])
    when failed (log_event_parse_error "mint_burn")
    when
        (is_synth (get_coin_type (str e.asset))
          && same (str e.supply) (codes "burn")
          && same (str e.reason) (codes "failed_refund"))
        (add_synth (convert_synth_pool_to_native (str e.asset)) (neg64 e.asset_e8))

  -- The part that the four handlers of trade accounts and secured assets share.
  insert_account_move : String → AccountMove → Metadata → Action S ⊤
  insert_account_move table e meta = do
    failed ←
        insert_with_meta env table meta
          ("amount_e8" ∷ "asset" ∷ "asset_address" ∷ "rune_address" ∷ "tx_id" ∷ [])
          (int e.amt_e8 ∷ slice e.asset ∷ slice e.asset_addr ∷ slice e.rune_addr ∷ slice e.tx ∷ [])
    when failed (log_event_parse_error table)

  abbrev at_end_block : Metadata → Action S ⊤ → Action S ⊤
  at_end_block meta m = when (is_end_block meta.event_id.location) m

  unfoldable pub on_trade_account_deposit : AccountMove → Metadata → Action S ⊤
  unfolding insert_account_move
  on_trade_account_deposit e meta = do
    insert_account_move "trade_account_deposit_events" e meta
    at_end_block meta (add_asset (get_native_asset (str e.asset)) (neg64 e.amt_e8))

  unfoldable pub on_trade_account_withdraw : AccountMove → Metadata → Action S ⊤
  unfolding insert_account_move
  on_trade_account_withdraw e meta = do
    insert_account_move "trade_account_withdraw_events" e meta
    at_end_block meta (add_asset (get_native_asset (str e.asset)) e.amt_e8)

  unfoldable pub on_secure_asset_deposit : AccountMove → Metadata → Action S ⊤
  unfolding insert_account_move
  on_secure_asset_deposit e meta = do
    insert_account_move "secure_asset_deposit_events" e meta
    at_end_block meta (add_asset (get_native_asset (str e.asset)) (neg64 e.amt_e8))

  unfoldable pub on_secure_asset_withdraw : AccountMove → Metadata → Action S ⊤
  unfolding insert_account_move
  on_secure_asset_withdraw e meta = do
    insert_account_move "secure_asset_withdraw_events" e meta
    at_end_block meta (add_asset (get_native_asset (str e.asset)) e.amt_e8)

  -- Synths are minted and burnt by messages of the Cosmos chain too.
  unfoldable pub on_coinbase : Coinbase → Metadata → Action S ⊤
  on_coinbase e meta = add_synth (convert_synth_pool_to_native (str e.asset)) e.asset_e8

  unfoldable pub on_burn : Burn → Metadata → Action S ⊤
  on_burn e meta = add_synth (convert_synth_pool_to_native (str e.asset)) (neg64 e.asset_e8)
