-- ===== src/Record/Dispatch/Read.antt =====
-- internal/fetch/record/mux.go, `processEvent`: how an event is read, according to its type. The
-- switch over the types is cut into three.
use Prim.Native.String.{String}
use midgard.Base.{Bool, ◌||◌, List, [], ◌∷◌, ◌++◌, if◌then◌else◌}
use midgard.Base.Bytes.{Bytes, codes, same, has_prefix}
use midgard.Record.Blocks.{Attribute}
use midgard.Record.Notices.Transfers.{Transfer}
use midgard.Record.Process.{
  Event, Notice, notice, active_vault, cosm_wasm, add, asgard_fund_yggdrasil, bond, errata, fee,
  inactive_vault, gas, message, new_node, outbound, pool, refund, reserve, rewards, set_ip_address,
  set_mimir, set_node_keys, set_version, slash, pending_liquidity, stake, swap, withdraw,
  update_node_account_status, validator_request_leave, pool_balance_change, thor_name_change,
  switch, slash_points, set_node_mimir, mint_burn, version, loan_open, loan_repayment,
  streaming_swap_details, tss_keygen_success, tss_keygen_failure, scheduled_outbound,
  trade_account_deposit, trade_account_withdraw, secure_asset_deposit, secure_asset_withdraw,
  rune_pool_deposit, rune_pool_withdraw, affiliate_fee, instantiate, tcy_claim, tcy_distribution,
  tcy_stake, tcy_unstake, transfer,
}
use midgard.Record.Load.Reader.{
  Settings, Load, loaded, failed, empty_amount, out_of_fuel, malformed, set,
}
use midgard.Record.Load.Accounts.{
  load_thor_name_change, load_loan_open, load_loan_repayment, load_rune_pool_deposit,
  load_rune_pool_withdraw,
}
use midgard.Record.Load.Amounts.{load_errata, load_rewards, load_slash, load_mint_burn}
use midgard.Record.Load.Contracts.{
  load_instantiate, load_tcy_claim, load_tcy_distribution, load_tcy_stake, load_tcy_unstake,
  load_cosm_wasm_event,
}
use midgard.Record.Load.Liquidity.{load_pending_liquidity, load_stake}
use midgard.Record.Load.Moves.{
  load_trade_account_deposit, load_trade_account_withdraw, load_secure_asset_deposit,
  load_secure_asset_withdraw, load_affiliate_fee,
}
use midgard.Record.Load.Nodes.{
  load_active_vault, load_inactive_vault, load_message, load_new_node, load_set_ip_address,
  load_set_node_keys, load_set_version, load_update_node_account_status,
  load_validator_request_leave, load_slash_points, load_set_node_mimir, load_version,
  load_tss_keygen_success, load_tss_keygen_failure,
}
use midgard.Record.Load.Outbounds.{
  load_asgard_fund_yggdrasil, load_bond, load_outbound, load_refund, load_reserve,
}
use midgard.Record.Load.Pools.{
  load_add, load_fee, load_gas, load_pool, load_set_mimir, load_pool_balance_change,
}
use midgard.Record.Load.Scheduled.{load_scheduled_outbound}
use midgard.Record.Load.Swaps.{load_swap, load_streaming_swap_details}
use midgard.Record.Load.Transfers.{load_transfer, load_switch_event}
use midgard.Record.Load.Withdrawals.{load_withdraw}

-- What an event is read as: an event for a handler, or an error, with the lines that were logged;
-- one that is left alone; or one of a type that is not known.
pub data Reading : Type 0 where
  reading : Load Event → Reading
  ignored : List String → Reading
  unknown_type : Reading

abbrev pub reads : {A : Type 0} → Load A → (A → Event) → Reading
reads m f = reading (set m f)

abbrev pub reads_notice : {A : Type 0} → Load A → (A → Notice) → Reading
reads_notice m f = reading (set m (λ x. notice (f x)))

-- A transfer of no amount is no error.
abbrev pub transfer_reading : Load Transfer → Reading
transfer_reading (loaded e logs) = reading (loaded (notice (transfer e)) logs)
transfer_reading (failed empty_amount logs) = ignored logs
transfer_reading (failed out_of_fuel logs) = reading (failed out_of_fuel logs)
transfer_reading (failed (malformed text) logs) = reading (failed (malformed text) logs)

abbrev pub is_ignored_type : Bytes → Bool
is_ignored_type type_name =
    same type_name (codes "tx")
    || same type_name (codes "coin_spent")
    || same type_name (codes "coin_received")
    || same type_name (codes "coinbase")
    || same type_name (codes "burn")
    || same type_name (codes "tss_keygen")
    || same type_name (codes "tss_keysign")
    || same type_name (codes "create_client")
    || same type_name (codes "update_client")
    || same type_name (codes "connection_open_init")
    || same type_name (codes "store_code")
    || same type_name (codes "pin_code")
    || same type_name (codes "security")
    || same type_name (codes "execute")
    || same type_name (codes "approve_upgrade")

-- A contract's own event has its type as an attribute.
abbrev pub with_type : Bytes → List Attribute → List Attribute
with_type type_name attrs = attrs ++ record { key = codes "type"; value = type_name } ∷ []

unfoldable pub read_other_event : Bytes → List Attribute → Reading
read_other_event type_name attrs =
    if is_ignored_type type_name
    then ignored []
    else if has_prefix type_name (codes "wasm-")
    then reads_notice (load_cosm_wasm_event (with_type type_name attrs)) cosm_wasm
    else unknown_type

unfoldable pub read_last_event : Settings → Bytes → List Attribute → Reading
read_last_event cfg type_name attrs =
    if same type_name (codes "loan_open")
    then reads_notice (load_loan_open attrs) loan_open
    else if same type_name (codes "loan_repayment")
    then reads_notice (load_loan_repayment attrs) loan_repayment
    else if same type_name (codes "streaming_swap")
    then reads_notice (load_streaming_swap_details attrs) streaming_swap_details
    else if same type_name (codes "tss_keygen_success")
    then reads_notice (load_tss_keygen_success attrs) tss_keygen_success
    else if same type_name (codes "tss_keygen_failure")
    then reads_notice (load_tss_keygen_failure attrs) tss_keygen_failure
    else if same type_name (codes "scheduled_outbound")
    then reads_notice (load_scheduled_outbound cfg attrs) scheduled_outbound
    else if same type_name (codes "trade_account_deposit")
    then reads (load_trade_account_deposit attrs) trade_account_deposit
    else if same type_name (codes "trade_account_withdraw")
    then reads (load_trade_account_withdraw attrs) trade_account_withdraw
    else if same type_name (codes "secured_asset_deposit")
    then reads (load_secure_asset_deposit attrs) secure_asset_deposit
    else if same type_name (codes "secured_asset_withdraw")
    then reads (load_secure_asset_withdraw attrs) secure_asset_withdraw
    else if same type_name (codes "rune_pool_deposit")
    then reads_notice (load_rune_pool_deposit attrs) rune_pool_deposit
    else if same type_name (codes "rune_pool_withdraw")
    then reads_notice (load_rune_pool_withdraw attrs) rune_pool_withdraw
    else if same type_name (codes "affiliate_fee")
    then reads (load_affiliate_fee attrs) affiliate_fee
    else if same type_name (codes "instantiate")
    then reads_notice (load_instantiate attrs) instantiate
    else if same type_name (codes "tcy_claim")
    then reads_notice (load_tcy_claim attrs) tcy_claim
    else if same type_name (codes "tcy_distribution")
    then reads_notice (load_tcy_distribution attrs) tcy_distribution
    else if same type_name (codes "tcy_stake")
    then reads_notice (load_tcy_stake attrs) tcy_stake
    else if same type_name (codes "tcy_unstake")
    then reads_notice (load_tcy_unstake attrs) tcy_unstake
    else read_other_event type_name attrs

unfoldable pub read_later_event : Settings → Bytes → List Attribute → Reading
read_later_event cfg type_name attrs =
    if same type_name (codes "set_node_keys")
    then reads_notice (load_set_node_keys attrs) set_node_keys
    else if same type_name (codes "set_version")
    then reads_notice (load_set_version attrs) set_version
    else if same type_name (codes "slash")
    then reads (load_slash attrs) slash
    else if same type_name (codes "pending_liquidity")
    then reads_notice (load_pending_liquidity cfg attrs) pending_liquidity
    else if same type_name (codes "add_liquidity")
    then reads (load_stake cfg attrs) stake
    else if same type_name (codes "swap")
    then reads (load_swap cfg attrs) swap
    else if same type_name (codes "transfer")
    then transfer_reading (load_transfer attrs)
    else if same type_name (codes "withdraw")
    then reads (load_withdraw cfg attrs) withdraw
    else if same type_name (codes "UpdateNodeAccountStatus")
    then reads_notice (load_update_node_account_status attrs) update_node_account_status
    else if same type_name (codes "validator_request_leave")
    then reads_notice (load_validator_request_leave attrs) validator_request_leave
    else if same type_name (codes "pool_balance_change")
    then reads (load_pool_balance_change attrs) pool_balance_change
    else if same type_name (codes "thorname")
    then reads_notice (load_thor_name_change cfg attrs) thor_name_change
    else if same type_name (codes "switch")
    then reads_notice (load_switch_event attrs) switch
    else if same type_name (codes "slash_points")
    then reads_notice (load_slash_points attrs) slash_points
    else if same type_name (codes "set_node_mimir")
    then reads_notice (load_set_node_mimir attrs) set_node_mimir
    else if same type_name (codes "mint_burn")
    then reads (load_mint_burn attrs) mint_burn
    else if same type_name (codes "version")
    then reads_notice (load_version attrs) version
    else read_last_event cfg type_name attrs

unfoldable pub read_event : Settings → Bytes → List Attribute → Reading
read_event cfg type_name attrs =
    if same type_name (codes "ActiveVault")
    then reads_notice (load_active_vault attrs) active_vault
    else if same type_name (codes "donate")
    then reads (load_add cfg attrs) add
    else if same type_name (codes "asgard_fund_yggdrasil")
    then reads_notice (load_asgard_fund_yggdrasil attrs) asgard_fund_yggdrasil
    else if same type_name (codes "bond")
    then reads_notice (load_bond attrs) bond
    else if same type_name (codes "errata")
    then reads (load_errata attrs) errata
    else if same type_name (codes "fee")
    then reads (load_fee attrs) fee
    else if same type_name (codes "InactiveVault")
    then reads_notice (load_inactive_vault attrs) inactive_vault
    else if same type_name (codes "gas")
    then reads (load_gas attrs) gas
    else if same type_name (codes "message")
    then reads_notice (load_message attrs) message
    else if same type_name (codes "new_node")
    then reads_notice (load_new_node attrs) new_node
    else if same type_name (codes "outbound")
    then reads_notice (load_outbound cfg attrs) outbound
    else if same type_name (codes "pool")
    then reads (load_pool attrs) pool
    else if same type_name (codes "refund")
    then reads_notice (load_refund cfg attrs) refund
    else if same type_name (codes "reserve")
    then reads_notice (load_reserve attrs) reserve
    else if same type_name (codes "rewards")
    then reads (load_rewards attrs) rewards
    else if same type_name (codes "set_ip_address")
    then reads_notice (load_set_ip_address attrs) set_ip_address
    else if same type_name (codes "set_mimir")
    then reads (load_set_mimir attrs) set_mimir
    else read_later_event cfg type_name attrs
