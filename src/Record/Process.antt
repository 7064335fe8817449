-- ===== src/Record/Process.antt =====
-- internal/fetch/record/mux.go: the events and messages that the recorder knows, and the handler of
-- each. An event whose attributes could not be read never gets here.
pub mod Depths
use midgard.Base.{Bool, true, false, Option, none, some, if◌then◌else◌}
use midgard.Record.Corrections.{
  Corrections, KeepOrDiscard, keep, discard, correct_withdraw, corrections_fee_event_is_ok,
}
use midgard.Record.Events.{
  Add, Errata, Gas, Pool, Rewards, Slash, Stake, PoolBalanceChange, MintBurn, AccountMove, Fee,
  Swap, Withdraw, AffiliateFee, SetMimir,
}
use midgard.Record.Monad.{Metadata, Env, Action, ⊤, skip}
use midgard.Record.Notices.Nodes
use midgard.Record.Notices.Outbounds
use midgard.Record.Notices.Transfers
use midgard.Record.Notices.Accounts
use midgard.Record.Notices.Nodes.{
  ActiveVault, InactiveVault, NewNode, SetIpAddress, SetNodeKeys, SetVersion,
  UpdateNodeAccountStatus, ValidatorRequestLeave, SlashPoints, SetNodeMimir, Version,
  TssKeygenSuccess, TssKeygenFailure, Message,
}
use midgard.Record.Notices.Outbounds.{
  AsgardFundYggdrasil, Bond, Outbound, ScheduledOutbound, Refund, Reserve,
}
use midgard.Record.Notices.Transfers.{
  PendingLiquidity, SwitchEvent, Transfer, StreamingSwapDetails, Send, Deposit,
}
use midgard.Record.Notices.Accounts.{
  ThorNameChange, LoanOpen, LoanRepayment, RunePoolDeposit, RunePoolWithdraw, CosmWasmEvent,
  Instantiate, TcyClaim, TcyDistribution, TcyStake, TcyUnstake,
}
use midgard.Record.Pools.{
  on_add, on_errata, on_gas, on_pool, on_rewards, on_slash, on_stake, on_pool_balance_change,
  on_mint_burn, on_trade_account_deposit, on_trade_account_withdraw, on_secure_asset_deposit,
  on_secure_asset_withdraw, on_fee,
}
use midgard.Record.Swaps.{on_swap}
use midgard.Record.Withdrawals.{on_withdraw, on_affiliate_fee, on_set_mimir}

-- The events that become one row, and touch nothing else.
pub data Notice : Type 0 where
  active_vault : ActiveVault → Notice
  inactive_vault : InactiveVault → Notice
  new_node : NewNode → Notice
  set_ip_address : SetIpAddress → Notice
  set_node_keys : SetNodeKeys → Notice
  set_version : SetVersion → Notice
  update_node_account_status : UpdateNodeAccountStatus → Notice
  validator_request_leave : ValidatorRequestLeave → Notice
  slash_points : SlashPoints → Notice
  set_node_mimir : SetNodeMimir → Notice
  version : Version → Notice
  tss_keygen_success : TssKeygenSuccess → Notice
  tss_keygen_failure : TssKeygenFailure → Notice
  message : Message → Notice
  asgard_fund_yggdrasil : AsgardFundYggdrasil → Notice
  bond : Bond → Notice
  outbound : Outbound → Notice
  scheduled_outbound : ScheduledOutbound → Notice
  refund : Refund → Notice
  reserve : Reserve → Notice
  pending_liquidity : PendingLiquidity → Notice
  switch : SwitchEvent → Notice
  transfer : Transfer → Notice
  streaming_swap_details : StreamingSwapDetails → Notice
  msg_send : Send → Notice
  deposit : Deposit → Notice
  thor_name_change : ThorNameChange → Notice
  loan_open : LoanOpen → Notice
  loan_repayment : LoanRepayment → Notice
  rune_pool_deposit : RunePoolDeposit → Notice
  rune_pool_withdraw : RunePoolWithdraw → Notice
  cosm_wasm : CosmWasmEvent → Notice
  instantiate : Instantiate → Notice
  tcy_claim : TcyClaim → Notice
  tcy_distribution : TcyDistribution → Notice
  tcy_stake : TcyStake → Notice
  tcy_unstake : TcyUnstake → Notice

pub data Event : Type 0 where
  add : Add → Event
  errata : Errata → Event
  gas : Gas → Event
  pool : Pool → Event
  rewards : Rewards → Event
  slash : Slash → Event
  stake : Stake → Event
  pool_balance_change : PoolBalanceChange → Event
  mint_burn : MintBurn → Event
  trade_account_deposit : AccountMove → Event
  trade_account_withdraw : AccountMove → Event
  secure_asset_deposit : AccountMove → Event
  secure_asset_withdraw : AccountMove → Event
  fee : Fee → Event
  swap : Swap → Event
  withdraw : Withdraw → Event
  affiliate_fee : AffiliateFee → Event
  set_mimir : SetMimir → Event
  notice : Notice → Event

module _ {S : Type 0} (env : Env S) where
  unfoldable pub on_notice : Notice → Metadata → Action S ⊤
  on_notice (active_vault e) = Nodes.on_active_vault env e
  on_notice (inactive_vault e) = Nodes.on_inactive_vault env e
  on_notice (new_node e) = Nodes.on_new_node env e
  on_notice (set_ip_address e) = Nodes.on_set_ip_address env e
  on_notice (set_node_keys e) = Nodes.on_set_node_keys env e
  on_notice (set_version e) = Nodes.on_set_version env e
  on_notice (update_node_account_status e) = Nodes.on_update_node_account_status env e
  on_notice (validator_request_leave e) = Nodes.on_validator_request_leave env e
  on_notice (slash_points e) = Nodes.on_slash_points env e
  on_notice (set_node_mimir e) = Nodes.on_set_node_mimir env e
  on_notice (version e) = Nodes.on_version env e
  on_notice (tss_keygen_success e) = Nodes.on_tss_keygen_success env e
  on_notice (tss_keygen_failure e) = Nodes.on_tss_keygen_failure env e
  on_notice (message e) = Nodes.on_message env e
  on_notice (asgard_fund_yggdrasil e) = Outbounds.on_asgard_fund_yggdrasil env e
  on_notice (bond e) = Outbounds.on_bond env e
  on_notice (outbound e) = Outbounds.on_outbound env e
  on_notice (scheduled_outbound e) = Outbounds.on_scheduled_outbound env e
  on_notice (refund e) = Outbounds.on_refund env e
  on_notice (reserve e) = Outbounds.on_reserve env e
  on_notice (pending_liquidity e) = Transfers.on_pending_liquidity env e
  on_notice (switch e) = Transfers.on_switch env e
  on_notice (transfer e) = Transfers.on_transfer env e
  on_notice (streaming_swap_details e) = Transfers.on_streaming_swap_details env e
  on_notice (msg_send e) = Transfers.on_msg_send env e
  on_notice (deposit e) = Transfers.on_deposit env e
  on_notice (thor_name_change e) = Accounts.on_thor_name_change env e
  on_notice (loan_open e) = Accounts.on_loan_open env e
  on_notice (loan_repayment e) = Accounts.on_loan_repayment env e
  on_notice (rune_pool_deposit e) = Accounts.on_rune_pool_deposit env e
  on_notice (rune_pool_withdraw e) = Accounts.on_rune_pool_withdraw env e
  on_notice (cosm_wasm e) = Accounts.on_cosm_wasm env e
  on_notice (instantiate e) = Accounts.on_instantiate env e
  on_notice (tcy_claim e) = Accounts.on_tcy_claim env e
  on_notice (tcy_distribution e) = Accounts.on_tcy_distribution env e
  on_notice (tcy_stake e) = Accounts.on_tcy_stake env e
  on_notice (tcy_unstake e) = Accounts.on_tcy_unstake env e

  -- The end of the case of withdrawals: `break` if the correction discards it.
  abbrev unless_discarded : Metadata → KeepOrDiscard × Withdraw → Action S ⊤
  unless_discarded meta (discard, w) = skip
  unless_discarded meta (keep, w) = on_withdraw env w meta

  unfoldable pub on_event : Corrections → Event → Metadata → Action S ⊤
  on_event c (add e) meta = on_add env e meta
  on_event c (errata e) meta = on_errata env e meta
  on_event c (gas e) meta = on_gas env e meta
  on_event c (pool e) meta = on_pool env e meta
  on_event c (rewards e) meta = on_rewards env e meta
  on_event c (slash e) meta = on_slash env e meta
  on_event c (stake e) meta = on_stake env e meta
  on_event c (pool_balance_change e) meta = on_pool_balance_change env e meta
  on_event c (mint_burn e) meta = on_mint_burn env e meta
  on_event c (trade_account_deposit e) meta = on_trade_account_deposit env e meta
  on_event c (trade_account_withdraw e) meta = on_trade_account_withdraw env e meta
  on_event c (secure_asset_deposit e) meta = on_secure_asset_deposit env e meta
  on_event c (secure_asset_withdraw e) meta = on_secure_asset_withdraw env e meta
  on_event c (fee e) meta = if corrections_fee_event_is_ok c e meta then on_fee env e meta else skip
  on_event c (swap e) meta = on_swap env e meta
  on_event c (withdraw e) meta = unless_discarded meta (correct_withdraw c e meta)
  on_event c (affiliate_fee e) meta = on_affiliate_fee env e meta
  on_event c (set_mimir e) meta = on_set_mimir env e meta
  on_event c (notice e) meta = on_notice e meta
