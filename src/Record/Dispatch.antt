-- ===== src/Record/Dispatch.antt =====
-- internal/fetch/record/mux.go, `processEvent`: an event is read and given to its handler.
pub mod Read
pub mod Refused
pub mod Totals
pub mod Filter
use Prim.Native.String.{String}
use midgard.Base.{Bool, true, false, ◌&&◌, ◌||◌, List, [], ◌∷◌, ◌++◌, if◌then◌else◌}
use midgard.Base.Bytes.{Bytes, codes, same, has_prefix}
use midgard.Record.Blocks.{Attribute, AbciEvent}
use midgard.Record.Corrections.{Corrections}
use midgard.Record.Monad.{Metadata, Env, Action, ⊤, ◌>>=◌, ◌>>◌, pure, skip, log_event_parse_error}
use midgard.Record.Notices.Transfers.{Transfer}
use midgard.Record.Process.{
  Event, Notice, on_event, notice, cosm_wasm, add, asgard_fund_yggdrasil, bond, errata, fee,
  inactive_vault, gas, message, new_node, outbound, pool, refund, reserve, rewards, set_ip_address,
  set_mimir, set_node_keys, set_version, slash, pending_liquidity, stake, swap, withdraw,
  update_node_account_status, validator_request_leave, pool_balance_change, thor_name_change,
  switch, slash_points, set_node_mimir, mint_burn, version, loan_open, loan_repayment,
  streaming_swap_details, tss_keygen_success, tss_keygen_failure, scheduled_outbound,
  trade_account_deposit, trade_account_withdraw, secure_asset_deposit, secure_asset_withdraw,
  rune_pool_deposit, rune_pool_withdraw, affiliate_fee, instantiate, tcy_claim, tcy_distribution,
  tcy_stake, tcy_unstake, transfer,
}
use midgard.Record.Load.Reader.{
  Settings, Load, LoadError, loaded, failed, empty_amount, out_of_fuel, malformed, set, is,
}
use midgard.Record.Load.Accounts.{
  load_thor_name_change, load_loan_open, load_loan_repayment, load_rune_pool_deposit,
  load_rune_pool_withdraw,
}
use midgard.Record.Load.Amounts.{load_errata, load_rewards, load_slash, load_mint_burn}
use midgard.Record.Load.Contracts.{
  load_instantiate, load_tcy_claim, load_tcy_distribution, load_tcy_stake, load_tcy_unstake,
  load_cosm_wasm_event,
}
use midgard.Record.Load.Liquidity.{load_pending_liquidity, load_stake}
use midgard.Record.Load.Moves.{
  load_trade_account_deposit, load_trade_account_withdraw, load_secure_asset_deposit,
  load_secure_asset_withdraw, load_affiliate_fee,
}
use midgard.Record.Load.Nodes.{
  load_inactive_vault, load_message, load_new_node, load_set_ip_address, load_set_node_keys,
  load_set_version, load_update_node_account_status, load_validator_request_leave,
  load_slash_points, load_set_node_mimir, load_version, load_tss_keygen_success,
  load_tss_keygen_failure,
}
use midgard.Record.Load.Outbounds.{
  load_asgard_fund_yggdrasil, load_bond, load_outbound, load_refund, load_reserve,
}
use midgard.Record.Load.Pools.{
  load_add, load_fee, load_gas, load_pool, load_set_mimir, load_pool_balance_change,
}
use midgard.Record.Load.Scheduled.{load_scheduled_outbound}
use midgard.Record.Load.Swaps.{load_swap, load_streaming_swap_details}
use midgard.Record.Load.Transfers.{load_transfer, load_switch_event}
use midgard.Record.Load.Withdrawals.{load_withdraw}
use midgard.Record.Dispatch.Read.{Reading, reading, ignored, unknown_type, read_event}

-- The attributes "mode" and "msg_index" are dropped, and those with an empty value.
abbrev pub is_empty : Bytes → Bool
is_empty [] = true
is_empty (_ ∷ _) = false

abbrev pub is_dropped : Attribute → Bool
is_dropped a = is a "mode" || is a "msg_index" || is_empty a.value

unfoldable pub filter_attributes : List Attribute → List Attribute
filter_attributes [] = []
filter_attributes (a ∷ rest) =
    let kept = filter_attributes rest in if is_dropped a then kept else a ∷ kept

abbrev pub log_all : {S : Type 0} → List String → Action S ⊤
log_all [] = skip
log_all (line ∷ lines) = log_event_parse_error line >> log_all lines

module _ {S : Type 0} (env : Env S) (corrections : Corrections) where
  -- True if there was an error.
  unfoldable pub handle : Reading → Metadata → Action S Bool
  handle (reading (loaded e logs)) meta = do
    log_all logs
    on_event env corrections e meta
    pure false
  handle (reading (failed err logs)) meta = do log_all logs; pure true
  handle (ignored logs) meta = do log_all logs; pure false
  handle unknown_type meta = do log_event_parse_error "Unknown event type"; pure true

  unfoldable pub process_event : Settings → AbciEvent → Metadata → Action S Bool
  unfolding handle
  process_event cfg event meta =
      handle (read_event cfg event.type_name (filter_attributes event.attributes)) meta
