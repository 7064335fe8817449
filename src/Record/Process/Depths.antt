-- ===== src/Record/Process/Depths.antt =====
-- What each event does to the depths: the running totals refine a ledger of postings.
use midgard.Base.{Bool-cases, inl, inr, ◌≡◌, refl, List, [], ◌++◌, if◌then◌else◌}
use midgard.Base.Bytes.{str, same, codes, to_lower}
use midgard.Base.Int.{pos, neg64}
use midgard.Record.Corrections.{
  Corrections, KeepOrDiscard, keep, discard, correct_withdraw, corrections_fee_event_is_ok,
}
use midgard.Record.Events.{Pool, Swap, Withdraw}
use midgard.Record.Pools
use midgard.Record.Pools.{on_pool}
use midgard.Record.Pools.Depths.{
  both, add_postings, rewards_postings, slash_postings, balance_postings, mint_burn_postings,
  account_postings, on_add-post, on_errata-post, on_gas-post, on_rewards-post, on_slash-post,
  on_stake-post, on_pool_balance_change-post, on_mint_burn-post, on_trade_account_deposit-post,
  on_trade_account_withdraw-post, on_secure_asset_deposit-post, on_secure_asset_withdraw-post,
  on_fee-post,
}
use midgard.Record.Postings.{Posting, post}
use midgard.Record.Swaps
use midgard.Record.Swaps.Depths.{
  is_two_sided, from_coin, to_coin, paid_in, paid_out, on_swap-post, on_swap_rejects,
}
use midgard.Record.Totals.{RunningTotals, set_asset_depth, set_rune_depth, set_synth_depth}
use midgard.Record.Withdrawals.Depths.{
  withdraw_postings, on_withdraw-post, on_affiliate_fee-totals, on_set_mimir-totals,
}
use midgard.Record.Monad.{
  Metadata, Env, Recorder, NeverFails, insert_with_meta, when-totals, insert_or_log-totals,
}
use midgard.Record.Process.{
  Event, add, errata, gas, pool, rewards, slash, stake, pool_balance_change, mint_burn,
  trade_account_deposit, trade_account_withdraw, secure_asset_deposit, secure_asset_withdraw, fee,
  swap, withdraw, affiliate_fee, set_mimir, notice, on_event, unless_discarded, Notice,
  active_vault, inactive_vault, new_node, set_ip_address, set_node_keys, set_version,
  update_node_account_status, validator_request_leave, slash_points, set_node_mimir, version,
  tss_keygen_success, tss_keygen_failure, message, asgard_fund_yggdrasil, bond, outbound,
  scheduled_outbound, refund, reserve, pending_liquidity, switch, transfer, streaming_swap_details,
  msg_send, deposit, thor_name_change, loan_open, loan_repayment, rune_pool_deposit,
  rune_pool_withdraw, cosm_wasm, instantiate, tcy_claim, tcy_distribution, tcy_stake, tcy_unstake,
  on_notice,
}
use midgard.Record.Notices.Nodes.{
  on_active_vault, on_inactive_vault, on_new_node, on_set_ip_address, on_set_node_keys,
  on_set_version, on_update_node_account_status, on_validator_request_leave, on_slash_points,
  on_set_node_mimir, on_version, on_tss_keygen_success, on_tss_keygen_failure, on_message,
}
use midgard.Record.Notices.Outbounds.{
  on_asgard_fund_yggdrasil, on_bond, on_outbound, on_scheduled_outbound, on_refund, on_reserve,
}
use midgard.Record.Notices.Transfers.{
  on_pending_liquidity, on_switch, on_transfer, on_streaming_swap_details, on_msg_send, on_deposit,
}
use midgard.Record.Notices.Accounts.{
  on_thor_name_change, on_loan_open, on_loan_repayment, on_rune_pool_deposit, on_rune_pool_withdraw,
  on_cosm_wasm, on_instantiate, on_tcy_claim, on_tcy_distribution, on_tcy_stake, on_tcy_unstake,
}

-- A notice leaves every depth alone.
on_notice-totals :
    {S : Type 0} (env : Env S) (n : Notice) (meta : Metadata) (s : Recorder S)
    → (on_notice env n meta s).1.totals ≡ s.totals
unfolding on_notice on_active_vault on_inactive_vault on_new_node on_set_ip_address on_set_node_keys
    on_set_version on_update_node_account_status on_validator_request_leave on_slash_points
    on_set_node_mimir on_version on_tss_keygen_success on_tss_keygen_failure on_message
    on_asgard_fund_yggdrasil on_bond on_outbound on_scheduled_outbound on_refund on_reserve
    on_pending_liquidity on_switch on_transfer on_streaming_swap_details on_msg_send on_deposit
    on_thor_name_change on_loan_open on_loan_repayment on_rune_pool_deposit on_rune_pool_withdraw
    on_cosm_wasm on_instantiate on_tcy_claim on_tcy_distribution on_tcy_stake on_tcy_unstake
on_notice-totals env (active_vault e) meta s = insert_or_log-totals env _ _ _ _ s
on_notice-totals env (inactive_vault e) meta s = insert_or_log-totals env _ _ _ _ s
on_notice-totals env (new_node e) meta s = insert_or_log-totals env _ _ _ _ s
on_notice-totals env (set_ip_address e) meta s = insert_or_log-totals env _ _ _ _ s
on_notice-totals env (set_node_keys e) meta s = insert_or_log-totals env _ _ _ _ s
on_notice-totals env (set_version e) meta s = insert_or_log-totals env _ _ _ _ s
on_notice-totals env (update_node_account_status e) meta s = insert_or_log-totals env _ _ _ _ s
on_notice-totals env (validator_request_leave e) meta s = insert_or_log-totals env _ _ _ _ s
on_notice-totals env (slash_points e) meta s = insert_or_log-totals env _ _ _ _ s
on_notice-totals env (set_node_mimir e) meta s = insert_or_log-totals env _ _ _ _ s
on_notice-totals env (version e) meta s = insert_or_log-totals env _ _ _ _ s
on_notice-totals env (tss_keygen_success e) meta s = insert_or_log-totals env _ _ _ _ s
on_notice-totals env (tss_keygen_failure e) meta s = insert_or_log-totals env _ _ _ _ s
on_notice-totals env (message e) meta s =
    when-totals env.on_message_enabled _ s (insert_or_log-totals env _ _ _ _ s)
on_notice-totals env (asgard_fund_yggdrasil e) meta s = insert_or_log-totals env _ _ _ _ s
on_notice-totals env (bond e) meta s = insert_or_log-totals env _ _ _ _ s
on_notice-totals env (outbound e) meta s = insert_or_log-totals env _ _ _ _ s
on_notice-totals env (scheduled_outbound e) meta s = insert_or_log-totals env _ _ _ _ s
on_notice-totals env (refund e) meta s = insert_or_log-totals env _ _ _ _ s
on_notice-totals env (reserve e) meta s = insert_or_log-totals env _ _ _ _ s
on_notice-totals env (pending_liquidity e) meta s = insert_or_log-totals env _ _ _ _ s
on_notice-totals env (switch e) meta s = insert_or_log-totals env _ _ _ _ s
on_notice-totals env (transfer e) meta s =
    when-totals env.on_transfer_enabled _ s (insert_or_log-totals env _ _ _ _ s)
on_notice-totals env (streaming_swap_details e) meta s = insert_or_log-totals env _ _ _ _ s
on_notice-totals env (msg_send e) meta s = insert_or_log-totals env _ _ _ _ s
on_notice-totals env (deposit e) meta s = insert_or_log-totals env _ _ _ _ s
on_notice-totals env (thor_name_change e) meta s = insert_or_log-totals env _ _ _ _ s
on_notice-totals env (loan_open e) meta s = insert_or_log-totals env _ _ _ _ s
on_notice-totals env (loan_repayment e) meta s = insert_or_log-totals env _ _ _ _ s
on_notice-totals env (rune_pool_deposit e) meta s = insert_or_log-totals env _ _ _ _ s
on_notice-totals env (rune_pool_withdraw e) meta s = insert_or_log-totals env _ _ _ _ s
on_notice-totals env (cosm_wasm e) meta s = insert_or_log-totals env _ _ _ _ s
on_notice-totals env (instantiate e) meta s = insert_or_log-totals env _ _ _ _ s
on_notice-totals env (tcy_claim e) meta s = insert_or_log-totals env _ _ _ _ s
on_notice-totals env (tcy_distribution e) meta s = insert_or_log-totals env _ _ _ _ s
on_notice-totals env (tcy_stake e) meta s = insert_or_log-totals env _ _ _ _ s
on_notice-totals env (tcy_unstake e) meta s = insert_or_log-totals env _ _ _ _ s

-- A pool that is suspended loses its depths, and any other status leaves them alone.
abbrev pub pool_totals : Pool → RunningTotals → RunningTotals
pool_totals e t =
    if same (to_lower (str e.status)) (codes "suspended")
    then set_synth_depth (str e.asset) (pos 0)
        (set_rune_depth (str e.asset) (pos 0) (set_asset_depth (str e.asset) (pos 0) t))
    else t

abbrev swap_postings : {S : Type 0} → Env S → Swap → Metadata → List Posting
swap_postings env e meta =
    if is_two_sided (from_coin e) (to_coin e)
    then Swaps.Depths.fee_postings env e meta ++ (paid_in e (from_coin e) ++ paid_out e (to_coin e))
    else []

abbrev corrected_postings :
    {S : Type 0} → Env S → KeepOrDiscard × Withdraw → Metadata → RunningTotals → List Posting
corrected_postings env (discard, w) meta t = []
corrected_postings env (keep, w) meta t = withdraw_postings env w meta t

-- The specification: what the event makes of the depths.
abbrev pub expected_totals :
    {S : Type 0} → Env S → Corrections → Event → Metadata → RunningTotals → RunningTotals
expected_totals env c (add e) meta t = post (add_postings e) t
expected_totals env c (errata e) meta t = post (both e.asset e.asset_e8 e.rune_e8) t
expected_totals env c (gas e) meta t = post (both e.asset (neg64 e.asset_e8) e.rune_e8) t
expected_totals env c (pool e) meta t = pool_totals e t
expected_totals env c (rewards e) meta t = post (rewards_postings e.per_pool) t
expected_totals env c (slash e) meta t = post (slash_postings e.pool e.amounts) t
expected_totals env c (stake e) meta t = post (both e.pool e.asset_e8 e.rune_e8) t
expected_totals env c (pool_balance_change e) meta t = post (balance_postings e) t
expected_totals env c (mint_burn e) meta t = post (mint_burn_postings e) t
expected_totals env c (trade_account_deposit e) meta t =
    post (account_postings meta e.asset (neg64 e.amt_e8)) t
expected_totals env c (trade_account_withdraw e) meta t =
    post (account_postings meta e.asset e.amt_e8) t
expected_totals env c (secure_asset_deposit e) meta t =
    post (account_postings meta e.asset (neg64 e.amt_e8)) t
expected_totals env c (secure_asset_withdraw e) meta t =
    post (account_postings meta e.asset e.amt_e8) t
expected_totals env c (fee e) meta t =
    post (if corrections_fee_event_is_ok c e meta then Pools.Depths.fee_postings e else []) t
expected_totals env c (swap e) meta t = post (swap_postings env e meta) t
expected_totals env c (withdraw e) meta t =
    post (corrected_postings env (correct_withdraw c e meta) meta t) t
expected_totals env c (affiliate_fee e) meta t = t
expected_totals env c (set_mimir e) meta t = t
expected_totals env c (notice e) meta t = t

module _ {S : Type 0} (env : Env S) (never : NeverFails env) (c : Corrections) where
  on_pool-totals :
      (e : Pool) (meta : Metadata) (s : Recorder S)
      → (on_pool env e meta s).1.totals ≡ pool_totals e s.totals
  unfolding on_pool insert_with_meta
  on_pool-totals e meta s = elim (Bool-cases (same (to_lower (str e.status)) (codes "suspended"))) [
    | inl gone ↦ rw (gone, never _ _)
    | inr stays ↦ rw (stays, never _ _)
  ]

  corrected-totals :
      (r : KeepOrDiscard × Withdraw) (meta : Metadata) (s : Recorder S)
      → (unless_discarded env meta r s).1.totals
        ≡ post (corrected_postings env r meta s.totals) s.totals
  corrected-totals (keep, w) meta s = on_withdraw-post env w meta s
  corrected-totals (discard, w) meta s = refl

  -- The depths after an event are those of the specification, if no insertion fails: each event
  -- posts its amounts to the depths that it names, a suspension sets the three depths of its pool
  -- to 0, and an event that was rejected or discarded posts nothing.
  pub on_event-totals :
      (e : Event) (meta : Metadata) (s : Recorder S)
      → (on_event env c e meta s).1.totals ≡ expected_totals env c e meta s.totals
  unfolding on_event
  on_event-totals (add e) meta s = on_add-post env never e meta s
  on_event-totals (errata e) meta s = on_errata-post env never e meta s
  on_event-totals (gas e) meta s = on_gas-post env never e meta s
  on_event-totals (pool e) meta s = on_pool-totals e meta s
  on_event-totals (rewards e) meta s = on_rewards-post env never e meta s
  on_event-totals (slash e) meta s = on_slash-post env e meta s
  on_event-totals (stake e) meta s = on_stake-post env never e meta s
  on_event-totals (pool_balance_change e) meta s = on_pool_balance_change-post env e meta s
  on_event-totals (mint_burn e) meta s = on_mint_burn-post env e meta s
  on_event-totals (trade_account_deposit e) meta s = on_trade_account_deposit-post env e meta s
  on_event-totals (trade_account_withdraw e) meta s = on_trade_account_withdraw-post env e meta s
  on_event-totals (secure_asset_deposit e) meta s = on_secure_asset_deposit-post env e meta s
  on_event-totals (secure_asset_withdraw e) meta s = on_secure_asset_withdraw-post env e meta s
  on_event-totals (fee e) meta s = elim (Bool-cases (corrections_fee_event_is_ok c e meta)) [
    | inl ok ↦ rw ok (on_fee-post env e meta s)
    | inr refused ↦ rw refused
  ]
  on_event-totals (swap e) meta s = elim (Bool-cases (is_two_sided (from_coin e) (to_coin e))) [
    | inl ok ↦ rw ok (on_swap-post env never e meta s ok)
    | inr refused ↦ rw refused (on_swap_rejects env e meta s refused).0
  ]
  on_event-totals (withdraw e) meta s = corrected-totals (correct_withdraw c e meta) meta s
  on_event-totals (affiliate_fee e) meta s = on_affiliate_fee-totals env e meta s
  on_event-totals (set_mimir e) meta s = on_set_mimir-totals env e meta s
  on_event-totals (notice e) meta s = on_notice-totals env e meta s
