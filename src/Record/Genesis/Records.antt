-- ===== src/Record/Genesis/Records.antt =====
-- internal/fetch/record/genesisrecord.go. The metadata are an argument and a result, since the
-- program changes them through a pointer.
use midgard.Base.{Bool, true, ◌||◌, Option, none, some, List, [], ◌∷◌, if◌then◌else◌}
use midgard.Base.Bytes.{Bytes, Slice, codes, same, to_upper, to_lower}
use midgard.Base.Int.{pos, add64, ltb_ℤ, int_beq}
use midgard.Util.Asset.{asset_from_string}
use midgard.Util.Memo.{convert_synth_pool_to_native}
use midgard.Util.Numbers.{int_str}
use midgard.Db.EventId.{begin_block_events}
use midgard.Record.ChainInfo.{set_pool_status, set_mimir_status}
use midgard.Record.Coin.{native_switch}
use midgard.Record.Monad.{
  text, int, bool, slice, Metadata, Env, Action, ⊤, ◌>>=◌, ◌>>◌, skip, pure, log_event_parse_error,
  change_info, get_depths, add_asset, add_rune, add_synth, when, insert_or_log,
}
use midgard.Record.Genesis.State.{
  Coin, Balance, GenesisPool, Lp, ThorNameAlias, ThorName, GenesisNode, Loan, Mimir,
}

unfoldable pub increase_metadata : Metadata → Metadata
increase_metadata m = record m {
  event_id = record m.event_id { event_index = add64 m.event_id.event_index (pos 1) };
}

-- A loop whose rounds each end with `increaseMetadata`.
unfoldable pub each_increased :
    {S A : Type 0} → (A → Metadata → Action S ⊤) → List A → Metadata → Action S Metadata
each_increased body [] m = pure m
each_increased body (a ∷ rest) m = body a m >> each_increased body rest (increase_metadata m)

-- `WrapString`: an empty text is NULL.
unfoldable pub wrap_string : Bytes → Slice
wrap_string [] = none
wrap_string (c ∷ cs) = some (c ∷ cs)

abbrev pub supply_pool : Coin → Bytes
supply_pool e =
    if (asset_from_string e.denom).synth
    then convert_synth_pool_to_native (to_upper e.denom)
    else to_upper e.denom

-- `none` is an error.
unfoldable pub parse_cosmos_denom : Bytes → Option Bytes
parse_cosmos_denom [] = none
parse_cosmos_denom (c ∷ cs) =
    if same (c ∷ cs) (codes "rune") then some native_switch else some (to_upper (c ∷ cs))

-- `tm := m` copies the pointer: the metadata themselves get the height and the fresh event id.
unfoldable pub at_last_open : Loan → Metadata → Metadata
at_last_open e m = record m {
  block_height = e.last_open_height;
  event_id = record {
    block_height = e.last_open_height;
    location = begin_block_events;
    tx_index = pos 0;
    event_index = pos 0;
  };
}

module _ {S : Type 0} (env : Env S) where
  unfoldable pub record_gen_pool : GenesisPool → Metadata → Action S ⊤
  record_gen_pool e m = do
    insert_or_log env "pool_balance_change_events" m
        ("asset" ∷ "rune_amt" ∷ "rune_add" ∷ "asset_amt" ∷ "asset_add" ∷ "reason" ∷ [])
        (text e.asset
          ∷ int e.balance_rune
          ∷ bool true
          ∷ int e.balance_asset
          ∷ bool true
          ∷ text (codes "genesisAdd")
          ∷ [])
    insert_or_log env "pool_events" m ("asset" ∷ "status" ∷ []) (text e.asset ∷ text e.status ∷ [])
    change_info (set_pool_status e.asset e.status)
    add_asset e.asset e.balance_asset
    add_rune e.asset e.balance_rune

  abbrev pub record_gen_pools : List GenesisPool → Metadata → Action S Metadata
  record_gen_pools = each_increased record_gen_pool

  unfoldable pub record_gen_supplies : List Coin → Action S ⊤
  record_gen_supplies [] = skip
  record_gen_supplies (e ∷ rest) = add_synth (supply_pool e) e.amount >> record_gen_supplies rest

  -- On an error it goes on with the empty text.
  abbrev pub denom_or_log : Option Bytes → Action S Bytes
  denom_or_log none = log_event_parse_error "failed to parse denom from genesis" >> pure []
  denom_or_log (some asset) = pure asset

  unfoldable pub record_gen_coin : Bytes → Coin → Metadata → Action S ⊤
  unfolding parse_cosmos_denom
  record_gen_coin address c m = do
    asset ← denom_or_log (parse_cosmos_denom c.denom)
    insert_or_log env "transfer_events" m ("from_addr" ∷ "to_addr" ∷ "asset" ∷ "amount_e8" ∷ [])
        (text (codes "genesis") ∷ text address ∷ text asset ∷ int c.amount ∷ [])

  unfoldable pub record_gen_balances : List Balance → Metadata → Action S Metadata
  record_gen_balances [] m = pure m
  record_gen_balances (b ∷ rest) m = do
    when (same b.address []) (log_event_parse_error "failed to get the account address")
    m' ← each_increased (record_gen_coin b.address) b.coins m
    record_gen_balances rest m'

  unfoldable pub record_gen_transfers : List Balance → Metadata → Action S Metadata
  unfolding record_gen_balances
  record_gen_transfers balances m =
      if env.on_transfer_enabled then record_gen_balances balances m else pure m

  abbrev pub is_pending : Lp → Bool
  is_pending e = ltb_ℤ (pos 0) e.pending_asset || ltb_ℤ (pos 0) e.pending_rune

  unfoldable pub record_gen_pending : Lp → Metadata → Action S ⊤
  record_gen_pending e m =
      insert_or_log env "pending_liquidity_events" m
        ("pool" ∷ "asset_tx" ∷ "asset_chain" ∷ "asset_addr" ∷ "asset_e8" ∷ "rune_tx" ∷ "rune_addr"
          ∷ "rune_e8" ∷ "pending_type" ∷ [])
        (text e.pool
          ∷ text (codes "genesisTx")
          ∷ text (asset_from_string e.pool).chain
          ∷ slice (wrap_string e.asset_addr)
          ∷ int e.asset_e8
          ∷ text (codes "genesisTx")
          ∷ slice (wrap_string e.rune_addr)
          ∷ int e.rune_e8
          ∷ text (codes "add")
          ∷ [])

  unfoldable pub record_gen_stake : Lp → Metadata → Action S ⊤
  record_gen_stake e m = do
    depths ← get_depths e.pool
    let asset_in_rune =
        if int_beq depths.asset_e8 (pos 0)
        then pos 0
        else env.in_rune e.asset_e8 depths.rune_e8 depths.asset_e8
    insert_or_log env "stake_events" m
        ("pool" ∷ "asset_tx" ∷ "asset_chain" ∷ "asset_addr" ∷ "asset_e8" ∷ "stake_units" ∷ "rune_tx"
          ∷ "rune_addr" ∷ "rune_e8" ∷ "_asset_in_rune_e8" ∷ [])
        (text e.pool
          ∷ text (codes "genesisTx")
          ∷ text (asset_from_string e.pool).chain
          ∷ slice (wrap_string e.asset_addr)
          ∷ int e.asset_e8
          ∷ int e.units
          ∷ text (codes "genesisTx")
          ∷ slice (wrap_string e.rune_addr)
          ∷ int e.rune_e8
          ∷ int asset_in_rune
          ∷ [])

  unfoldable pub record_gen_lp : Lp → Metadata → Action S ⊤
  unfolding record_gen_pending record_gen_stake
  record_gen_lp e m = do
    when (is_pending e) (record_gen_pending e m)
    when (ltb_ℤ (pos 0) e.units) (record_gen_stake e m)

  abbrev pub record_gen_lps : List Lp → Metadata → Action S Metadata
  record_gen_lps = each_increased record_gen_lp

  -- The chains whose addresses have no case are an argument.
  unfoldable pub record_gen_alias :
      (Bytes → Bool) → ThorName → ThorNameAlias → Metadata → Action S ⊤
  record_gen_alias case_insensitive e a m =
      insert_or_log env "thorname_change_events" m
        ("name" ∷ "chain" ∷ "address" ∷ "registration_fee_e8" ∷ "fund_amount_e8" ∷ "expire"
          ∷ "owner" ∷ [])
        (text e.name
          ∷ text a.chain
          ∷ text (if case_insensitive a.chain then to_lower a.address else a.address)
          ∷ int (pos 0)
          ∷ int (pos 0)
          ∷ int e.expire_block_height
          ∷ text e.owner
          ∷ [])

  unfoldable pub record_gen_thor_names :
      (Bytes → Bool) → List ThorName → Metadata → Action S Metadata
  record_gen_thor_names case_insensitive [] m = pure m
  record_gen_thor_names case_insensitive (e ∷ rest) m = do
    m' ← each_increased (record_gen_alias case_insensitive e) e.aliases m
    record_gen_thor_names case_insensitive rest m'

  unfoldable pub record_gen_node : GenesisNode → Metadata → Action S ⊤
  record_gen_node e m = do
    insert_or_log env "update_node_account_status_events" m
        ("node_addr" ∷ "former" ∷ "current" ∷ [])
        (text e.node_address ∷ text [] ∷ text e.status ∷ [])
    insert_or_log env "bond_events" m
        ("tx" ∷ "chain" ∷ "from_addr" ∷ "to_addr" ∷ "asset" ∷ "asset_e8" ∷ "memo" ∷ "bond_type"
          ∷ "e8" ∷ [])
        (text (codes "genesisTx")
          ∷ text (codes "THOR")
          ∷ text e.bond_addr
          ∷ text []
          ∷ text (codes "THOR.RUNE")
          ∷ int (pos 0)
          ∷ text []
          ∷ text (codes "bond_paid")
          ∷ int e.bond_e8
          ∷ [])

  abbrev pub record_gen_nodes : List GenesisNode → Metadata → Action S Metadata
  record_gen_nodes = each_increased record_gen_node

  unfoldable pub record_gen_loan : Loan → Metadata → Action S ⊤
  record_gen_loan e m = do
    insert_or_log env "loan_open_events" m
        ("owner" ∷ "collateral_deposited" ∷ "debt_issued" ∷ "collateralization_ratio"
          ∷ "collateral_asset" ∷ "target_asset" ∷ [])
        (text e.owner
          ∷ int e.collateral_deposited
          ∷ int e.debt_issued
          ∷ int (pos 0)
          ∷ text e.asset
          ∷ text []
          ∷ [])
    when (ltb_ℤ (pos 0) e.collateral_withdrawn || ltb_ℤ (pos 0) e.debt_repaid) (
        insert_or_log env "loan_repayment_events" m
          ("owner" ∷ "collateral_withdrawn" ∷ "debt_repaid" ∷ "collateral_asset" ∷ [])
          (text e.owner ∷ int e.collateral_withdrawn ∷ int e.debt_repaid ∷ text e.asset ∷ []))

  unfoldable pub record_gen_loans : List Loan → Metadata → Action S Metadata
  unfolding at_last_open
  record_gen_loans [] m = pure m
  record_gen_loans (e ∷ rest) m =
      record_gen_loan e (at_last_open e m)
      >> record_gen_loans rest (increase_metadata (at_last_open e m))

  unfoldable pub record_gen_mimir : Mimir → Metadata → Action S ⊤
  record_gen_mimir e m = do
    insert_or_log env "set_mimir_events" m ("key" ∷ "value" ∷ [])
        (text e.key ∷ text (int_str e.value) ∷ [])
    change_info (set_mimir_status e.key e.value)

  abbrev pub record_gen_mimirs : List Mimir → Metadata → Action S Metadata
  record_gen_mimirs = each_increased record_gen_mimir
