-- ===== src/Record/Corrections/Mainnet.antt =====
-- internal/fetch/record/correctmainnet.go and correctwithdrawimploss.go: the corrections of the chain
-- that started in 2021, and their registration. The hash of a withdrawal (fnv) and the names that are
-- read from a file are arguments.
use midgard.Base.{
  ℕ, Bool, true, false, ◌&&◌, Option, none, some, List, [], ◌∷◌, ◌++◌, if◌then◌else◌,
}
use midgard.Base.Bytes.{Bytes, codes, same, str, split2}
use midgard.Base.Int.{ℤ, pos, ltb_ℤ, int_beq, int_eq}
use midgard.Base.Maps.{Map, lookup}
use midgard.Util.Numbers.{int_str, nat_str}
use midgard.Record.Events.{Swap, Withdraw, Stake, Burn, Coinbase}
use midgard.Record.Monad.{Metadata, Env, Action, ⊤, ◌>>◌, skip}
use midgard.Record.Notices.Accounts.{ThorNameChange, on_thor_name_change}
use midgard.Record.Notices.Nodes.{UpdateNodeAccountStatus, on_update_node_account_status}
use midgard.Record.Notices.Transfers.{Transfer, on_transfer}
use midgard.Record.Pools.{on_stake, on_burn, on_coinbase}
use midgard.Record.Swaps.{on_swap}
use midgard.Record.Withdrawals.{on_withdraw}
use midgard.Record.Corrections.{
  KeepOrDiscard, keep, discard, WithdrawCorrection, add_withdraw_correction, Corrections,
  AddEventsFunc, add_events, register_all, artificial_deposits, artificial_balance_changes,
}
use midgard.Record.Corrections.Tables.Balances.{Correction, height_corrections}
use midgard.Record.Corrections.Tables.Liquidity.{
  AdditionalWithdraw, MissingAdd, RemovedLiquidity, missing_withdraws, removed_liquidity,
  missing_adds,
}
use midgard.Record.Corrections.Tables.Pools.{
  mainnet_artificial_depth_changes, burned_synths, mint_synths,
}
use midgard.Record.Corrections.Tables.Units.{
  WithdrawUnitCorrection, withdraw_unit_corrections_mainnet_202104,
  add_instead_withdraw_map_mainnet_202104,
}
pub mod Changes

-- The units of a withdrawal that is in the table of its height.
abbrev pub with_actual_units : Option WithdrawUnitCorrection → Withdraw → Withdraw
with_actual_units none w = w
with_actual_units (some c) w =
    if same c.tx (str w.tx) then record w { stake_units = c.actual_units } else w

unfoldable pub correct_withdaws_imp_loss : Map ℤ WithdrawUnitCorrection → WithdrawCorrection
correct_withdaws_imp_loss table w meta =
    (keep, with_actual_units (lookup meta.block_height table) w)

unfoldable pub correct_withdaws_forwarded_asset : WithdrawCorrection
correct_withdaws_forwarded_asset w meta = (keep, record w { asset_e8 = pos 0 })

unfoldable pub correct_withdaws_mainnet_filter : WithdrawCorrection
correct_withdaws_mainnet_filter w meta =
    if int_beq w.stake_units (pos 0) && ltb_ℤ meta.block_height (pos 1_000_000)
    then (discard, w)
    else (keep, w)

-- A correction at each of the heights of a table.
unfoldable pub add_for_heights :
    {A : Type 0}
    → Map ℤ A
    → WithdrawCorrection
    → Map ℤ WithdrawCorrection
    → Map ℤ WithdrawCorrection
add_for_heights [] f m = m
add_for_heights ((height, _) ∷ rest) f m =
    add_for_heights rest f (add_withdraw_correction height f m)

unfoldable pub load_mainnet_withdraw_corrections :
    Map ℤ WithdrawCorrection → Map ℤ WithdrawCorrection
unfolding add_for_heights
load_mainnet_withdraw_corrections m =
    add_withdraw_correction (pos 110_069) correct_withdaws_forwarded_asset (
      add_withdraw_correction (pos 29_113) correct_withdaws_forwarded_asset (
        add_for_heights withdraw_unit_corrections_mainnet_202104
          (correct_withdaws_imp_loss withdraw_unit_corrections_mainnet_202104) m))

abbrev no_withdraw : Withdraw
no_withdraw = record {
  tx = none;
  chain = none;
  from_addr = none;
  to_addr = none;
  asset = none;
  asset_e8 = pos 0;
  emit_asset_e8 = pos 0;
  emit_rune_e8 = pos 0;
  memo = none;
  pool = none;
  stake_units = pos 0;
  basis_points = pos 0;
  asymmetry = 0;
  imp_loss_protection_e8 = pos 0;
}

-- What is hashed: `fmt.Fprint` puts a space between two operands of which none is a string.
abbrev pub hashed_text : AdditionalWithdraw → Bytes
hashed_text w =
    w.reason
    ++ (w.pool
        ++ (w.from_addr
            ++ (int_str w.rune_e8 ++ (b' ' ∷ int_str w.asset_e8 ++ b' ' ∷ int_str w.units))))

unfoldable pub additional_withdraw : (Bytes → ℕ) → AdditionalWithdraw → Withdraw
additional_withdraw fnv32a w = record no_withdraw {
  from_addr = some w.from_addr;
  chain = some (split2 b'.' w.pool).0;
  pool = some w.pool;
  asset = some (codes "THOR.RUNE");
  to_addr = some w.reason;
  memo = some w.reason;
  tx = some (nat_str (fnv32a (hashed_text w)));
  emit_rune_e8 = w.rune_e8;
  emit_asset_e8 = w.asset_e8;
  stake_units = w.units;
}

unfoldable pub removed_withdraw : RemovedLiquidity → Withdraw
removed_withdraw c = record no_withdraw {
  basis_points = pos 10_000;
  chain = some (codes "THOR");
  pool = some (codes "ETH.HEGIC-0X584BC13C7D411C00C01A62E8019472DE68768430");
  asset = some (codes "THOR.RUNE");
  to_addr = some [];
  memo = some [];
  tx = some (codes "0000000000000000000000000000000000000000000000000000000000000000");
  from_addr = some c.from_addr;
  stake_units = c.stake_units;
}

-- The two refunds that were not seen, as swaps: they differ in the hash, the amount and the memo.
unfoldable pub missing_refund : Bytes → ℤ → Bytes → Swap
missing_refund tx from_e8 memo = record {
  tx = some tx;
  chain = some (codes "ETH");
  from_addr = some (codes "0x094a8C7478fCcb34bc84577C1230DA8E7913B7D5");
  to_addr = some (codes "0xe4ddca21881bac219af7f217703db0475d2a9f02");
  from_asset = some (codes "ETH.ETH");
  from_e8 = from_e8;
  to_asset = some (codes "THOR.RUNE");
  to_e8 = pos 450_000_000_000;
  memo = some memo;
  pool = some (codes "ETH.ETH");
  to_e8_min = pos 0;
  swap_slip_bp = pos 0;
  liq_fee_e8 = pos 0;
  liq_fee_in_rune_e8 = pos 0;
  streaming_quantity = pos 0;
  streaming_count = pos 0;
}

unfoldable pub missing_stake : MissingAdd → Stake
missing_stake a = record {
  base = record {
    pool = some (codes "ETH.ETH");
    asset_tx = none;
    asset_chain = none;
    asset_addr = none;
    asset_e8 = pos 0;
    rune_tx = none;
    rune_chain = none;
    rune_addr = some (codes "thor1hyarrh5hslcg3q5pgvl6mp6gmw92c4tpzdsjqg");
    memo = none;
    rune_e8 = a.additional_rune;
  };
  stake_units = a.additional_units;
}

-- A name that was registered before, with its address.
unfoldable pub preregistered : Bytes → Bytes → ThorNameChange
preregistered name address = record {
  name = some name;
  chain = some (codes "THOR");
  address = some address;
  registration_fee_e8 = pos 0;
  fund_amount_e8 = pos 0;
  expire_height = pos 10_787_995;
  owner = some address;
  tx_id = none;
  memo = none;
  sender = none;
}

module _ {S : Type 0} (env : Env S) where
  -- A handler for each element.
  unfoldable pub run_each : {A : Type 0} → (A → Metadata → Action S ⊤) → List A → AddEventsFunc env
  run_each f [] meta = skip
  run_each f (a ∷ rest) meta = f a meta >> run_each f rest meta

  abbrev pub run_found : {A : Type 0} → (A → AddEventsFunc env) → Option A → AddEventsFunc env
  run_found f none meta = skip
  run_found f (some a) meta = f a meta

  abbrev pub balance_transfer : Correction → AddEventsFunc env
  balance_transfer c = on_transfer env (record {
    from_addr = some c.from_addr;
    to_addr = some c.to_addr;
    asset = some c.asset;
    amount_e8 = c.amount_e8;
  })

  -- One registration for each element, all at one height.
  unfoldable pub add_each :
      {A : Type 0}
      → ℤ
      → (A → AddEventsFunc env)
      → List A
      → Map ℤ (AddEventsFunc env)
      → Map ℤ (AddEventsFunc env)
  add_each height f [] m = m
  add_each height f (a ∷ rest) m = add_each height f rest (add_events env height (f a) m)

  unfoldable pub add_missing_withdraws :
      (Bytes → ℕ)
      → List (ℤ × AdditionalWithdraw)
      → Map ℤ (AddEventsFunc env)
      → Map ℤ (AddEventsFunc env)
  add_missing_withdraws fnv32a [] m = m
  add_missing_withdraws fnv32a ((height, w) ∷ rest) m =
      add_missing_withdraws fnv32a rest
        (add_events env height (on_withdraw env (additional_withdraw fnv32a w)) m)

  -- The additional events, in the order of `loadMainnet202104Corrections`.
  unfoldable pub load_mainnet_additional_events :
      (Bytes → ℕ) → List (Bytes × Bytes) → Map ℤ (AddEventsFunc env) → Map ℤ (AddEventsFunc env)
  load_mainnet_additional_events fnv32a names m₀ =
      let m₁ =
        register_all env add_instead_withdraw_map_mainnet_202104
          (artificial_deposits env add_instead_withdraw_map_mainnet_202104) m₀ in
      let m₂ =
        register_all env missing_adds
          (λ meta.
            run_found (λ a. on_stake env (missing_stake a)) (lookup meta.block_height missing_adds)
              meta)
          m₁ in
      let m₃ =
        add_events env (pos 12_824)
          (on_update_node_account_status env (record {
            node_addr = some (codes "thor1xfqaqhk5r6x9hdwlvmye0w9agv8ynljacmxulf");
            former = some (codes "Ready");
            current = some (codes "Active");
          }))
          m₂ in
      let m₄ = add_missing_withdraws fnv32a missing_withdraws m₃ in
      let m₅ =
        add_events env (pos 7_171_200)
          (run_each (λ c. on_withdraw env (removed_withdraw c)) removed_liquidity) m₄ in
      let m₆ =
        register_all env height_corrections
          (λ meta.
            run_found (run_each balance_transfer) (lookup meta.block_height height_corrections)
              meta)
          m₅ in
      let m₇ =
        add_events env (pos 9_187_906)
          (on_swap env (
            missing_refund
              (codes "EE31ACC02D631DC3220990A1DD2E9030F4CFC227A61E975B5DEF1037106D1CCD")
              (pos 540_874_489)
              (codes "REFUND:B07A6B1B40ADBA2E404D9BCE1BEF6EDE6F70AD135E83806E4F4B6863CF637D0B")))
          m₆ in
      let m₈ =
        add_events env (pos 9_187_906)
          (on_swap env (
            missing_refund
              (codes "0A61B99DC6B1A4499A72238AC767C09C310326875F9E7B870C908357B09202E9")
              (pos 541_086_437)
              (codes "REFUND:4795A3C036322493A9692B5D44E7D4FF29C3E2C1E848637184E98FE8B05FD06E")))
          m₇ in
      let m₉ =
        add_each (pos 5_531_995)
          (λ (n : Bytes × Bytes). on_thor_name_change env (preregistered n.0 n.1)) names m₈ in
      let m₁₀ = add_each (pos 11_782_453) (on_burn env) burned_synths m₉ in
      let m₁₁ = add_each (pos 12_145_978) (on_coinbase env) mint_synths m₁₀ in
      register_all env mainnet_artificial_depth_changes
        (artificial_balance_changes env mainnet_artificial_depth_changes
          (codes "Midgard fix on mainnet"))
        m₁₁
