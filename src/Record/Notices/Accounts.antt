-- ===== src/Record/Notices/Accounts.antt =====
-- internal/fetch/record: the events of names, loans, contracts and stakes, which become one row each.
use midgard.Base.{List, [], ◌∷◌}
use midgard.Base.Bytes.{Bytes, Slice}
use midgard.Base.Int.{ℤ}
use midgard.Record.Monad.{int, json, slice, Metadata, Env, Action, ⊤, insert_or_log}

pub record ThorNameChange : Type 0 where
  pub name : Slice
  pub chain : Slice
  pub address : Slice
  pub registration_fee_e8 : ℤ
  pub fund_amount_e8 : ℤ
  pub expire_height : ℤ
  pub owner : Slice
  pub tx_id : Slice
  pub memo : Slice
  pub sender : Slice

pub record LoanOpen : Type 0 where
  pub collateral_deposited : ℤ
  pub debt_issued : ℤ
  pub collateral_asset : Slice
  pub collateralization_ratio : ℤ
  pub owner : Slice
  pub target_asset : Slice
  pub tx_id : Slice

pub record LoanRepayment : Type 0 where
  pub collateral_withdrawn : ℤ
  pub debt_repaid : ℤ
  pub collateral_asset : Slice
  pub owner : Slice
  pub tx_id : Slice

pub record RunePoolDeposit : Type 0 where
  pub tx : Slice
  pub rune_addr : Slice
  pub rune_amt_e8 : ℤ
  pub units : ℤ

pub record RunePoolWithdraw : Type 0 where
  pub tx : Slice
  pub rune_addr : Slice
  pub rune_amt_e8 : ℤ
  pub basis_points : ℤ
  pub affiliate_bps : ℤ
  pub affiliate_amt : ℤ
  pub affiliate_addr : Slice
  pub units : ℤ

pub record CosmWasmEvent : Type 0 where
  pub tx_id : Slice
  pub contract_address : Slice
  pub sender : Slice
  pub type : Slice
  pub msg : Slice
  pub funds : Slice
  pub attributes : List (Bytes × Bytes)

pub record Instantiate : Type 0 where
  pub tx_id : Slice
  pub contract_address : Slice
  pub label : Slice
  pub code_id : ℤ
  pub sender : Slice
  pub admin : Slice
  pub msg : Slice
  pub funds : Slice

pub record TcyClaim : Type 0 where
  pub tx_id : Slice
  pub rune_addr : Slice
  pub l1_asset : Slice
  pub l1_addr : Slice
  pub memo : Slice
  pub tcy_amt_e8 : ℤ

pub record TcyDistribution : Type 0 where
  pub rune_addr : Slice
  pub rune_amt_e8 : ℤ

pub record TcyStake : Type 0 where
  pub tx_id : Slice
  pub amount : ℤ
  pub address : Slice
  pub memo : Slice

pub record TcyUnstake : Type 0 where
  pub tx_id : Slice
  pub amount : ℤ
  pub address : Slice
  pub memo : Slice

module _ {S : Type 0} (env : Env S) where
  unfoldable pub on_thor_name_change : ThorNameChange → Metadata → Action S ⊤
  on_thor_name_change e meta =
      insert_or_log env "thorname_change_events" meta
        ("name" ∷ "chain" ∷ "address" ∷ "registration_fee_e8" ∷ "fund_amount_e8" ∷ "expire"
          ∷ "owner" ∷ "tx_id" ∷ "memo" ∷ "sender" ∷ [])
        (slice e.name
          ∷ slice e.chain
          ∷ slice e.address
          ∷ int e.registration_fee_e8
          ∷ int e.fund_amount_e8
          ∷ int e.expire_height
          ∷ slice e.owner
          ∷ slice e.tx_id
          ∷ slice e.memo
          ∷ slice e.sender
          ∷ [])

  unfoldable pub on_loan_open : LoanOpen → Metadata → Action S ⊤
  on_loan_open e meta =
      insert_or_log env "loan_open_events" meta
        ("owner" ∷ "collateral_deposited" ∷ "debt_issued" ∷ "collateralization_ratio"
          ∷ "collateral_asset" ∷ "target_asset" ∷ "tx_id" ∷ [])
        (slice e.owner
          ∷ int e.collateral_deposited
          ∷ int e.debt_issued
          ∷ int e.collateralization_ratio
          ∷ slice e.collateral_asset
          ∷ slice e.target_asset
          ∷ slice e.tx_id
          ∷ [])

  unfoldable pub on_loan_repayment : LoanRepayment → Metadata → Action S ⊤
  on_loan_repayment e meta =
      insert_or_log env "loan_repayment_events" meta
        ("owner" ∷ "collateral_withdrawn" ∷ "debt_repaid" ∷ "collateral_asset" ∷ "tx_id" ∷ [])
        (slice e.owner
          ∷ int e.collateral_withdrawn
          ∷ int e.debt_repaid
          ∷ slice e.collateral_asset
          ∷ slice e.tx_id
          ∷ [])

  unfoldable pub on_rune_pool_deposit : RunePoolDeposit → Metadata → Action S ⊤
  on_rune_pool_deposit e meta =
      insert_or_log env "rune_pool_deposit_events" meta
        ("amount_e8" ∷ "rune_addr" ∷ "tx_id" ∷ "units" ∷ [])
        (int e.rune_amt_e8 ∷ slice e.rune_addr ∷ slice e.tx ∷ int e.units ∷ [])

  unfoldable pub on_rune_pool_withdraw : RunePoolWithdraw → Metadata → Action S ⊤
  on_rune_pool_withdraw e meta =
      insert_or_log env "rune_pool_withdraw_events" meta
        ("amount_e8" ∷ "rune_addr" ∷ "tx_id" ∷ "units" ∷ "basis_points" ∷ "affiliate_basis_pts"
          ∷ "affiliate_amount_e8" ∷ "affiliate_addr" ∷ [])
        (int e.rune_amt_e8
          ∷ slice e.rune_addr
          ∷ slice e.tx
          ∷ int e.units
          ∷ int e.basis_points
          ∷ int e.affiliate_bps
          ∷ int e.affiliate_amt
          ∷ slice e.affiliate_addr
          ∷ [])

  unfoldable pub on_cosm_wasm : CosmWasmEvent → Metadata → Action S ⊤
  on_cosm_wasm e meta =
      insert_or_log env "wasm_contracts_events" meta
        ("tx_id" ∷ "contract_address" ∷ "contract_type" ∷ "sender" ∷ "attributes" ∷ "msg" ∷ "funds"
          ∷ [])
        (slice e.tx_id
          ∷ slice e.contract_address
          ∷ slice e.type
          ∷ slice e.sender
          ∷ json e.attributes
          ∷ slice e.msg
          ∷ slice e.funds
          ∷ [])

  unfoldable pub on_instantiate : Instantiate → Metadata → Action S ⊤
  on_instantiate e meta =
      insert_or_log env "instantiate_events" meta
        ("tx_id" ∷ "admin_address" ∷ "code_id" ∷ "sender" ∷ "label" ∷ "msg" ∷ "funds"
          ∷ "contract_address" ∷ [])
        (slice e.tx_id
          ∷ slice e.admin
          ∷ int e.code_id
          ∷ slice e.sender
          ∷ slice e.label
          ∷ slice e.msg
          ∷ slice e.funds
          ∷ slice e.contract_address
          ∷ [])

  unfoldable pub on_tcy_claim : TcyClaim → Metadata → Action S ⊤
  on_tcy_claim e meta =
      insert_or_log env "tcy_claim_events" meta
        ("tx_id" ∷ "rune_address" ∷ "l1_address" ∷ "asset" ∷ "tcy_amt" ∷ "memo" ∷ [])
        (slice e.tx_id
          ∷ slice e.rune_addr
          ∷ slice e.l1_addr
          ∷ slice e.l1_asset
          ∷ int e.tcy_amt_e8
          ∷ slice e.memo
          ∷ [])

  unfoldable pub on_tcy_distribution : TcyDistribution → Metadata → Action S ⊤
  on_tcy_distribution e meta =
      insert_or_log env "tcy_distribution_events" meta ("rune_address" ∷ "rune_amt" ∷ [])
        (slice e.rune_addr ∷ int e.rune_amt_e8 ∷ [])

  unfoldable pub on_tcy_stake : TcyStake → Metadata → Action S ⊤
  on_tcy_stake e meta =
      insert_or_log env "tcy_stake_events" meta ("tx_id" ∷ "amount" ∷ "rune_address" ∷ "memo" ∷ [])
        (slice e.tx_id ∷ int e.amount ∷ slice e.address ∷ slice e.memo ∷ [])

  unfoldable pub on_tcy_unstake : TcyUnstake → Metadata → Action S ⊤
  on_tcy_unstake e meta =
      insert_or_log env "tcy_unstake_events" meta
        ("tx_id" ∷ "amount" ∷ "rune_address" ∷ "memo" ∷ [])
        (slice e.tx_id ∷ int e.amount ∷ slice e.address ∷ slice e.memo ∷ [])
