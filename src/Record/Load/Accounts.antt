-- ===== src/Record/Load/Accounts.antt =====
-- internal/fetch/record/event.go: the readers of the events of names, loans and the RUNE pool.
use midgard.Base.{◌||◌, none, some, List, if◌then◌else◌}
use midgard.Base.Bytes.{str}
use midgard.Base.Int.{pos}
use midgard.Record.Blocks.{Attribute}
use midgard.Record.Notices.Accounts.{
  ThorNameChange, LoanOpen, LoanRepayment, RunePoolDeposit, RunePoolWithdraw,
}
use midgard.Record.Load.Reader.{◌>>=◌, Settings, Load, ok, unknown, is, set, each, to_lower_bytes}
use midgard.Record.Load.Texts.{number}

unfoldable pub thor_name_change_attribute : Attribute → ThorNameChange → Load ThorNameChange
thor_name_change_attribute a e =
    if is a "name"
    then ok (record e { name = some a.value })
    else if is a "chain"
    then ok (record e { chain = some a.value })
    else if is a "address"
    then ok (record e { address = some a.value })
    else if is a "registration_fee"
    then set (number "malformed registration_fee" a.value)
        (λ v. record e { registration_fee_e8 = v })
    else if is a "fund_amount"
    then set (number "malformed fund_amount" a.value) (λ v. record e { fund_amount_e8 = v })
    else if is a "expire"
    then set (number "malformed expire_height" a.value) (λ v. record e { expire_height = v })
    else if is a "owner"
    then ok (record e { owner = some a.value })
    else if is a "tx_id"
    then ok (record e { tx_id = some a.value })
    else if is a "memo"
    then ok (record e { memo = some a.value })
    else if is a "signer"
    then ok (record e { sender = some a.value })
    else unknown "unknown thorname event attribute" e

unfoldable pub load_thor_name_change : Settings → List Attribute → Load ThorNameChange
load_thor_name_change cfg attrs = do
  e ← each thor_name_change_attribute attrs (record {
    name = none;
    chain = none;
    address = none;
    registration_fee_e8 = pos 0;
    fund_amount_e8 = pos 0;
    expire_height = pos 0;
    owner = none;
    tx_id = none;
    memo = none;
    sender = none;
  })
  ok (
      if cfg.case_insensitive_chains (str e.chain)
      then record e { address = to_lower_bytes e.address }
      else e)

unfoldable pub loan_open_attribute : Attribute → LoanOpen → Load LoanOpen
loan_open_attribute a e =
    if is a "collateral_up" || is a "collateral_deposited"
    then set (number "malformed value" a.value) (λ v. record e { collateral_deposited = v })
    else if is a "debt_up" || is a "debt_issued"
    then set (number "malformed value" a.value) (λ v. record e { debt_issued = v })
    else if is a "collateralization_ratio"
    then set (number "malformed value" a.value) (λ v. record e { collateralization_ratio = v })
    else if is a "collateral_asset"
    then ok (record e { collateral_asset = some a.value })
    else if is a "target_asset"
    then ok (record e { target_asset = some a.value })
    else if is a "owner"
    then ok (record e { owner = some a.value })
    else if is a "tx_id"
    then ok (record e { tx_id = some a.value })
    else unknown "unknown loan_open event attribute" e

unfoldable pub load_loan_open : List Attribute → Load LoanOpen
load_loan_open attrs = each loan_open_attribute attrs (record {
  collateral_deposited = pos 0;
  debt_issued = pos 0;
  collateral_asset = none;
  collateralization_ratio = pos 0;
  owner = none;
  target_asset = none;
  tx_id = none;
})

unfoldable pub loan_repayment_attribute : Attribute → LoanRepayment → Load LoanRepayment
loan_repayment_attribute a e =
    if is a "collateral_down" || is a "collateral_withdrawn"
    then set (number "malformed value" a.value) (λ v. record e { collateral_withdrawn = v })
    else if is a "debt_down" || is a "debt_repaid"
    then set (number "malformed value" a.value) (λ v. record e { debt_repaid = v })
    else if is a "collateral_asset"
    then ok (record e { collateral_asset = some a.value })
    else if is a "owner"
    then ok (record e { owner = some a.value })
    else if is a "tx_id"
    then ok (record e { tx_id = some a.value })
    else unknown "unknown loan_repayment event attribute" e

unfoldable pub load_loan_repayment : List Attribute → Load LoanRepayment
load_loan_repayment attrs = each loan_repayment_attribute attrs (record {
  collateral_withdrawn = pos 0;
  debt_repaid = pos 0;
  collateral_asset = none;
  owner = none;
  tx_id = none;
})

unfoldable pub rune_pool_deposit_attribute : Attribute → RunePoolDeposit → Load RunePoolDeposit
rune_pool_deposit_attribute a e =
    if is a "tx_id"
    then ok (record e { tx = some a.value })
    else if is a "rune_address"
    then ok (record e { rune_addr = some a.value })
    else if is a "rune_amoumt" || is a "rune_amount"
    then set (number "malformed key" a.value) (λ v. record e { rune_amt_e8 = v })
    else if is a "units"
    then set (number "malformed key" a.value) (λ v. record e { units = v })
    else unknown "unknown rune_pool_deposit event attribute" e

unfoldable pub load_rune_pool_deposit : List Attribute → Load RunePoolDeposit
load_rune_pool_deposit attrs =
    each rune_pool_deposit_attribute attrs
      (record { tx = none; rune_addr = none; rune_amt_e8 = pos 0; units = pos 0 })

unfoldable pub rune_pool_withdraw_attribute : Attribute → RunePoolWithdraw → Load RunePoolWithdraw
rune_pool_withdraw_attribute a e =
    if is a "tx_id"
    then ok (record e { tx = some a.value })
    else if is a "rune_address"
    then ok (record e { rune_addr = some a.value })
    else if is a "rune_amoumt" || is a "rune_amount"
    then set (number "malformed key" a.value) (λ v. record e { rune_amt_e8 = v })
    else if is a "basis_points"
    then set (number "malformed key" a.value) (λ v. record e { basis_points = v })
    else if is a "affiliate_basis_pts" || is a "affiliate_basis_points"
    then set (number "malformed key" a.value) (λ v. record e { affiliate_bps = v })
    else if is a "affiliate_amount"
    then set (number "malformed key" a.value) (λ v. record e { affiliate_amt = v })
    else if is a "affiliate_address"
    then ok (record e { affiliate_addr = some a.value })
    else if is a "units"
    then set (number "malformed key" a.value) (λ v. record e { units = v })
    else unknown "unknown rune_pool_withdraw event attribute" e

unfoldable pub load_rune_pool_withdraw : List Attribute → Load RunePoolWithdraw
load_rune_pool_withdraw attrs = each rune_pool_withdraw_attribute attrs (record {
  tx = none;
  rune_addr = none;
  rune_amt_e8 = pos 0;
  basis_points = pos 0;
  affiliate_bps = pos 0;
  affiliate_amt = pos 0;
  affiliate_addr = none;
  units = pos 0;
})
