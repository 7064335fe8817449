-- ===== src/Record/Load/Moves.antt =====
-- internal/fetch/record/event.go: the readers of the events of trade accounts and secured assets, and of
-- affiliate fees.
use midgard.Base.{none, some, List, if◌then◌else◌}
use midgard.Base.Int.{pos}
use midgard.Record.Blocks.{Attribute}
use midgard.Record.Events.{AccountMove, AffiliateFee}
use midgard.Record.Load.Reader.{Load, ok, unknown, is, set, each}
use midgard.Record.Load.Texts.{number}

unfoldable pub trade_account_withdraw_attribute : Attribute → AccountMove → Load AccountMove
trade_account_withdraw_attribute a e =
    if is a "tx_id"
    then ok (record e { tx = some a.value })
    else if is a "amount"
    then set (number "malformed key" a.value) (λ v. record e { amt_e8 = v })
    else if is a "asset"
    then ok (record e { asset = some a.value })
    else if is a "asset_address"
    then ok (record e { asset_addr = some a.value })
    else if is a "rune_address"
    then ok (record e { rune_addr = some a.value })
    else unknown "unknown trade_account_withdraw event attribute" e

unfoldable pub load_trade_account_withdraw : List Attribute → Load AccountMove
load_trade_account_withdraw attrs =
    each trade_account_withdraw_attribute attrs
      (record { tx = none; asset = none; asset_addr = none; rune_addr = none; amt_e8 = pos 0 })

unfoldable pub trade_account_deposit_attribute : Attribute → AccountMove → Load AccountMove
trade_account_deposit_attribute a e =
    if is a "tx_id"
    then ok (record e { tx = some a.value })
    else if is a "amount"
    then set (number "malformed key" a.value) (λ v. record e { amt_e8 = v })
    else if is a "asset"
    then ok (record e { asset = some a.value })
    else if is a "asset_address"
    then ok (record e { asset_addr = some a.value })
    else if is a "rune_address"
    then ok (record e { rune_addr = some a.value })
    else unknown "unknown trade_account_deposit event attribute" e

unfoldable pub load_trade_account_deposit : List Attribute → Load AccountMove
load_trade_account_deposit attrs =
    each trade_account_deposit_attribute attrs
      (record { tx = none; asset = none; asset_addr = none; rune_addr = none; amt_e8 = pos 0 })

unfoldable pub secure_asset_withdraw_attribute : Attribute → AccountMove → Load AccountMove
secure_asset_withdraw_attribute a e =
    if is a "tx_id"
    then ok (record e { tx = some a.value })
    else if is a "amount"
    then set (number "malformed key" a.value) (λ v. record e { amt_e8 = v })
    else if is a "asset"
    then ok (record e { asset = some a.value })
    else if is a "asset_address"
    then ok (record e { asset_addr = some a.value })
    else if is a "rune_address"
    then ok (record e { rune_addr = some a.value })
    else unknown "unknown secure_asset_withdraw event attribute" e

unfoldable pub load_secure_asset_withdraw : List Attribute → Load AccountMove
load_secure_asset_withdraw attrs =
    each secure_asset_withdraw_attribute attrs
      (record { tx = none; asset = none; asset_addr = none; rune_addr = none; amt_e8 = pos 0 })

unfoldable pub secure_asset_deposit_attribute : Attribute → AccountMove → Load AccountMove
secure_asset_deposit_attribute a e =
    if is a "tx_id"
    then ok (record e { tx = some a.value })
    else if is a "amount"
    then set (number "malformed key" a.value) (λ v. record e { amt_e8 = v })
    else if is a "asset"
    then ok (record e { asset = some a.value })
    else if is a "asset_address"
    then ok (record e { asset_addr = some a.value })
    else if is a "rune_address"
    then ok (record e { rune_addr = some a.value })
    else unknown "unknown secure_asset_deposit event attribute" e

unfoldable pub load_secure_asset_deposit : List Attribute → Load AccountMove
load_secure_asset_deposit attrs =
    each secure_asset_deposit_attribute attrs
      (record { tx = none; asset = none; asset_addr = none; rune_addr = none; amt_e8 = pos 0 })

unfoldable pub affiliate_fee_attribute : Attribute → AffiliateFee → Load AffiliateFee
affiliate_fee_attribute a e =
    if is a "tx_id"
    then ok (record e { tx = some a.value })
    else if is a "rune_address"
    then ok (record e { rune_addr = some a.value })
    else if is a "fee_amount"
    then set (number "malformed key" a.value) (λ v. record e { fee_amt = v })
    else if is a "gross_amount"
    then set (number "malformed key" a.value) (λ v. record e { gross_amt = v })
    else if is a "fee_bps"
    then set (number "malformed key" a.value) (λ v. record e { fee_bps = v })
    else if is a "memo"
    then ok (record e { memo = some a.value })
    else if is a "thorname"
    then ok (record e { thor_name = some a.value })
    else if is a "asset"
    then ok (record e { asset = some a.value })
    else unknown "unknown affiliate_fee event attribute" e

unfoldable pub load_affiliate_fee : List Attribute → Load AffiliateFee
load_affiliate_fee attrs = each affiliate_fee_attribute attrs (record {
  tx = none;
  fee_amt = pos 0;
  gross_amt = pos 0;
  fee_bps = pos 0;
  thor_name = none;
  rune_addr = none;
  memo = none;
  asset = none;
})
