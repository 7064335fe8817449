-- ===== src/Record/Load/Contracts.antt =====
-- internal/fetch/record/event.go: the readers of the events of contracts and of TCY.
use midgard.Base.{none, some, List, [], if◌then◌else◌}
use midgard.Base.Bytes.{bytes_eq}
use midgard.Base.Int.{pos}
use midgard.Base.Maps.{insert}
use midgard.Record.Blocks.{Attribute}
use midgard.Record.Notices.Accounts.{
  CosmWasmEvent, Instantiate, TcyClaim, TcyDistribution, TcyStake, TcyUnstake,
}
use midgard.Record.Load.Reader.{Load, ok, unknown, is, set, each}
use midgard.Record.Load.Texts.{number}

unfoldable pub cosm_wasm_event_attribute : Attribute → CosmWasmEvent → Load CosmWasmEvent
cosm_wasm_event_attribute a e =
    if is a "tx_id"
    then ok (record e { tx_id = some a.value })
    else if is a "_contract_address"
    then ok (record e { contract_address = some a.value })
    else if is a "sender"
    then ok (record e { sender = some a.value })
    else if is a "type"
    then ok (record e { type = some a.value })
    else if is a "msg"
    then ok (record e { msg = some a.value })
    else if is a "funds"
    then ok (record e { funds = some a.value })
    else ok (record e { attributes = insert a.key a.value e.attributes })

unfoldable pub load_cosm_wasm_event : List Attribute → Load CosmWasmEvent
load_cosm_wasm_event attrs = each cosm_wasm_event_attribute attrs (record {
  tx_id = none;
  contract_address = none;
  sender = none;
  type = none;
  msg = none;
  funds = none;
  attributes = [];
})

unfoldable pub instantiate_attribute : Attribute → Instantiate → Load Instantiate
instantiate_attribute a e =
    if is a "tx_id"
    then ok (record e { tx_id = some a.value })
    else if is a "_contract_address"
    then ok (record e { contract_address = some a.value })
    else if is a "label"
    then ok (record e { label = some a.value })
    else if is a "code_id"
    then set (number "malformed key" a.value) (λ v. record e { code_id = v })
    else if is a "sender"
    then ok (record e { sender = some a.value })
    else if is a "admin_address"
    then ok (record e { admin = some a.value })
    else if is a "msg"
    then ok (record e { msg = some a.value })
    else if is a "funds"
    then ok (record e { funds = some a.value })
    else unknown "unknown instantiate event attribute" e

unfoldable pub load_instantiate : List Attribute → Load Instantiate
load_instantiate attrs = each instantiate_attribute attrs (record {
  tx_id = none;
  contract_address = none;
  label = none;
  code_id = pos 0;
  sender = none;
  admin = none;
  msg = none;
  funds = none;
})

unfoldable pub tcy_claim_attribute : Attribute → TcyClaim → Load TcyClaim
tcy_claim_attribute a e =
    if is a "tx_id"
    then ok (record e { tx_id = some a.value })
    else if is a "rune_address"
    then ok (record e { rune_addr = some a.value })
    else if is a "asset"
    then ok (record e { l1_asset = some a.value })
    else if is a "l1_address"
    then ok (record e { l1_addr = some a.value })
    else if is a "tcy_amount"
    then set (number "malformed key" a.value) (λ v. record e { tcy_amt_e8 = v })
    else if is a "memo"
    then ok (record e { memo = some a.value })
    else unknown "unknown tcy_claim event attribute" e

unfoldable pub load_tcy_claim : List Attribute → Load TcyClaim
load_tcy_claim attrs = each tcy_claim_attribute attrs (record {
  tx_id = none;
  rune_addr = none;
  l1_asset = none;
  l1_addr = none;
  memo = none;
  tcy_amt_e8 = pos 0;
})

unfoldable pub tcy_distribution_attribute : Attribute → TcyDistribution → Load TcyDistribution
tcy_distribution_attribute a e =
    if is a "rune_address"
    then ok (record e { rune_addr = some a.value })
    else if is a "rune_amount"
    then set (number "malformed key" a.value) (λ v. record e { rune_amt_e8 = v })
    else unknown "unknown tcy_distribution event attribute" e

unfoldable pub load_tcy_distribution : List Attribute → Load TcyDistribution
load_tcy_distribution attrs =
    each tcy_distribution_attribute attrs (record { rune_addr = none; rune_amt_e8 = pos 0 })

unfoldable pub tcy_stake_attribute : Attribute → TcyStake → Load TcyStake
tcy_stake_attribute a e =
    if is a "tx_id"
    then ok (record e { tx_id = some a.value })
    else if is a "amount"
    then set (number "malformed key" a.value) (λ v. record e { amount = v })
    else if is a "address"
    then ok (record e { address = some a.value })
    else if is a "memo"
    then ok (record e { memo = some a.value })
    else unknown "unknown tcy_stake event attribute" e

unfoldable pub load_tcy_stake : List Attribute → Load TcyStake
load_tcy_stake attrs =
    each tcy_stake_attribute attrs
      (record { tx_id = none; amount = pos 0; address = none; memo = none })

unfoldable pub tcy_unstake_attribute : Attribute → TcyUnstake → Load TcyUnstake
tcy_unstake_attribute a e =
    if is a "tx_id"
    then ok (record e { tx_id = some a.value })
    else if is a "amount"
    then set (number "malformed key" a.value) (λ v. record e { amount = v })
    else if is a "address"
    then ok (record e { address = some a.value })
    else if is a "memo"
    then ok (record e { memo = some a.value })
    else unknown "unknown tcy_unstake event attribute" e

unfoldable pub load_tcy_unstake : List Attribute → Load TcyUnstake
load_tcy_unstake attrs =
    each tcy_unstake_attribute attrs
      (record { tx_id = none; amount = pos 0; address = none; memo = none })
