-- ===== src/Record/Load/Nodes.antt =====
-- internal/fetch/record/event.go: the readers of the events of nodes and vaults.
use midgard.Base.{false, ◌||◌, none, some, List, [], if◌then◌else◌}
use midgard.Base.Bytes.{split_all}
use midgard.Base.Int.{pos}
use midgard.Record.Blocks.{Attribute}
use midgard.Record.Notices.Nodes.{
  ActiveVault, InactiveVault, NewNode, SetIpAddress, SetNodeKeys, SetVersion,
  UpdateNodeAccountStatus, ValidatorRequestLeave, SlashPoints, SetNodeMimir, Version,
  TssKeygenSuccess, TssKeygenFailure, Message,
}
use midgard.Record.Load.Reader.{Load, ok, unknown, is, set, each}
use midgard.Record.Load.Texts.{number, parse_bool}

unfoldable pub active_vault_attribute : Attribute → ActiveVault → Load ActiveVault
active_vault_attribute a e =
    if is a "add new asgard vault"
    then ok (record e { add_asgard_addr = some a.value })
    else unknown "unknown ActiveVault event attribute" e

unfoldable pub load_active_vault : List Attribute → Load ActiveVault
load_active_vault attrs = each active_vault_attribute attrs (record { add_asgard_addr = none })

unfoldable pub inactive_vault_attribute : Attribute → InactiveVault → Load InactiveVault
inactive_vault_attribute a e =
    if is a "set asgard vault to inactive"
    then ok (record e { add_asgard_addr = some a.value })
    else unknown "unknown InactiveVault event attribute" e

unfoldable pub load_inactive_vault : List Attribute → Load InactiveVault
load_inactive_vault attrs = each inactive_vault_attribute attrs (record { add_asgard_addr = none })

unfoldable pub message_attribute : Attribute → Message → Load Message
message_attribute a e =
    if is a "sender"
    then ok (record e { from_addr = some a.value })
    else if is a "action"
    then ok (record e { action = some a.value })
    else if is a "module"
    then ok e
    else unknown "unknown message event attribute" e

unfoldable pub load_message : List Attribute → Load Message
load_message attrs = each message_attribute attrs (record { from_addr = none; action = none })

unfoldable pub new_node_attribute : Attribute → NewNode → Load NewNode
new_node_attribute a e =
    if is a "address"
    then ok (record e { node_addr = some a.value })
    else unknown "unknown new_node event attribute" e

unfoldable pub load_new_node : List Attribute → Load NewNode
load_new_node attrs = each new_node_attribute attrs (record { node_addr = none })

unfoldable pub set_ip_address_attribute : Attribute → SetIpAddress → Load SetIpAddress
set_ip_address_attribute a e =
    if is a "thor_address"
    then ok (record e { node_addr = some a.value })
    else if is a "address"
    then ok (record e { ip_addr = some a.value })
    else unknown "unknown set_ip_address event attribute" e

unfoldable pub load_set_ip_address : List Attribute → Load SetIpAddress
load_set_ip_address attrs =
    each set_ip_address_attribute attrs (record { node_addr = none; ip_addr = none })

unfoldable pub set_node_keys_attribute : Attribute → SetNodeKeys → Load SetNodeKeys
set_node_keys_attribute a e =
    if is a "node_address"
    then ok (record e { node_addr = some a.value })
    else if is a "node_secp256k1_pubkey"
    then ok (record e { secp256k1 = some a.value })
    else if is a "node_ed25519_pubkey"
    then ok (record e { ed25519 = some a.value })
    else if is a "validator_consensus_pub_key"
    then ok (record e { validator_consensus = some a.value })
    else unknown "unknown set_node_keys event attribute" e

unfoldable pub load_set_node_keys : List Attribute → Load SetNodeKeys
load_set_node_keys attrs =
    each set_node_keys_attribute attrs
      (record { node_addr = none; secp256k1 = none; ed25519 = none; validator_consensus = none })

unfoldable pub set_version_attribute : Attribute → SetVersion → Load SetVersion
set_version_attribute a e =
    if is a "thor_address"
    then ok (record e { node_addr = some a.value })
    else if is a "version"
    then ok (record e { version = a.value })
    else unknown "unknown set_version event attribute" e

unfoldable pub load_set_version : List Attribute → Load SetVersion
load_set_version attrs =
    each set_version_attribute attrs (record { node_addr = none; version = [] })

unfoldable pub update_node_account_status_attribute :
    Attribute → UpdateNodeAccountStatus → Load UpdateNodeAccountStatus
update_node_account_status_attribute a e =
    if is a "Address"
    then ok (record e { node_addr = some a.value })
    else if is a "Former:"
    then ok (record e { former = some a.value })
    else if is a "Current:"
    then ok (record e { current = some a.value })
    else unknown "unknown UpdateNodeAccountStatus event attribute" e

unfoldable pub load_update_node_account_status : List Attribute → Load UpdateNodeAccountStatus
load_update_node_account_status attrs =
    each update_node_account_status_attribute attrs
      (record { node_addr = none; former = none; current = none })

unfoldable pub validator_request_leave_attribute :
    Attribute → ValidatorRequestLeave → Load ValidatorRequestLeave
validator_request_leave_attribute a e =
    if is a "txid" || is a "tx"
    then ok (record e { tx = some a.value })
    else if is a "signer" || is a "signer bnb address"
    then ok (record e { from_addr = some a.value })
    else if is a "node" || is a "destination"
    then ok (record e { node_addr = some a.value })
    else unknown "unknown validator_request_leave event attribute" e

unfoldable pub load_validator_request_leave : List Attribute → Load ValidatorRequestLeave
load_validator_request_leave attrs =
    each validator_request_leave_attribute attrs
      (record { tx = none; from_addr = none; node_addr = none })

unfoldable pub slash_points_attribute : Attribute → SlashPoints → Load SlashPoints
slash_points_attribute a e =
    if is a "reason"
    then ok (record e { reason = some a.value })
    else if is a "node_address"
    then ok (record e { node_address = some a.value })
    else if is a "slash_points"
    then set (number "malformed slash points" a.value) (λ v. record e { slash_points = v })
    else unknown "unknown slash points event attribute" e

unfoldable pub load_slash_points : List Attribute → Load SlashPoints
load_slash_points attrs =
    each slash_points_attribute attrs
      (record { node_address = none; slash_points = pos 0; reason = none })

unfoldable pub set_node_mimir_attribute : Attribute → SetNodeMimir → Load SetNodeMimir
set_node_mimir_attribute a e =
    if is a "address"
    then ok (record e { address = some a.value })
    else if is a "key"
    then ok (record e { value = some a.value })
    else if is a "value"
    then set (number "malformed value" a.value) (λ v. record e { key = v })
    else unknown "unknown set_node_mimir event attribute" e

unfoldable pub load_set_node_mimir : List Attribute → Load SetNodeMimir
load_set_node_mimir attrs =
    each set_node_mimir_attribute attrs (record { address = none; key = pos 0; value = none })

unfoldable pub version_attribute : Attribute → Version → Load Version
version_attribute a e =
    if is a "version"
    then ok (record e { version = some a.value })
    else unknown "unknown version event attribute" e

unfoldable pub load_version : List Attribute → Load Version
load_version attrs = each version_attribute attrs (record { version = none })

unfoldable pub tss_keygen_failure_attribute : Attribute → TssKeygenFailure → Load TssKeygenFailure
tss_keygen_failure_attribute a e =
    if is a "blame"
    then ok (record e { blame_nodes = some (split_all b',' b' ' a.value) })
    else if is a "height"
    then set (number "malformed key" a.value) (λ v. record e { height = v })
    else if is a "round"
    then ok (record e { round = some a.value })
    else if is a "is_unicast"
    then set (parse_bool "malformed key" a.value) (λ v. record e { is_uni_cast = v })
    else if is a "reason"
    then ok (record e { reason = some a.value })
    else unknown "unknown tss_keygen_failure event attribute" e

unfoldable pub load_tss_keygen_failure : List Attribute → Load TssKeygenFailure
load_tss_keygen_failure attrs = each tss_keygen_failure_attribute attrs (record {
  reason = none;
  is_uni_cast = false;
  blame_nodes = none;
  round = none;
  height = pos 0;
})

unfoldable pub tss_keygen_success_attribute : Attribute → TssKeygenSuccess → Load TssKeygenSuccess
tss_keygen_success_attribute a e =
    if is a "pubkey"
    then ok (record e { pub_key = some a.value })
    else if is a "height"
    then set (number "malformed key" a.value) (λ v. record e { height = v })
    else if is a "members"
    then ok (record e { members = some (split_all b',' b' ' a.value) })
    else unknown "unknown tss_keygen_success event attribute" e

unfoldable pub load_tss_keygen_success : List Attribute → Load TssKeygenSuccess
load_tss_keygen_success attrs =
    each tss_keygen_success_attribute attrs
      (record { pub_key = none; members = none; height = pos 0 })
