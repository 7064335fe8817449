-- ===== src/Record/Notices/Nodes.antt =====
-- internal/fetch/record: the events of nodes and vaults, which become one row each.
use midgard.Base.{Bool, Option, List, [], ◌∷◌}
use midgard.Base.Bytes.{Bytes, Slice, str}
use midgard.Base.Int.{ℤ}
use midgard.Record.Monad.{
  text, int, bool, texts, slice, or_empty, Metadata, Env, Action, ⊤, when, insert_or_log,
}

pub record ActiveVault : Type 0 where
  pub add_asgard_addr : Slice

pub record InactiveVault : Type 0 where
  pub add_asgard_addr : Slice

pub record NewNode : Type 0 where
  pub node_addr : Slice

pub record SetIpAddress : Type 0 where
  pub node_addr : Slice
  pub ip_addr : Slice

pub record SetNodeKeys : Type 0 where
  pub node_addr : Slice
  pub secp256k1 : Slice
  pub ed25519 : Slice
  pub validator_consensus : Slice

pub record SetVersion : Type 0 where
  pub node_addr : Slice
  pub version : Bytes

pub record UpdateNodeAccountStatus : Type 0 where
  pub node_addr : Slice
  pub former : Slice
  pub current : Slice

pub record ValidatorRequestLeave : Type 0 where
  pub tx : Slice
  pub from_addr : Slice
  pub node_addr : Slice

pub record SlashPoints : Type 0 where
  pub node_address : Slice
  pub slash_points : ℤ
  pub reason : Slice

pub record SetNodeMimir : Type 0 where
  pub address : Slice
  pub key : ℤ
  pub value : Slice

pub record Version : Type 0 where
  pub version : Slice

pub record TssKeygenSuccess : Type 0 where
  pub pub_key : Slice
  pub members : Option (List Bytes)
  pub height : ℤ

pub record TssKeygenFailure : Type 0 where
  pub reason : Slice
  pub is_uni_cast : Bool
  pub blame_nodes : Option (List Bytes)
  pub round : Slice
  pub height : ℤ

pub record Message : Type 0 where
  pub from_addr : Slice
  pub action : Slice

module _ {S : Type 0} (env : Env S) where
  unfoldable pub on_active_vault : ActiveVault → Metadata → Action S ⊤
  on_active_vault e meta =
      insert_or_log env "active_vault_events" meta ("add_asgard_addr" ∷ [])
        (slice e.add_asgard_addr ∷ [])

  unfoldable pub on_inactive_vault : InactiveVault → Metadata → Action S ⊤
  on_inactive_vault e meta =
      insert_or_log env "inactive_vault_events" meta ("add_asgard_addr" ∷ [])
        (slice e.add_asgard_addr ∷ [])

  unfoldable pub on_new_node : NewNode → Metadata → Action S ⊤
  on_new_node e meta =
      insert_or_log env "new_node_events" meta ("node_addr" ∷ []) (slice e.node_addr ∷ [])

  unfoldable pub on_set_ip_address : SetIpAddress → Metadata → Action S ⊤
  on_set_ip_address e meta =
      insert_or_log env "set_ip_address_events" meta ("node_addr" ∷ "ip_addr" ∷ [])
        (slice e.node_addr ∷ slice e.ip_addr ∷ [])

  unfoldable pub on_set_node_keys : SetNodeKeys → Metadata → Action S ⊤
  on_set_node_keys e meta =
      insert_or_log env "set_node_keys_events" meta
        ("node_addr" ∷ "secp256k1" ∷ "ed25519" ∷ "validator_consensus" ∷ [])
        (slice e.node_addr
          ∷ text (str e.secp256k1)
          ∷ text (str e.ed25519)
          ∷ slice e.validator_consensus
          ∷ [])

  unfoldable pub on_set_version : SetVersion → Metadata → Action S ⊤
  on_set_version e meta =
      insert_or_log env "set_version_events" meta ("node_addr" ∷ "version" ∷ [])
        (slice e.node_addr ∷ text e.version ∷ [])

  unfoldable pub on_update_node_account_status : UpdateNodeAccountStatus → Metadata → Action S ⊤
  on_update_node_account_status e meta =
      let former = or_empty e.former in
      insert_or_log env "update_node_account_status_events" meta
        ("node_addr" ∷ "former" ∷ "current" ∷ [])
        (slice e.node_addr ∷ slice former ∷ slice e.current ∷ [])

  unfoldable pub on_validator_request_leave : ValidatorRequestLeave → Metadata → Action S ⊤
  on_validator_request_leave e meta =
      insert_or_log env "validator_request_leave_events" meta
        ("tx" ∷ "from_addr" ∷ "node_addr" ∷ [])
        (slice e.tx ∷ slice e.from_addr ∷ slice e.node_addr ∷ [])

  unfoldable pub on_slash_points : SlashPoints → Metadata → Action S ⊤
  on_slash_points e meta =
      insert_or_log env "slash_points_events" meta ("node_address" ∷ "slash_points" ∷ "reason" ∷ [])
        (slice e.node_address ∷ int e.slash_points ∷ slice e.reason ∷ [])

  unfoldable pub on_set_node_mimir : SetNodeMimir → Metadata → Action S ⊤
  on_set_node_mimir e meta =
      insert_or_log env "set_node_mimir_events" meta ("address" ∷ "key" ∷ "value" ∷ [])
        (slice e.address ∷ int e.key ∷ slice e.value ∷ [])

  unfoldable pub on_version : Version → Metadata → Action S ⊤
  on_version e meta =
      insert_or_log env "network_version_events" meta ("version" ∷ []) (slice e.version ∷ [])

  unfoldable pub on_tss_keygen_success : TssKeygenSuccess → Metadata → Action S ⊤
  on_tss_keygen_success e meta =
      insert_or_log env "tss_keygen_success_events" meta ("pub_key" ∷ "members" ∷ "height" ∷ [])
        (slice e.pub_key ∷ texts e.members ∷ int e.height ∷ [])

  unfoldable pub on_tss_keygen_failure : TssKeygenFailure → Metadata → Action S ⊤
  on_tss_keygen_failure e meta =
      insert_or_log env "tss_keygen_failure_events" meta
        ("fail_reason" ∷ "is_unicast" ∷ "blame_nodes" ∷ "round" ∷ "height" ∷ [])
        (slice e.reason
          ∷ bool e.is_uni_cast
          ∷ texts e.blame_nodes
          ∷ slice e.round
          ∷ int e.height
          ∷ [])

  unfoldable pub on_message : Message → Metadata → Action S ⊤
  on_message e meta =
      let from_addr = or_empty e.from_addr in
      let action = or_empty e.action in
      when env.on_message_enabled (
        insert_or_log env "message_events" meta ("from_addr" ∷ "action" ∷ [])
          (slice from_addr ∷ slice action ∷ []))
