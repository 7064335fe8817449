-- ===== src/Record/Load/Outbounds.antt =====
-- internal/fetch/record/event.go: the readers of the events of coins that leave the vaults.
use midgard.Base.{Bool, true, ◌&&◌, ◌||◌, Option, none, some, List, [], ◌∷◌, nat_beq, if◌then◌else◌}
use midgard.Base.Bytes.{Bytes, str, codes, has_prefix, cut2}
use midgard.Base.Int.{pos}
use midgard.Record.Blocks.{Attribute}
use midgard.Record.Notices.Outbounds.{AsgardFundYggdrasil, Bond, Outbound, Refund, Reserve}
use midgard.Record.Load.Reader.{
  ◌>>=◌, Settings, Load, ok, fail, unknown, is, set, each, to_lower_bytes,
}
use midgard.Record.Load.Texts.{number, coin, sanitize_bytes}

unfoldable pub asgard_fund_yggdrasil_attribute :
    Attribute → AsgardFundYggdrasil → Load AsgardFundYggdrasil
asgard_fund_yggdrasil_attribute a e =
    if is a "tx"
    then ok (record e { tx = some a.value })
    else if is a "coins"
    then set (coin "malformed coins" a.value) (λ c. record e { asset = c.0; asset_e8 = c.1 })
    else if is a "pubkey"
    then ok (record e { vault_key = some a.value })
    else unknown "unknown asgard_fund_yggdrasil event attribute" e

unfoldable pub load_asgard_fund_yggdrasil : List Attribute → Load AsgardFundYggdrasil
load_asgard_fund_yggdrasil attrs =
    each asgard_fund_yggdrasil_attribute attrs
      (record { tx = none; asset = none; asset_e8 = pos 0; vault_key = none })

-- The type as a number, or as its name. A value of less than five bytes that is not one byte is
-- malformed; for an empty one, which the caller filters out, Go leaves open whether the slice
-- `value[:5]` panics.
unfoldable pub bond_type_of : Bytes → Bond → Load Bond
bond_type_of (c ∷ []) e =
    if nat_beq c 0
    then ok (record e { bond_type = codes "bond_paid" })
    else if nat_beq c 1
    then ok (record e { bond_type = codes "bond_returned" })
    else if nat_beq c 2
    then ok (record e { bond_type = codes "bond_reward" })
    else if nat_beq c 3
    then ok (record e { bond_type = codes "bond_cost" })
    else fail "malformed bond_type"
bond_type_of value e =
    if has_prefix value (codes "bond_")
    then ok (record e { bond_type = value })
    else fail "malformed bond_type: should be a single byte or 'bond_' string"

unfoldable pub bond_attribute : Attribute → Bond → Load Bond
bond_attribute a e =
    if is a "id"
    then ok (record e { tx = some a.value })
    else if is a "chain"
    then ok (record e { chain = some a.value })
    else if is a "from"
    then ok (record e { from_addr = some a.value })
    else if is a "to"
    then ok (record e { to_addr = some a.value })
    else if is a "coin"
    then set (coin "malformed coin" a.value) (λ c. record e { asset = c.0; asset_e8 = c.1 })
    else if is a "memo"
    then ok (record e { memo = some a.value })
    else if is a "amount"
    then set (number "malformed amount" a.value) (λ v. record e { e8 = v })
    else if is a "bond_type" || is a "bound_type"
    then bond_type_of a.value e
    else if is a "bond_address"
    then ok (record e { bond_addr = some a.value })
    else if is a "node_address"
    then ok (record e { node_addr = some a.value })
    else if is a "signer"
    then ok (record e { signer_addr = some a.value })
    else unknown "unknown bond event attribute" e

unfoldable pub load_bond : List Attribute → Load Bond
load_bond attrs = each bond_attribute attrs (record {
  tx = none;
  chain = none;
  from_addr = none;
  to_addr = none;
  asset = none;
  asset_e8 = pos 0;
  memo = none;
  bond_addr = none;
  node_addr = none;
  signer_addr = none;
  bond_type = [];
  e8 = pos 0;
})

-- `for _, c := range value { if c != '0'`
unfoldable pub all_zero : Bytes → Bool
all_zero [] = true
all_zero (c ∷ cs) = nat_beq c b'0' && all_zero cs

unfoldable pub outbound_attribute : Attribute → Outbound → Load Outbound
outbound_attribute a e =
    if is a "id"
    then ok (if all_zero a.value then e else record e { tx = some a.value })
    else if is a "chain"
    then ok (record e { chain = some a.value })
    else if is a "from"
    then ok (record e { from_addr = some a.value })
    else if is a "to"
    then ok (record e { to_addr = some a.value })
    else if is a "coin"
    then set (coin "malformed coin" a.value) (λ c. record e { asset = c.0; asset_e8 = c.1 })
    else if is a "memo"
    then ok (record e { memo = some a.value })
    else if is a "in_tx_id"
    then ok (record e { in_tx = some a.value })
    else unknown "unknown outbound event attribute" e

unfoldable pub load_outbound : Settings → List Attribute → Load Outbound
load_outbound cfg attrs = do
  e ← each outbound_attribute attrs (record {
    tx = none;
    chain = none;
    from_addr = none;
    to_addr = none;
    asset = none;
    asset_e8 = pos 0;
    memo = none;
    in_tx = none;
  })
  ok (
      if cfg.case_insensitive_chains (str e.chain)
      then record e { from_addr = to_lower_bytes e.from_addr; to_addr = to_lower_bytes e.to_addr }
      else e)

-- Two coins, of which the second is read first, or one.
abbrev pub refund_coins : Option (Bytes × Bytes) → Bytes → Refund → Load Refund
refund_coins none value e =
    set (coin "malformed coin" value) (λ c. record e { asset = c.0; asset_e8 = c.1 })
refund_coins (some (first, second)) value e = do
  (asset_2nd, amount_2nd) ← coin "malformed coin" second
  (asset, amount) ← coin "malformed coin" first
  ok (record e {
    asset_2nd = asset_2nd;
    asset_2nd_e8 = amount_2nd;
    asset = asset;
    asset_e8 = amount;
  })

unfoldable pub refund_attribute : Attribute → Refund → Load Refund
refund_attribute a e =
    if is a "id"
    then ok (record e { tx = some a.value })
    else if is a "chain"
    then ok (record e { chain = some a.value })
    else if is a "from"
    then ok (record e { from_addr = some a.value })
    else if is a "to"
    then ok (record e { to_addr = some a.value })
    else if is a "coin"
    then refund_coins (cut2 b',' b' ' a.value) a.value e
    else if is a "memo"
    then ok (record e { memo = some (sanitize_bytes a.value) })
    else if is a "code"
    then set (number "malformed code" a.value) (λ v. record e { code = v })
    else if is a "reason"
    then ok (record e { reason = some (sanitize_bytes a.value) })
    else unknown "unknown refund event attribute" e

unfoldable pub load_refund : Settings → List Attribute → Load Refund
load_refund cfg attrs = do
  e ← each refund_attribute attrs (record {
    tx = none;
    chain = none;
    from_addr = none;
    to_addr = none;
    asset = none;
    asset_e8 = pos 0;
    asset_2nd = none;
    asset_2nd_e8 = pos 0;
    memo = none;
    code = pos 0;
    reason = none;
  })
  ok (
      if cfg.case_insensitive_chains (str e.chain)
      then record e { from_addr = to_lower_bytes e.from_addr; to_addr = to_lower_bytes e.to_addr }
      else e)

unfoldable pub reserve_attribute : Attribute → Reserve → Load Reserve
reserve_attribute a e =
    if is a "id"
    then ok (record e { tx = some a.value })
    else if is a "chain"
    then ok (record e { chain = some a.value })
    else if is a "from"
    then ok (record e { from_addr = some a.value })
    else if is a "to"
    then ok (record e { to_addr = some a.value })
    else if is a "coin"
    then set (coin "malformed coin" a.value) (λ c. record e { asset = c.0; asset_e8 = c.1 })
    else if is a "memo"
    then ok (record e { memo = some a.value })
    else if is a "contributor_address"
    then ok (record e { addr = some a.value })
    else if is a "amount"
    then set (number "malformed amount" a.value) (λ v. record e { e8 = v })
    else unknown "unknown reserve event attribute" e

unfoldable pub load_reserve : List Attribute → Load Reserve
load_reserve attrs = each reserve_attribute attrs (record {
  tx = none;
  chain = none;
  from_addr = none;
  to_addr = none;
  asset = none;
  asset_e8 = pos 0;
  memo = none;
  addr = none;
  e8 = pos 0;
})
