-- ===== src/Record/Load/Scheduled.antt =====
-- internal/fetch/record/event.go: the reader of scheduled outbounds.
use midgard.Base.{Option, none, some, List, [], ◌∷◌, ◌++◌, if◌then◌else◌}
use midgard.Base.Bytes.{Bytes, str, codes, same, has_prefix, split1}
use midgard.Base.Int.{pos}
use midgard.Record.Blocks.{Attribute}
use midgard.Record.Notices.Outbounds.{ScheduledOutbound}
use midgard.Record.Load.Reader.{◌>>=◌, Settings, Load, ok, unknown, is, set, each, to_lower_bytes}
use midgard.Record.Load.Texts.{number}

-- A key of four parts names one of the coins of the gas.
abbrev pub or_no {ℓ} : {A : Type ℓ} → Option (List A) → List A
or_no none = []
or_no (some xs) = xs

unfoldable pub gas_part : Bytes → Bytes → ScheduledOutbound → Load ScheduledOutbound
gas_part part value e =
    if same part (codes "amount")
    then set (number "malformed max gas amount" value)
        (λ v. record e { max_gas = some (or_no e.max_gas ++ v ∷ []) })
    else if same part (codes "asset")
    then ok (record e { max_gas_asset = some (or_no e.max_gas_asset ++ value ∷ []) })
    else if same part (codes "decimals")
    then set (number "malformed max gas decimals" value)
        (λ v. record e { max_gas_decimal = some (or_no e.max_gas_decimal ++ v ∷ []) })
    else ok e

unfoldable pub max_gas_attribute : List Bytes → Bytes → ScheduledOutbound → Load ScheduledOutbound
unfolding gas_part
max_gas_attribute (_ ∷ _ ∷ part ∷ _ ∷ []) value e = gas_part part value e
max_gas_attribute _ value e = unknown "unknown outbound event attribute" e

unfoldable pub scheduled_outbound_attribute : Attribute → ScheduledOutbound → Load ScheduledOutbound
scheduled_outbound_attribute a e =
    if is a "chain"
    then ok (record e { chain = some a.value })
    else if is a "coin_amount"
    then set (number "malformed coin amount" a.value) (λ v. record e { asset_e8 = v })
    else if is a "coin_asset"
    then ok (record e { asset = some a.value })
    else if is a "coin_decimals"
    then set (number "malformed coin decimals" a.value) (λ v. record e { asset_decimals = v })
    else if is a "gas_rate"
    then set (number "malformed coin decimals" a.value) (λ v. record e { gas_rate = v })
    else if is a "module_name"
    then ok (record e { module_name = some a.value })
    else if is a "in_hash"
    then ok (record e { in_hash = some a.value })
    else if is a "to_address"
    then ok (record e { to_addr = some a.value })
    else if is a "memo"
    then ok (record e { memo = some a.value })
    else if is a "out_hash"
    then ok (record e { out_hash = some a.value })
    else if is a "vault_pub_key"
    then ok (record e { vault_pub_key = some a.value })
    else if has_prefix a.key (codes "max_gas")
    then max_gas_attribute (split1 b'_' a.key) a.value e
    else unknown "unknown outbound event attribute" e

unfoldable pub load_scheduled_outbound : Settings → List Attribute → Load ScheduledOutbound
load_scheduled_outbound cfg attrs = do
  e ← each scheduled_outbound_attribute attrs (record {
    chain = none;
    to_addr = none;
    asset = none;
    asset_e8 = pos 0;
    asset_decimals = pos 0;
    memo = none;
    in_hash = none;
    out_hash = none;
    max_gas = none;
    max_gas_asset = none;
    max_gas_decimal = none;
    gas_rate = pos 0;
    module_name = none;
    vault_pub_key = none;
  })
  ok (
      if cfg.case_insensitive_chains (str e.chain)
      then record e { to_addr = to_lower_bytes e.to_addr }
      else e)
