-- ===== src/Record/Load/Withdrawals.antt =====
-- internal/fetch/record/event.go: the reader of withdrawals. `[]byte(attr.Value)` is never nil, so that the
-- test of it does not show here.
use midgard.Base.{ℕ, ◌&&◌, Option, none, some, List, if◌then◌else◌}
use midgard.Base.Bytes.{Slice, str, codes}
use midgard.Base.Int.{pos, int_beq}
use midgard.Record.Blocks.{Attribute}
use midgard.Record.Events.{Withdraw}
use midgard.Record.Load.Reader.{
  Settings, Load, ◌>>=◌, ok, fail, unknown, is, set, each, to_lower_bytes, is_nil,
}
use midgard.Record.Load.Texts.{number, coin}

abbrev pub asymmetry_of : Option ℕ → Withdraw → Load Withdraw
asymmetry_of none e = fail "malformed asymmetry"
asymmetry_of (some v) e = ok (record e { asymmetry = v })

abbrev pub memo_or_default : Slice → Slice
memo_or_default none = some (codes "MEMO-MISSING-PROBABLY-POL")
memo_or_default (some memo) = some memo

abbrev pub lower_addresses : Settings → Withdraw → Withdraw
lower_addresses cfg e =
    if cfg.case_insensitive_chains (str e.chain)
    then record e { from_addr = to_lower_bytes e.from_addr; to_addr = to_lower_bytes e.to_addr }
    else e

-- A withdrawal without a coin is left out.
abbrev pub finish_withdraw : Settings → Withdraw → Load Withdraw
finish_withdraw cfg e =
    if is_nil e.asset && int_beq e.asset_e8 (pos 0)
    then fail "Skipping withdraw event because of nil coin"
    else ok (record (lower_addresses cfg e) { memo = memo_or_default e.memo })

unfoldable pub withdraw_attribute : Settings → Attribute → Withdraw → Load Withdraw
withdraw_attribute cfg a e =
    if is a "id"
    then ok (record e { tx = some a.value })
    else if is a "chain"
    then ok (record e { chain = some a.value })
    else if is a "from"
    then ok (record e { from_addr = some a.value })
    else if is a "to"
    then ok (record e { to_addr = some a.value })
    else if is a "coin"
    then set (coin "malformed coin" a.value) (λ c. record e { asset = c.0; asset_e8 = c.1 })
    else if is a "emit_asset"
    then set (number "malformed emit_asset" a.value) (λ v. record e { emit_asset_e8 = v })
    else if is a "emit_rune"
    then set (number "malformed emit_asset" a.value) (λ v. record e { emit_rune_e8 = v })
    else if is a "memo"
    then ok (record e { memo = some a.value })
    else if is a "pool"
    then ok (record e { pool = some a.value })
    else if is a "liquidity_provider_units"
    then set (number "malformed stake_units" a.value) (λ v. record e { stake_units = v })
    else if is a "basis_points"
    then set (number "malformed basis_points" a.value) (λ v. record e { basis_points = v })
    else if is a "asymmetry"
    then asymmetry_of (cfg.parse_float a.value) e
    else if is a "imp_loss_protection"
    then set (number "malformed emit_asset" a.value) (λ v. record e { imp_loss_protection_e8 = v })
    else unknown "unknown withdraw event attribute" e

unfoldable pub load_withdraw : Settings → List Attribute → Load Withdraw
load_withdraw cfg attrs =
    each (withdraw_attribute cfg) attrs (record {
      tx = none;
      chain = none;
      from_addr = none;
      to_addr = none;
      asset = none;
      asset_e8 = pos 0;
      emit_asset_e8 = pos 0;
      emit_rune_e8 = pos 0;
      memo = none;
      pool = none;
      stake_units = pos 0;
      basis_points = pos 0;
      asymmetry = 0;
      imp_loss_protection_e8 = pos 0;
    })
    >>= finish_withdraw cfg
