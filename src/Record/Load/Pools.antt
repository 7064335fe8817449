-- ===== src/Record/Load/Pools.antt =====
-- internal/fetch/record/event.go: the readers of the events that move a pool's depths.
pub mod Coins
use midgard.Base.{ℕ, zero, suc, false, Option, none, some, List, [], ◌∷◌, length, if◌then◌else◌}
use midgard.Base.Bytes.{Bytes, Slice, str, cut2}
use midgard.Base.Int.{ℤ, pos}
use midgard.Record.Blocks.{Attribute}
use midgard.Record.Coin.{is_switch}
use midgard.Record.Events.{Add, Fee, Gas, Pool, SetMimir, PoolBalanceChange}
use midgard.Record.Load.Reader.{
  Settings, Load, out_of_fuel, failed, ◌>>=◌, ok, unknown, is, set, each, to_lower_bytes,
}
use midgard.Record.Load.Texts.{number, parse_bool, coin, sanitize_bytes}

abbrev pub add_coin : Add → Slice × ℤ → Add
add_coin e (asset, amount) =
    if is_switch (str asset)
    then record e { rune_e8 = amount }
    else record e { asset_e8 = amount; asset = asset }

-- One round of the loop over the coins, with the rest of the loop.
abbrev pub next_coin : (Bytes → Add → Load Add) → Option (Bytes × Bytes) → Bytes → Add → Load Add
next_coin more none b e = set (coin "malformed coin" b) (add_coin e)
next_coin more (some (first, rest)) b e =
    coin "malformed coin" first >>= λ c. more rest (add_coin e c)

-- `for len(b) != 0`, by fuel.
unfoldable pub coins : ℕ → Bytes → Add → Load Add
coins fuel [] e = ok e
coins zero (_ ∷ _) e = failed out_of_fuel []
coins (suc fuel) (c ∷ cs) e = next_coin (coins fuel) (cut2 b',' b' ' (c ∷ cs)) (c ∷ cs) e

unfoldable pub add_attribute : Attribute → Add → Load Add
add_attribute a e =
    if is a "id"
    then ok (record e { tx = some a.value })
    else if is a "chain"
    then ok (record e { chain = some a.value })
    else if is a "from"
    then ok (record e { from_addr = some a.value })
    else if is a "to"
    then ok (record e { to_addr = some a.value })
    else if is a "coin"
    then coins (length a.value) a.value e
    else if is a "memo"
    then ok (record e { memo = some (sanitize_bytes a.value) })
    else if is a "pool"
    then ok (record e { pool = some a.value })
    else unknown "unknown add event attribute" e

unfoldable pub load_add : Settings → List Attribute → Load Add
load_add cfg attrs = do
  e ← each add_attribute attrs (record {
    tx = none;
    chain = none;
    from_addr = none;
    to_addr = none;
    asset = none;
    asset_e8 = pos 0;
    memo = none;
    rune_e8 = pos 0;
    pool = none;
  })
  ok (
      if cfg.case_insensitive_chains (str e.chain)
      then record e { from_addr = to_lower_bytes e.from_addr; to_addr = to_lower_bytes e.to_addr }
      else e)

unfoldable pub fee_attribute : Attribute → Fee → Load Fee
fee_attribute a e =
    if is a "tx_id"
    then ok (record e { tx = some a.value })
    else if is a "coins"
    then set (coin "malformed coins" a.value) (λ c. record e { asset = c.0; asset_e8 = c.1 })
    else if is a "pool_deduct"
    then set (number "malformed pool_deduct" a.value) (λ v. record e { pool_deduct = v })
    else unknown "unknown fee event attribute" e

unfoldable pub load_fee : List Attribute → Load Fee
load_fee attrs =
    each fee_attribute attrs
      (record { tx = none; asset = none; asset_e8 = pos 0; pool_deduct = pos 0 })

unfoldable pub gas_attribute : Attribute → Gas → Load Gas
gas_attribute a e =
    if is a "asset"
    then ok (record e { asset = some a.value })
    else if is a "asset_amt"
    then set (number "malformed asset_amt" a.value) (λ v. record e { asset_e8 = v })
    else if is a "rune_amt"
    then set (number "malformed rune_amt" a.value) (λ v. record e { rune_e8 = v })
    else if is a "transaction_count"
    then set (number "malformed transaction_count" a.value) (λ v. record e { tx_count = v })
    else unknown "unknown gas event attribute" e

unfoldable pub load_gas : List Attribute → Load Gas
load_gas attrs =
    each gas_attribute attrs
      (record { asset = none; asset_e8 = pos 0; rune_e8 = pos 0; tx_count = pos 0 })

unfoldable pub pool_attribute : Attribute → Pool → Load Pool
pool_attribute a e =
    if is a "pool"
    then ok (record e { asset = some a.value })
    else if is a "pool_status"
    then ok (record e { status = some a.value })
    else unknown "unknown pool event attribute" e

unfoldable pub load_pool : List Attribute → Load Pool
load_pool attrs = each pool_attribute attrs (record { asset = none; status = none })

unfoldable pub pool_balance_change_attribute :
    Attribute → PoolBalanceChange → Load PoolBalanceChange
pool_balance_change_attribute a e =
    if is a "asset"
    then ok (record e { asset = some a.value })
    else if is a "rune_amt"
    then set (number "malformed key" a.value) (λ v. record e { rune_amt = v })
    else if is a "rune_add"
    then set (parse_bool "malformed key" a.value) (λ v. record e { rune_add = v })
    else if is a "asset_amt"
    then set (number "malformed key" a.value) (λ v. record e { asset_amt = v })
    else if is a "asset_add"
    then set (parse_bool "malformed key" a.value) (λ v. record e { asset_add = v })
    else if is a "reason"
    then ok (record e { reason = a.value })
    else unknown "unknown validator_request_leave event attribute" e

unfoldable pub load_pool_balance_change : List Attribute → Load PoolBalanceChange
load_pool_balance_change attrs = each pool_balance_change_attribute attrs (record {
  asset = none;
  rune_amt = pos 0;
  rune_add = false;
  asset_amt = pos 0;
  asset_add = false;
  reason = [];
})

unfoldable pub set_mimir_attribute : Attribute → SetMimir → Load SetMimir
set_mimir_attribute a e =
    if is a "key"
    then ok (record e { key = some a.value })
    else if is a "value"
    then ok (record e { value = some a.value })
    else unknown "unknown set_mimir event attribute" e

unfoldable pub load_set_mimir : List Attribute → Load SetMimir
load_set_mimir attrs = each set_mimir_attribute attrs (record { key = none; value = none })
