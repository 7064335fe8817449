-- ===== src/Record/Load/Amounts.antt =====
-- internal/fetch/record/event.go: the readers of errata, rewards, slashes, and of what is minted and burnt.
use midgard.Base.{Bool, false, not, ◌||◌, Option, none, some, List, [], ◌∷◌, ◌++◌, if◌then◌else◌}
use midgard.Base.Bytes.{Bytes, codes, same, to_upper}
use midgard.Base.Int.{ℤ, pos, neg64}
use midgard.Util.Numbers.{parse_int, ParseError}
use midgard.Record.Blocks.{Attribute}
use midgard.Record.Events.{Errata, Rewards, Slash, MintBurn}
use midgard.Record.Load.Reader.{Load, ok, unknown, is, set, each}
use midgard.Record.Load.Texts.{number, std_parse_bool}

-- An errata as it is read, and the signs of its amounts.
pub record ErrataState : Type 0 where
  pub event : Errata
  pub flip_asset : Bool
  pub flip_rune : Bool

abbrev pub in_errata : ErrataState → (Errata → Errata) → ErrataState
in_errata s f = record s { event = f s.event }

unfoldable pub errata_attribute : Attribute → ErrataState → Load ErrataState
errata_attribute a s =
    if is a "in_tx_id"
    then ok (in_errata s (λ e. record e { in_tx = some a.value }))
    else if is a "asset"
    then ok (in_errata s (λ e. record e { asset = some a.value }))
    else if is a "asset_amt"
    then set (number "malformed asset_amt" a.value)
        (λ v. in_errata s (λ e. record e { asset_e8 = v }))
    else if is a "asset_add"
    then set (std_parse_bool "malformed asset_add" a.value)
        (λ add. record s { flip_asset = not add })
    else if is a "rune_amt"
    then set (number "malformed rune_amt" a.value)
        (λ v. in_errata s (λ e. record e { rune_e8 = v }))
    else if is a "rune_add"
    then set (std_parse_bool "malformed rune_add" a.value) (λ add. record s { flip_rune = not add })
    else unknown "unknown errata event attribute" s

abbrev pub flipped : ErrataState → Errata
flipped s = record s.event {
  asset_e8 = if s.flip_asset then neg64 s.event.asset_e8 else s.event.asset_e8;
  rune_e8 = if s.flip_rune then neg64 s.event.rune_e8 else s.event.rune_e8;
}

unfoldable pub load_errata : List Attribute → Load Errata
load_errata attrs =
    set
      (each errata_attribute attrs (record {
        event = record { in_tx = none; asset = none; asset_e8 = pos 0; rune_e8 = pos 0 };
        flip_asset = false;
        flip_rune = false;
      }))
      flipped

abbrev pub per_pool_amount : ℤ × Option ParseError → Attribute → Rewards → Load Rewards
per_pool_amount (v, none) a e =
    ok (record e { per_pool = e.per_pool ++ record { asset = some a.key; e8 = v } ∷ [] })
per_pool_amount (v, some _) a e = unknown "unknown rewards event attribute" e

unfoldable pub rewards_attribute : Attribute → Rewards → Load Rewards
rewards_attribute a e =
    if is a "bond_reward"
    then set (number "malformed bond_reward" a.value) (λ v. record e { bond_e8 = v })
    else per_pool_amount (parse_int a.value) a e

unfoldable pub load_rewards : List Attribute → Load Rewards
load_rewards attrs = each rewards_attribute attrs (record { bond_e8 = pos 0; per_pool = [] })

abbrev pub slash_amount : ℤ × Option ParseError → Attribute → Slash → Load Slash
slash_amount (v, none) a e =
    ok (record e { amounts = e.amounts ++ record { asset = some a.key; e8 = v } ∷ [] })
slash_amount (v, some _) a e = unknown "unknown slash event attribute" e

unfoldable pub slash_attribute : Attribute → Slash → Load Slash
slash_attribute a e =
    if is a "pool"
    then ok (record e { pool = some a.value })
    else slash_amount (parse_int a.value) a e

unfoldable pub load_slash : List Attribute → Load Slash
load_slash attrs = each slash_attribute attrs (record { pool = none; amounts = [] })

unfoldable pub denom_asset : Bytes → Bytes
denom_asset denom = if same denom (codes "rune") then codes "THOR.RUNE" else to_upper denom

unfoldable pub mint_burn_attribute : Attribute → MintBurn → Load MintBurn
mint_burn_attribute a e =
    if is a "denom"
    then ok (record e { asset = some (denom_asset a.value) })
    else if is a "amount"
    then set (number "malformed amount" a.value) (λ v. record e { asset_e8 = v })
    else if is a "reason"
    then ok (record e { reason = some a.value })
    else if is a "supply"
    then (if same a.value (codes "mint") || same a.value (codes "burn")
        then ok (record e { supply = some a.value })
        else unknown "unknown supply type" e)
    else unknown "unknown mint_burn event attribute" e

unfoldable pub load_mint_burn : List Attribute → Load MintBurn
load_mint_burn attrs =
    each mint_burn_attribute attrs
      (record { asset = none; asset_e8 = pos 0; reason = none; supply = none })
