-- ===== src/Record/Coin.antt =====
-- internal/fetch/record/event.go: the kinds of assets, read off their names.
use midgard.Base.{
  ℕ, Bool, true, false, not, ◌&&◌, ◌||◌, Option, none, some, [], ◌∷◌, ◌++◌, List, leb, nat_beq,
  if◌then◌else◌,
}
use midgard.Base.Bytes.{Bytes, codes, same, contains, has_prefix, to_upper, split2}
use mathlib.Core.Option.{map}
use midgard.Util.Text.{Range, lead_byte}
pub mod Native

pub data CoinType : Type 0 where
  switch asset_native asset_synth asset_trade unknown_coin asset_derived asset_secure : CoinType

abbrev pub native_switch : Bytes
native_switch = codes "SWITCHLY.SWITCH"

abbrev pub native_tcy : Bytes
native_tcy = codes "SWITCHLY.TCY"

unfoldable pub is_switch : Bytes → Bool
is_switch asset =
    same asset native_switch
    || same asset (codes "BNB.SWITCH-67C")
    || same asset (codes "BNB.SWITCH-B1A")

unfoldable pub is_tcy : Bytes → Bool
is_tcy asset = same asset native_tcy

unfoldable pub get_coin_type : Bytes → CoinType
get_coin_type asset =
    if is_switch asset
    then switch
    else if is_tcy asset
    then asset_native
    else if contains b'/' asset
    then asset_synth
    else if has_prefix (to_upper asset) (codes "SWITCHLY.")
    then asset_derived
    else if contains b'.' asset
    then asset_native
    else if contains b'~' asset
    then asset_trade
    else if contains b'-' asset && not (contains b'.' asset)
    then asset_secure
    else unknown_coin

-- The bytes that the expression `[~./-]` matches.
abbrev pub is_separator : ℕ → Bool
is_separator c = nat_beq c b'~' || nat_beq c b'.' || nat_beq c b'/' || nat_beq c b'-'

-- `re.Find(asset)`
unfoldable pub find_separator : Bytes → Option ℕ
find_separator [] = none
find_separator (c ∷ cs) = if is_separator c then some c else find_separator cs

-- The rest of a character whose first byte names the ranges, and what is behind it.
unfoldable pub continue_with : List Range → Bytes → Option (Bytes × Bytes)
continue_with [] s = some ([], s)
continue_with (_ ∷ _) [] = none
continue_with ((lo, hi) ∷ more) (c ∷ cs) =
    let rest = continue_with more cs in
    if leb lo c && leb c hi then map (λ (r, s). (c ∷ r, s)) rest else none

-- `utf8.DecodeRune`: a byte that begins no character stands for one.
abbrev pub first_character : ℕ → Bytes → Option (Bytes × Bytes) → Bytes × Bytes
first_character c cs none = (c ∷ [], cs)
first_character c cs (some (r, rest)) = (c ∷ r, rest)

abbrev pub two_parts : Bytes × Bytes → Bytes × Option Bytes
two_parts (first, []) = (first, none)
two_parts (first, c ∷ cs) = (first, some (c ∷ cs))

-- `bytes.SplitN(asset, sep, 2)`. With no separator `sep` is nil, and then the slice is split behind
-- its first character.
unfoldable pub split_chain : Option ℕ → Bytes → Bytes × Option Bytes
unfolding lead_byte continue_with
split_chain (some sep) asset = split2 sep asset
split_chain none [] = ([], none)
split_chain none (c ∷ cs) = two_parts (first_character c cs (continue_with (lead_byte c).1 cs))

abbrev pub chain_and_symbol : Bytes × Option Bytes → Bytes × Bytes
chain_and_symbol (first, none) = ([], first)
chain_and_symbol (first, some rest) = (first, rest)

pub record AssetParts : Type 0 where
  pub chain : Bytes
  pub ticker : Bytes
  pub id : Bytes

abbrev pub or_empty : Option Bytes → Bytes
or_empty none = []
or_empty (some b) = b

unfoldable pub parse_asset : Bytes → AssetParts
unfolding split_chain
parse_asset asset =
    let (chain, symbol) = chain_and_symbol (split_chain (find_separator asset) asset) in
    let (ticker, id) = split2 b'-' symbol in
    record { chain = chain; ticker = ticker; id = or_empty id }

abbrev pub needs_native : CoinType → Bool
needs_native asset_synth = true
needs_native asset_trade = true
needs_native asset_secure = true
needs_native _ = false

abbrev pub with_id : Bytes → Bytes
with_id [] = []
with_id (c ∷ id) = b'-' ∷ c ∷ id

abbrev pub native_name : AssetParts → Bytes
native_name p = p.chain ++ (b'.' ∷ (p.ticker ++ with_id p.id))

unfoldable pub get_native_asset : Bytes → Bytes
get_native_asset asset =
    if needs_native (get_coin_type asset) then native_name (parse_asset asset) else asset
