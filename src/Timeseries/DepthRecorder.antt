-- ===== src/Timeseries/DepthRecorder.antt =====
-- internal/timeseries/depthrecorder.go: the rows of `block_pool_depths`, one for each pool whose
-- depths changed in a block, and the price of RUNE.
use Prim.Native.String.{String}
use midgard.Base.{
  ◌≡◌, ℕ, Bool, true, false, not, ◌&&◌, ◌||◌, Option, none, some, List, [], ◌∷◌, ◌++◌, map, ◌==◌,
  if◌then◌else◌, nat_eq,
}
use midgard.Base.Bytes.{Bytes, bytes_eq, codes, to_upper}
use midgard.Base.Int.{ℤ, pos, negsuc, ltb_ℤ, int_eq}
use midgard.Base.Maps.{Map, lookup, insert}
use midgard.Db.Rows.{Row, Value, text, int, float}
use midgard.Record.ChainInfo.{ChainInfo, current_pool_status, current_mimir_status}
use midgard.Record.Monad.{is_error}
use midgard.Record.Totals.{Depths, RunningTotals, depth}
use midgard.Timeseries.Median.{Floats, get_median}
use midgard.Util.Asset.{asset_from_string}
pub mod Anchors
pub mod Replay
pub mod Table

-- `diffAtKey` of a snapshot: whether the value changed, and the new value.
unfoldable pub diff_at_key : Depths → Bytes → Depths → Bool × ℤ
diff_at_key snapshot pool new_map = elim (lookup pool new_map) [
  | some new_v ↦
      (elim (lookup pool snapshot) [ none ↦ true | some old_v ↦ not (old_v == new_v) ], new_v)
  | none ↦ (elim (lookup pool snapshot) [ none ↦ false | some old_v ↦ true ], pos 0)
]

-- The settings: the chain's name, the pools that are priced in USD, the place where rows go, and
-- the arithmetic of floats.
pub record Settings (S : Type 0) : Type 0 where
  pub insert_row : Row → S → Option Bytes × S
  pub root_chain : Bytes
  pub usd_pools : List Bytes
  pub floats : Floats

-- `strings.ReplaceAll(pool, ".", "-")`
abbrev pub replace_dots : Bytes → Bytes
replace_dots = map (λ c. if c == b'.' then b'-' else c)

-- The body of the loop over the pools: false where it continues with the next pool.
unfoldable pub is_open_anchor : ChainInfo → Bytes → Bytes → Bool
is_open_anchor info pool chain =
    if not (current_pool_status info pool == codes "available")
    then false
    else let chain_halted =
        current_mimir_status info (codes "HALT" ++ chain ++ codes "CHAIN") == pos 1 in
      let trading_halted =
        current_mimir_status info (codes "HALT" ++ chain ++ codes "TRADING") == pos 1 in
      let new_chain_halted = current_mimir_status info (codes "10-" ++ chain) == pos 1 in
      let new_trading_halted = current_mimir_status info (codes "11-" ++ chain) == pos 1 in
      if chain_halted || trading_halted
      then false
      else if new_chain_halted || new_trading_halted
      then false
      else true

unfoldable pub any_open_anchor : ChainInfo → Bytes → Bytes → List Bytes → Bool
any_open_anchor info pool chain [] = false
any_open_anchor info pool chain (usd_pool ∷ rest) =
    let later = any_open_anchor info pool chain rest in
    if pool == usd_pool then (if is_open_anchor info pool chain then true else later) else later

unfoldable pub anchor_candidates : Bytes → List Bytes → ChainInfo → Bytes → ℤ → List Bytes
anchor_candidates root_chain usd_pools info pool height =
    if ltb_ℤ (pos 9967469) height && root_chain == codes "thorchain"
    then (if current_mimir_status info (codes "TORANCHOR-" ++ to_upper (replace_dots pool)) == pos 1
        then pool ∷ []
        else [])
    else usd_pools

unfoldable pub is_tor_anchor : Bytes → List Bytes → ChainInfo → Bytes → ℤ → Bool
is_tor_anchor root_chain usd_pools info pool height =
    let asset_pool = asset_from_string pool in
    if asset_pool.synth || asset_pool.chain == codes "THOR"
    then false
    else any_open_anchor info pool asset_pool.chain
        (anchor_candidates root_chain usd_pools info pool height)

-- The set of the names of all pools: a map whose entries are true.
abbrev pub accumulate_pool_names : Depths → Map Bytes Bool → Map Bytes Bool
accumulate_pool_names [] names = names
accumulate_pool_names ((pool, _) ∷ m) names = accumulate_pool_names m (insert pool true names)

unfoldable pub pool_names : RunningTotals → RunningTotals → Map Bytes Bool
pool_names new old = accumulate_pool_names old.synth_e8_depth_per_pool (
    accumulate_pool_names old.rune_e8_depth_per_pool (
      accumulate_pool_names old.asset_e8_depth_per_pool (
        accumulate_pool_names new.synth_e8_depth_per_pool (
          accumulate_pool_names new.rune_e8_depth_per_pool
            (accumulate_pool_names new.asset_e8_depth_per_pool [])))))

abbrev pub depth_row : Bytes → ℤ → ℤ → ℤ → ℤ → Row
depth_row pool asset_value rune_value synth_value block_timestamp = record {
  table = "block_pool_depths";
  columns = "pool" ∷ "asset_e8" ∷ "rune_e8" ∷ "synth_e8" ∷ "block_timestamp" ∷ [];
  values =
      text pool ∷ int asset_value ∷ int rune_value ∷ int synth_value ∷ int block_timestamp ∷ [];
}

abbrev pub price_row : ℕ → ℤ → Row
price_row price block_timestamp = record {
  table = "rune_price";
  columns = "rune_price_e8" ∷ "block_timestamp" ∷ [];
  values = float price ∷ int block_timestamp ∷ [];
}

-- The row of a pool, if one of its three depths changed.
unfoldable pub changed_row : RunningTotals → RunningTotals → ℤ → Bytes → Option Row
changed_row old new block_timestamp pool =
    let (asset_diff, asset_value) =
      diff_at_key old.asset_e8_depth_per_pool pool new.asset_e8_depth_per_pool in
    let (rune_diff, rune_value) =
      diff_at_key old.rune_e8_depth_per_pool pool new.rune_e8_depth_per_pool in
    let (synth_diff, synth_value) =
      diff_at_key old.synth_e8_depth_per_pool pool new.synth_e8_depth_per_pool in
    if asset_diff || rune_diff || synth_diff
    then some (depth_row pool asset_value rune_value synth_value block_timestamp)
    else none

module _ {S : Type 0} (env : Settings S) (info : ChainInfo) (old new : RunningTotals)
    (block_timestamp height : ℤ) where
  abbrev pub insert_changed : Option Row → S → Bool × S
  insert_changed none store = (false, store)
  insert_changed (some row) store =
      let (err, store') = env.insert_row row store in (is_error err, store')

  -- The ratio of the pool, if it is an anchor.
  abbrev pub anchor_prices : Bytes → List ℕ
  anchor_prices pool =
      if is_tor_anchor env.root_chain env.usd_pools info pool height
      then env.floats.ratio (depth new.asset_e8_depth_per_pool pool)
          (depth new.rune_e8_depth_per_pool pool)
        ∷ []
      else []

  -- The loop over the names: it breaks at a row that cannot be inserted.
  unfoldable pub record_pools : List Bytes → S → List ℕ × S
  record_pools [] store = ([], store)
  record_pools (pool ∷ rest) store =
      let (failed, store') = insert_changed (changed_row old new block_timestamp pool) store in
      let (prices, store'') = record_pools rest store' in
      if failed then ([], store') else (anchor_prices pool ++ prices, store'')

-- The loop over the pools in USD when no anchor is there: `maxDepth` and the price so far.
unfoldable pub fallback_price : Floats → RunningTotals → List Bytes → ℤ → ℕ → ℕ
fallback_price fl new [] max_depth price = price
fallback_price fl new (pool ∷ rest) max_depth price =
    let asset_e8 = depth new.asset_e8_depth_per_pool pool in
    if ltb_ℤ asset_e8 max_depth
    then fallback_price fl new rest asset_e8
        (fl.ratio asset_e8 (depth new.rune_e8_depth_per_pool pool))
    else fallback_price fl new rest max_depth price

unfoldable pub rune_price : Floats → RunningTotals → List Bytes → List ℕ → ℕ
rune_price fl new usd_pools [] = fallback_price fl new usd_pools (negsuc 0) 0
rune_price fl new usd_pools (p ∷ ps) = get_median fl (p ∷ ps)

-- The three snapshots are saved whatever happened to the rows, and the error that is returned is
-- that of the price. Go ranges over a map in any order: `names` is the order that it takes.
unfoldable pub update :
    {S : Type 0}
    → Settings S
    → ChainInfo
    → List Bytes
    → ℤ
    → RunningTotals
    → ℤ
    → RunningTotals
    → S
    → Option Bytes × RunningTotals × S
update env info names block_timestamp new height snapshot store =
    let (prices, store') = record_pools env info snapshot new block_timestamp height names store in
    let (err, store'') =
      env.insert_row (price_row (rune_price env.floats new env.usd_pools prices) block_timestamp)
        store' in
    (err, new, store'')
