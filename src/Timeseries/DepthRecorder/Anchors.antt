-- ===== src/Timeseries/DepthRecorder/Anchors.antt =====
-- Which pools price RUNE in USD, and what is left when none does.
use midgard.Base.{
  ◌≡◌, refl, ap, ◌∙◌, Bool, true, false, not, ◌&&◌, ◌||◌, ℕ, Option, none, some, List, [], ◌∷◌,
  ◌++◌, ◌==◌, if◌then◌else◌, arith,
}
use midgard.Base.Bytes.{Bytes, bytes_eq, codes, to_upper}
use midgard.Base.Int.{ℤ, pos, negsuc, ltb_ℤ, int_eq, ◌≤ℤ◌}
use midgard.Db.Rows.{Row}
use midgard.Record.ChainInfo.{ChainInfo, current_pool_status, current_mimir_status}
use midgard.Record.Totals.{RunningTotals, depth}
use midgard.Timeseries.DepthRecorder.{
  Settings, replace_dots, is_open_anchor, any_open_anchor, anchor_candidates, is_tor_anchor,
  changed_row, depth_row, insert_changed, record_pools, fallback_price, rune_price, update,
  price_row,
}
use midgard.Timeseries.DepthRecorder.Table.{listed}
use midgard.Timeseries.Median.{Floats}
use midgard.Util.Asset.{asset_from_string}

module _ (info : ChainInfo) (pool : Bytes) where
  abbrev set_to_one : Bytes → Bool
  set_to_one key = current_mimir_status info key == pos 1

  abbrev pub open_chain : Bytes → Bool
  open_chain chain =
      not (set_to_one (codes "HALT" ++ chain ++ codes "CHAIN"))
      && not (set_to_one (codes "HALT" ++ chain ++ codes "TRADING"))
      && not (set_to_one (codes "10-" ++ chain))
      && not (set_to_one (codes "11-" ++ chain))

  decisions :
      (a c t n m : Bool)
      → (if not a then false else if c || t then false else if n || m then false else true)
        ≡ a && (not c && not t && not n && not m)
  decisions a c t n m = ground arith

  is_open_anchor_lem :
      (chain : Bytes)
      → is_open_anchor info pool chain
        ≡ (current_pool_status info pool == codes "available") && open_chain chain
  unfolding is_open_anchor
  is_open_anchor_lem chain = decisions _ _ _ _ _

  any_open_anchor-listed :
      (chain : Bytes) (l : List Bytes)
      → any_open_anchor info pool chain l ≡ listed pool l && is_open_anchor info pool chain
  unfolding any_open_anchor
  any_open_anchor-listed chain [] = refl
  any_open_anchor-listed chain (p ∷ rest) = ground (
    arith,
    any_open_anchor-listed chain rest,
    bytes_eq.equal_iff pool p,
    bytes_eq.equal_iff p pool,
  )

-- Before the fork, the pools of the configuration are candidates; after it, on the chain
-- thorchain, those whose TORANCHOR mimir is 1.
abbrev pub is_candidate : Bytes → List Bytes → ChainInfo → Bytes → ℤ → Bool
is_candidate root_chain usd_pools info pool height =
    if ltb_ℤ (pos 9967469) height && root_chain == codes "thorchain"
    then set_to_one info pool (codes "TORANCHOR-" ++ to_upper (replace_dots pool))
    else listed pool usd_pools

listed-anchor_candidates :
    (root_chain : Bytes) (usd_pools : List Bytes) (info : ChainInfo) (pool : Bytes) (height : ℤ)
    → listed pool (anchor_candidates root_chain usd_pools info pool height)
      ≡ is_candidate root_chain usd_pools info pool height
unfolding anchor_candidates
listed-anchor_candidates root_chain usd_pools info pool height =
    ground (arith, bytes_eq.equal_iff pool pool)

refusal : (r c s o : Bool) → (if r then false else c && (s && o)) ≡ not r && c && s && o
refusal r c s o = ground arith

-- A pool prices RUNE in USD exactly if it is a pool of a layer 1 asset that is not of THOR, it is
-- a candidate, its status is available, and no mimir halts its chain or its trading.
pub is_tor_anchor_lem :
    (root_chain : Bytes) (usd_pools : List Bytes) (info : ChainInfo) (pool : Bytes) (height : ℤ)
    → is_tor_anchor root_chain usd_pools info pool height
      ≡ not ((asset_from_string pool).synth || (asset_from_string pool).chain == codes "THOR")
        && is_candidate root_chain usd_pools info pool height
        && (current_pool_status info pool == codes "available")
        && open_chain info pool (asset_from_string pool).chain
unfolding is_tor_anchor
is_tor_anchor_lem root_chain usd_pools info pool height =
    let a = asset_from_string pool in
    rw
      (
        any_open_anchor-listed info pool a.chain
            (anchor_candidates root_chain usd_pools info pool height),
        is_open_anchor_lem info pool a.chain,
        listed-anchor_candidates root_chain usd_pools info pool height,
      )
      (refusal (a.synth || a.chain == codes "THOR") _ _ _)

fallback_price_none :
    (fl : Floats) (new : RunningTotals) (usd_pools : List Bytes)
    → ((q : Bytes) → pos 0 ≤ℤ depth new.asset_e8_depth_per_pool q)
    → fallback_price fl new usd_pools (negsuc 0) 0 ≡ 0
unfolding fallback_price
fallback_price_none fl new [] h = refl
fallback_price_none fl new (pool ∷ rest) h =
    ground (arith, h pool, fallback_price_none fl new rest h)

some-table :
    (b : Bool) (made row : Row)
    → (if b then some made else none) ≡ some row
    → row.table ≡ made.table
some-table true made row e = cc
some-table false made row e = cc

if-store :
    {A S : Type 0} (b : Bool) (x y : A × S) (store : S)
    → x.1 ≡ store
    → y.1 ≡ store
    → (if b then x else y).1 ≡ store
if-store true x y store h k = h
if-store false x y store h k = k

-- A pool's row is one of the table of depths.
changed_row-table :
    (old new : RunningTotals) (ts : ℤ) (pool : Bytes) (row : Row)
    → changed_row old new ts pool ≡ some row
    → row.table ≡ "block_pool_depths"
unfolding changed_row
changed_row-table old new ts pool row e = some-table _ (depth_row pool _ _ _ ts) row e

module _ {S : Type 0} (env : Settings S) (info : ChainInfo) (ts height : ℤ)
    (new snapshot : RunningTotals) (store : S)
    (refuses : (row : Row)
      → row.table ≡ "block_pool_depths"
      → (err : Bytes) × (env.insert_row row store ≡ (some err, store))) where
  insert_changed-refused :
      (pool : Bytes) (o : Option Row)
      → changed_row snapshot new ts pool ≡ o
      → (insert_changed env info snapshot new ts height o store).1 ≡ store
  insert_changed-refused pool none e = refl
  insert_changed-refused pool (some row) e =
      let (err, refused) = refuses row (changed_row-table snapshot new ts pool row e) in
      rw refused refl

  record_pools-refused :
      (names : List Bytes) → (record_pools env info snapshot new ts height names store).1 ≡ store
  unfolding record_pools
  record_pools-refused [] = refl
  record_pools-refused (pool ∷ rest) =
      let kept = insert_changed-refused pool (changed_row snapshot new ts pool) refl in
      if-store _ _ _ store kept (
        ap (λ st. (record_pools env info snapshot new ts height rest st).1) kept
        ∙ record_pools-refused rest)

  -- An inserter that refuses every row of a pool's depths is not noticed, whatever pools changed and
  -- in whatever order they are visited: the row of the price alone is written, what is returned is its
  -- error, and the snapshot is the block's depths as if the rows had been written.
  pub update-lost_error :
      (names : List Bytes)
      → (price : ℕ) × (update env info names ts new height snapshot store
          ≡ (let (e, store') = env.insert_row (price_row price ts) store in (e, new, store')))
  unfolding update
  update-lost_error names =
      let (prices, store') = record_pools env info snapshot new ts height names store in
      (rune_price env.floats new env.usd_pools prices, rw (record_pools-refused names) refl)

-- When no pool is an anchor and no depth is negative, the price of RUNE is 0, however deep the
-- pools in USD are: the search for the deepest one compares in the wrong direction.
pub rune_price_no_anchor :
    (fl : Floats) (new : RunningTotals) (usd_pools : List Bytes)
    → ((q : Bytes) → pos 0 ≤ℤ depth new.asset_e8_depth_per_pool q)
    → rune_price fl new usd_pools [] ≡ 0
unfolding rune_price
rune_price_no_anchor fl new usd_pools h = fallback_price_none fl new usd_pools h
