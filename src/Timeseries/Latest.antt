-- ===== src/Timeseries/Latest.antt =====
-- internal/timeseries/latest.go: the depths of the pools at the last block that was written.
use midgard.Base.{
  ◌≡◌, refl, ap, ◌∙◌, ℕ, Bool, true, false, ◌&&◌, Option, none, some, [], ◌∷◌, ◌==◌, if◌then◌else◌,
  arith, Bool-cases, inl, inr,
}
use midgard.Base.Bytes.{Bytes, bytes_eq, same}
use midgard.Base.Int.{ℤ, pos, ltb_ℤ, int_eq, div64, add64}
use midgard.Base.Maps.{Map, lookup, insert, lookup-insert}
use midgard.Record.Totals.{Depths, RunningTotals, depth}
use midgard.Timeseries.Median.{Floats}

pub record PoolInfo : Type 0 where
  pub asset_depth : ℤ
  pub rune_depth : ℤ
  pub synth_depth : ℤ

pub record BlockState : Type 0 where
  pub height : ℤ
  pub timestamp : ℤ
  pub pools : Map Bytes PoolInfo

unfoldable pub asset_price : Floats → ℤ → ℤ → ℕ
asset_price fl asset_depth rune_depth =
    if asset_depth == pos 0 then 0 else fl.ratio rune_depth asset_depth

unfoldable pub exists_now : PoolInfo → Bool
exists_now p = ltb_ℤ (pos 0) p.asset_depth && ltb_ℤ (pos 0) p.rune_depth

unfoldable pub pool_exists : BlockState → Bytes → Bool
pool_exists s pool = elim (lookup pool s.pools) [ none ↦ false | some _ ↦ true ]

-- `ToSecond` divides by 1e9.
unfoldable pub next_second : BlockState → ℤ
next_second s = add64 (div64 s.timestamp 1000000000) (pos 1)

-- `nil` if the pool does not exist.
unfoldable pub pool_info : BlockState → Bytes → Option PoolInfo
pool_info s pool = lookup pool s.pools

unfoldable pub pool_exists_now : BlockState → Bytes → Bool
unfolding exists_now
pool_exists_now s pool = elim (lookup pool s.pools) [ none ↦ false | some p ↦ exists_now p ]

abbrev synth_or_zero : Option ℤ → ℤ
synth_or_zero none = pos 0
synth_or_zero (some s) = s

-- The body of the loop over the depths of the assets: it continues if the pool has no depth of
-- RUNE.
unfoldable pub with_pool : Bytes → ℤ → Option ℤ → Option ℤ → Map Bytes PoolInfo → Map Bytes PoolInfo
with_pool pool asset_depth none synth_depth others = others
with_pool pool asset_depth (some rune_depth) synth_depth others =
    insert pool
      (record {
        asset_depth = asset_depth;
        rune_depth = rune_depth;
        synth_depth = synth_or_zero synth_depth;
      })
      others

-- The loop, in one of the orders that Go may take.
unfoldable pub latest_pools : Depths → Depths → Depths → Map Bytes PoolInfo
latest_pools rune_depths synth_depths [] = []
latest_pools rune_depths synth_depths ((pool, asset_depth) ∷ rest) =
    with_pool pool asset_depth (lookup pool rune_depths) (lookup pool synth_depths)
      (latest_pools rune_depths synth_depths rest)

unfoldable pub set_latest_states : ℤ → ℤ → RunningTotals → BlockState
set_latest_states height timestamp t = record {
  height = height;
  timestamp = timestamp;
  pools = latest_pools t.rune_e8_depth_per_pool t.synth_e8_depth_per_pool t.asset_e8_depth_per_pool;
}

abbrev pub both_known : Option ℤ → Option ℤ → ℤ → Option PoolInfo
both_known none r s = none
both_known (some a) none s = none
both_known (some a) (some r) s = some (record { asset_depth = a; rune_depth = r; synth_depth = s })

synth_or_zero-lookup : (m : Depths) (pool : Bytes) → synth_or_zero (lookup pool m) ≡ depth m pool
unfolding depth
synth_or_zero-lookup m pool = ground arith

lookup-with_pool :
    (pool q : Bytes) (a : ℤ) (r s : Option ℤ) (others : Map Bytes PoolInfo) (known : Option ℤ)
    → lookup q others ≡ both_known known r (synth_or_zero s)
    → pool ≡ q
    → lookup q (with_pool pool a r s others) ≡ both_known (some a) r (synth_or_zero s)
unfolding with_pool
lookup-with_pool pool q a none s others none h e = h
lookup-with_pool pool q a none s others (some _) h e = h
lookup-with_pool pool q a (some r) s others known h e = rw (
  lookup-insert pool q (record { asset_depth = a; rune_depth = r; synth_depth = synth_or_zero s })
      others,
  (bytes_eq.equal_iff pool q).1 e,
)

lookup-with_other :
    (pool q : Bytes) (a : ℤ) (r s : Option ℤ) (others : Map Bytes PoolInfo)
    → same pool q ≡ false
    → lookup q (with_pool pool a r s others) ≡ lookup q others
unfolding with_pool
lookup-with_other pool q a none s others e = refl
lookup-with_other pool q a (some r) s others e = rw (
  lookup-insert pool q (record { asset_depth = a; rune_depth = r; synth_depth = synth_or_zero s })
      others,
  e,
)

lookup-latest_pools :
    (runes synths : Depths) (q : Bytes) (assets : Depths)
    → lookup q (latest_pools runes synths assets)
      ≡ both_known (lookup q assets) (lookup q runes) (synth_or_zero (lookup q synths))
unfolding latest_pools lookup
lookup-latest_pools runes synths q [] = refl
lookup-latest_pools runes synths q ((p, a) ∷ rest) = elim (Bool-cases (same p q)) [
  | inl e ↦
      rw (e, (bytes_eq.equal_iff p q).0 e)
        (lookup-with_pool q q a (lookup q runes) (lookup q synths) (latest_pools runes synths rest)
          (lookup q rest) (lookup-latest_pools runes synths q rest) refl)
  | inr e ↦
      rw
        (
          e,
          lookup-with_other p q a (lookup p runes) (lookup p synths)
              (latest_pools runes synths rest) e,
        )
        (lookup-latest_pools runes synths q rest)
]

module _ (t : RunningTotals) (pool : Bytes) where
  -- The state after a block knows exactly the pools whose asset depth and RUNE depth are both
  -- known, with these depths, and with 0 for a synth depth that is not known.
  pub pool_info-set_latest_states :
      (height timestamp : ℤ)
      → pool_info (set_latest_states height timestamp t) pool
        ≡ both_known
            (lookup pool t.asset_e8_depth_per_pool)
            (lookup pool t.rune_e8_depth_per_pool)
            (depth t.synth_e8_depth_per_pool pool)
  unfolding pool_info set_latest_states
  pool_info-set_latest_states height timestamp =
      lookup-latest_pools t.rune_e8_depth_per_pool t.synth_e8_depth_per_pool pool
        t.asset_e8_depth_per_pool
      ∙ ap (both_known _ _) (synth_or_zero-lookup t.synth_e8_depth_per_pool pool)
