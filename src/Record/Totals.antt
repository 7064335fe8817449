-- ===== src/Record/Totals.antt =====
-- internal/fetch/record/aggregate.go: the depths of the pools, kept in memory.
use midgard.Base.{◌≡◌, none, some, [], arith, if◌then◌else◌, ◌==◌, Option-cases, inl, inr}
use midgard.Base.Bytes.{Bytes, bytes_eq}
use midgard.Base.Int.{ℤ, pos, add64, wrap64, ◌+ℤ◌, InInt64}
use midgard.Base.Maps.{Map, lookup, insert, lookup-insert}

abbrev pub Depths : Type 0
Depths = Map Bytes ℤ

pub record RunningTotals : Type 0 where
  pub asset_e8_depth_per_pool : Depths
  pub rune_e8_depth_per_pool : Depths
  pub synth_e8_depth_per_pool : Depths

abbrev pub new_running_totals : RunningTotals
new_running_totals = record {
  asset_e8_depth_per_pool = [];
  rune_e8_depth_per_pool = [];
  synth_e8_depth_per_pool = [];
}

-- What a map of depths says of a pool: 0 if it has no entry.
unfoldable pub depth : Depths → Bytes → ℤ
depth m pool = elim (lookup pool m) [ none ↦ pos 0 | some v ↦ v ]

pub record PoolDepths : Type 0 where
  pub asset_e8 : ℤ
  pub rune_e8 : ℤ
  pub synth_e8 : ℤ

unfoldable pub current_depths : RunningTotals → Bytes → PoolDepths
current_depths t pool = record {
  asset_e8 = depth t.asset_e8_depth_per_pool pool;
  rune_e8 = depth t.rune_e8_depth_per_pool pool;
  synth_e8 = depth t.synth_e8_depth_per_pool pool;
}

-- The body that the three `AddPool…Depth` methods share.
unfoldable pub add_depth : Bytes → ℤ → Depths → Depths
add_depth pool e8 m = elim (lookup pool m) [
  | some v ↦ insert pool (add64 v e8) m
  | none ↦ insert pool e8 m
]

unfoldable pub add_pool_asset_e8_depth : Bytes → ℤ → RunningTotals → RunningTotals
add_pool_asset_e8_depth pool e8 t = record t {
  asset_e8_depth_per_pool = add_depth pool e8 t.asset_e8_depth_per_pool;
}

unfoldable pub add_pool_rune_e8_depth : Bytes → ℤ → RunningTotals → RunningTotals
add_pool_rune_e8_depth pool e8 t = record t {
  rune_e8_depth_per_pool = add_depth pool e8 t.rune_e8_depth_per_pool;
}

unfoldable pub add_pool_synth_e8_depth : Bytes → ℤ → RunningTotals → RunningTotals
add_pool_synth_e8_depth pool e8 t = record t {
  synth_e8_depth_per_pool = add_depth pool e8 t.synth_e8_depth_per_pool;
}

unfoldable pub set_asset_depth : Bytes → ℤ → RunningTotals → RunningTotals
set_asset_depth pool e8 t = record t {
  asset_e8_depth_per_pool = insert pool e8 t.asset_e8_depth_per_pool;
}

unfoldable pub set_rune_depth : Bytes → ℤ → RunningTotals → RunningTotals
set_rune_depth pool e8 t = record t {
  rune_e8_depth_per_pool = insert pool e8 t.rune_e8_depth_per_pool;
}

unfoldable pub set_synth_depth : Bytes → ℤ → RunningTotals → RunningTotals
set_synth_depth pool e8 t = record t {
  synth_e8_depth_per_pool = insert pool e8 t.synth_e8_depth_per_pool;
}

pub depth-insert :
    (k j : Bytes) (v : ℤ) (m : Depths) → depth (insert k v m) j ≡ (if k == j then v else depth m j)
unfolding depth
depth-insert k j v m = ground (arith, lookup-insert k j v m)

zero_add64 : (v : ℤ) → InInt64 v → add64 (pos 0) v ≡ v
unfolding add64 wrap64 ◌+ℤ◌
zero_add64 v h = ground arith

-- Adding an int64 to a pool adds to its depth, whether it has an entry or not, and to no other
-- depth.
pub depth-add_depth :
    (k j : Bytes) (v : ℤ) (m : Depths)
    → InInt64 v
    → depth (add_depth k v m) j ≡ (if k == j then add64 (depth m j) v else depth m j)
unfolding depth add_depth
depth-add_depth k j v m h = elim (Option-cases (lookup k m)) [
  | inl e ↦ ground (arith, lookup-insert k j v m, zero_add64 v h, bytes_eq.equal_iff k j)
  | inr (w, e) ↦ ground (arith, lookup-insert k j (add64 w v) m, bytes_eq.equal_iff k j)
]
