-- ===== src/Timeseries/DepthRecorder/Table.antt =====
-- The rows of a block keep the table `block_pool_depths` equal to the depths in memory.
use midgard.Base.{
  ◌≡◌, refl, sym, ap, ◌∙◌, Bool, true, false, ◌||◌, none, some, List, [], ◌∷◌, ◌++◌, ◌⊎◌, inl, inr,
  ◌==◌, if◌then◌else◌, arith, Bool-cases, Option-cases, ℕ,
}
use midgard.Base.Bytes.{Bytes, bytes_eq, same}
use midgard.Base.Int.{ℤ, pos}
use midgard.Base.Maps.{Map, lookup, insert, lookup-insert}
use midgard.Db.Rows.{Row}
use midgard.Record.ChainInfo.{ChainInfo}
use midgard.Record.Totals.{Depths, RunningTotals, depth, current_depths}
use midgard.Timeseries.DepthRecorder.{
  Settings, price_row, changed_row, record_pools, accumulate_pool_names, pool_names, update,
  rune_price,
}
use midgard.Timeseries.DepthRecorder.Replay.{
  recorded, append_row, recorded-append_row, recorded_from-append, no_depths,
}

abbrev pub listed : Bytes → List Bytes → Bool
listed q [] = false
listed q (pool ∷ rest) = if pool == q then true else listed q rest

abbrev pub is_key : Bytes → Map Bytes Bool → Bool
is_key q m = elim (lookup q m) [ none ↦ false | some _ ↦ true ]

abbrev has : Bytes → Depths → Bool
has q m = elim (lookup q m) [ none ↦ false | some _ ↦ true ]

or_false : (a b : Bool) → a || b ≡ false → (a ≡ false) × (b ≡ false)
or_false a b h = ground arith

is_key-accumulate :
    (q : Bytes) (m : Depths) (names : Map Bytes Bool)
    → is_key q (accumulate_pool_names m names) ≡ has q m || is_key q names
unfolding lookup
is_key-accumulate q [] names = refl
is_key-accumulate q ((pool, v) ∷ m) names =
    ground (arith, is_key-accumulate q m (insert pool true names), lookup-insert pool q true names)

depth-has : (q : Bytes) (m : Depths) → has q m ≡ false → depth m q ≡ pos 0
unfolding depth
depth-has q m h = ground arith

-- `names` has the names of the set, in some order, as a loop over a map gives them.
abbrev pub Enumerates : List Bytes → RunningTotals → RunningTotals → Type 0
Enumerates names new old = (q : Bytes) → listed q names ≡ is_key q (pool_names new old)

-- An inserter that adds each row to the end of its list.
abbrev pub Appends : Settings (List Row) → Type 0
Appends env = (row : Row) (rows : List Row) → env.insert_row row rows ≡ (none, rows ++ row ∷ [])

-- The table gives back the depths of every pool.
abbrev pub Mirrors : List Row → RunningTotals → Type 0
Mirrors rows t = (q : Bytes) → recorded q rows ≡ current_depths t q

abbrev written : RunningTotals → RunningTotals → ℤ → List Bytes → List Row → List Row
written old new ts [] rows = rows
written old new ts (pool ∷ rest) rows =
    written old new ts rest (append_row (changed_row old new ts pool) rows)

module _ (old new : RunningTotals) (ts : ℤ) where
  known-append_row :
      (q pool : Bytes) (rows : List Row)
      → (recorded q rows ≡ current_depths old q) ⊎ (recorded q rows ≡ current_depths new q)
      → (recorded q (append_row (changed_row old new ts pool) rows) ≡ current_depths old q)
        ⊎ (recorded q (append_row (changed_row old new ts pool) rows) ≡ current_depths new q)
  known-append_row q pool rows known = elim (Bool-cases (same pool q)) [
    | inl e ↦ inr (recorded-append_row old new ts q pool rows known ∙ rw e)
    | inr e ↦ rw (recorded-append_row old new ts q pool rows known, e) known
  ]

  recorded-written :
      (q : Bytes) (names : List Bytes) (rows : List Row)
      → (recorded q rows ≡ current_depths old q) ⊎ (recorded q rows ≡ current_depths new q)
      → recorded q (written old new ts names rows)
        ≡ (if listed q names then current_depths new q else recorded q rows)
  recorded-written q [] rows known = refl
  recorded-written q (pool ∷ rest) rows known =
      recorded-written q rest (append_row (changed_row old new ts pool) rows)
        (known-append_row q pool rows known)
      ∙ ap (λ d. if listed q rest then current_depths new q else d)
          (recorded-append_row old new ts q pool rows known)
      ∙ both (same pool q) (listed q rest)
    where
      both :
          (a b : Bool)
          → (if b
              then current_depths new q
              else (if a then current_depths new q else recorded q rows))
            ≡ (if (if a then true else b) then current_depths new q else recorded q rows)
      both true true = refl
      both true false = refl
      both false true = refl
      both false false = refl

record_pools-written :
    (env : Settings (List Row)) (info : ChainInfo) (old new : RunningTotals) (ts height : ℤ)
    (names : List Bytes) (rows : List Row)
    → Appends env
    → (record_pools env info old new ts height names rows).1 ≡ written old new ts names rows
unfolding record_pools
record_pools-written env info old new ts height [] rows h = refl
record_pools-written env info old new ts height (pool ∷ rest) rows h =
    elim (Option-cases (changed_row old new ts pool)) [
      | inl e ↦ rw e (record_pools-written env info old new ts height rest rows h)
      | inr (row, e) ↦
          rw (e, h row rows)
            (record_pools-written env info old new ts height rest (rows ++ row ∷ []) h)
    ]

not_accumulated :
    (q : Bytes) (m : Depths) (names : Map Bytes Bool)
    → is_key q (accumulate_pool_names m names) ≡ false
    → (depth m q ≡ pos 0) × (is_key q names ≡ false)
not_accumulated q m names h =
    let (absent, others) = or_false _ _ (sym (is_key-accumulate q m names) ∙ h) in
    (depth-has q m absent, others)

-- A pool that is in none of the six maps has no depths.
unnamed :
    (q : Bytes) (new old : RunningTotals)
    → is_key q (pool_names new old) ≡ false
    → current_depths old q ≡ current_depths new q
unfolding pool_names current_depths
unnamed q new old h =
    let (old_synth, h1) = not_accumulated q old.synth_e8_depth_per_pool _ h in
    let (old_rune, h2) = not_accumulated q old.rune_e8_depth_per_pool _ h1 in
    let (old_asset, h3) = not_accumulated q old.asset_e8_depth_per_pool _ h2 in
    let (new_synth, h4) = not_accumulated q new.synth_e8_depth_per_pool _ h3 in
    let (new_rune, h5) = not_accumulated q new.rune_e8_depth_per_pool _ h4 in
    let (new_asset, _) = not_accumulated q new.asset_e8_depth_per_pool _ h5 in
    rw (old_synth, old_rune, old_asset, new_synth, new_rune, new_asset)

-- The price is in another table.
recorded-price_row :
    (q : Bytes) (rows : List Row) (price : ℕ) (ts : ℤ)
    → recorded q (rows ++ price_row price ts ∷ []) ≡ recorded q rows
unfolding same
recorded-price_row q rows price ts = recorded_from-append q no_depths rows (price_row price ts)

record_pools-Mirrors :
    (env : Settings (List Row)) (info : ChainInfo) (names : List Bytes) (ts height : ℤ)
    (new snapshot : RunningTotals) (rows : List Row)
    → Appends env
    → Enumerates names new snapshot
    → Mirrors rows snapshot
    → Mirrors (record_pools env info snapshot new ts height names rows).1 new
record_pools-Mirrors env info names ts height new snapshot rows h enum mirrors q =
    ap (recorded q) (record_pools-written env info snapshot new ts height names rows h)
    ∙ recorded-written snapshot new ts q names rows (inl (mirrors q))
    ∙ elim (Bool-cases (listed q names)) [
      | inl e ↦ rw e
      | inr e ↦ rw e (mirrors q ∙ unnamed q new snapshot (sym (enum q) ∙ e))
    ]

-- If the table gave back the depths of the last snapshot, it gives back the depths of the block
-- once `update` has run on an inserter that appends its rows, in whatever order it visits the
-- pools, and it returns no error and saves the block's depths as the snapshot.
pub update-Mirrors :
    (env : Settings (List Row)) (info : ChainInfo) (names : List Bytes) (ts height : ℤ)
    (new snapshot : RunningTotals) (rows : List Row)
    → Appends env
    → Enumerates names new snapshot
    → Mirrors rows snapshot
    → (let (err, saved, rows') = update env info names ts new height snapshot rows in
        (err ≡ none) × (saved ≡ new) × Mirrors rows' new)
unfolding update
update-Mirrors env info names ts height new snapshot rows h enum mirrors =
    let (prices, store) = record_pools env info snapshot new ts height names rows in
    let price = rune_price env.floats new env.usd_pools prices in
    rw (h (price_row price ts) store) (
      refl,
      refl,
      λ q.
          recorded-price_row q store price ts
          ∙ record_pools-Mirrors env info names ts height new snapshot rows h enum mirrors q,
    )
