-- ===== src/Timeseries/DepthRecorder/Replay.antt =====
-- The table `block_pool_depths` as its readers see it: the last row of a pool has its depths.
use midgard.Base.{
  ◌≡◌, refl, ◌∙◌, Bool, false, ◌||◌, Option, none, some, List, [], ◌∷◌, ◌++◌, ◌⊎◌, inl, inr, ◌==◌,
  if◌then◌else◌, arith, Bool-cases, Option-cases,
}
use midgard.Base.Bytes.{Bytes, bytes_eq, codes, same}
use midgard.Base.Int.{ℤ, pos, int_eq}
use midgard.Base.Maps.{lookup}
use midgard.Db.Rows.{Row, Value, text, int}
use midgard.Record.Totals.{Depths, RunningTotals, PoolDepths, depth, current_depths}
use midgard.Timeseries.DepthRecorder.{diff_at_key, depth_row, changed_row}

abbrev pub no_depths : PoolDepths
no_depths = record { asset_e8 = pos 0; rune_e8 = pos 0; synth_e8 = pos 0 }

abbrev read_values : Bytes → PoolDepths → List Value → PoolDepths
read_values pool d (text p ∷ int a ∷ int r ∷ int s ∷ rest) =
    if p == pool then record { asset_e8 = a; rune_e8 = r; synth_e8 = s } else d
read_values pool d other = d

abbrev pub read_row : Bytes → PoolDepths → Row → PoolDepths
read_row pool d row =
    if codes row.table == codes "block_pool_depths" then read_values pool d row.values else d

abbrev recorded_from : Bytes → PoolDepths → List Row → PoolDepths
recorded_from pool d [] = d
recorded_from pool d (row ∷ rows) = recorded_from pool (read_row pool d row) rows

-- The depths of a pool by the last of its rows: 0 if it has none.
abbrev pub recorded : Bytes → List Row → PoolDepths
recorded pool rows = recorded_from pool no_depths rows

pub recorded_from-append :
    (pool : Bytes) (d : PoolDepths) (rows : List Row) (row : Row)
    → recorded_from pool d (rows ++ row ∷ []) ≡ read_row pool (recorded_from pool d rows) row
recorded_from-append pool d [] row = refl
recorded_from-append pool d (r ∷ rows) row = recorded_from-append pool (read_row pool d r) rows row

read_row-depth_row :
    (pool q : Bytes) (d : PoolDepths) (a r s ts : ℤ)
    → read_row q d (depth_row pool a r s ts)
      ≡ (if pool == q then record { asset_e8 = a; rune_e8 = r; synth_e8 = s } else d)
unfolding same
read_row-depth_row pool q d a r s ts = refl

diff_at_key-value : (m n : Depths) (pool : Bytes) → (diff_at_key m pool n).1 ≡ depth n pool
unfolding diff_at_key depth
diff_at_key-value m n pool = ground arith

diff_at_key-same :
    (m n : Depths) (pool : Bytes) → (diff_at_key m pool n).0 ≡ false → depth m pool ≡ depth n pool
unfolding diff_at_key depth
diff_at_key-same m n pool h = elim (Option-cases (lookup pool n)) [
  | inl e ↦ ground arith
  | inr (v, e) ↦ elim (Option-cases (lookup pool m)) [
    | inl f ↦ ground arith
    | inr (w, f) ↦ ground (arith, int_eq.equal_iff w v)
  ]
]

abbrev pub append_row : Option Row → List Row → List Row
append_row none rows = rows
append_row (some row) rows = rows ++ row ∷ []

or_false : (a b c : Bool) → a || b || c ≡ false → (a ≡ false) × (b ≡ false) × (c ≡ false)
or_false a b c h = ground arith

module _ (old new : RunningTotals) (ts : ℤ) where
  changed_row-cases :
      (pool : Bytes)
      → (changed_row old new ts pool ≡ none) × (current_depths old pool ≡ current_depths new pool)
        ⊎ (changed_row old new ts pool
            ≡ some (
                depth_row pool
                  (depth new.asset_e8_depth_per_pool pool)
                  (depth new.rune_e8_depth_per_pool pool)
                  (depth new.synth_e8_depth_per_pool pool)
                  ts))
  unfolding changed_row current_depths
  changed_row-cases pool =
      let a = diff_at_key-same old.asset_e8_depth_per_pool new.asset_e8_depth_per_pool pool in
      let r = diff_at_key-same old.rune_e8_depth_per_pool new.rune_e8_depth_per_pool pool in
      let s = diff_at_key-same old.synth_e8_depth_per_pool new.synth_e8_depth_per_pool pool in
      elim (Bool-cases (
        (diff_at_key old.asset_e8_depth_per_pool pool new.asset_e8_depth_per_pool).0
        || (diff_at_key old.rune_e8_depth_per_pool pool new.rune_e8_depth_per_pool).0
        || (diff_at_key old.synth_e8_depth_per_pool pool new.synth_e8_depth_per_pool).0)) [
          | inl changed ↦ inr (
              rw (
                changed,
                diff_at_key-value old.asset_e8_depth_per_pool new.asset_e8_depth_per_pool pool,
                diff_at_key-value old.rune_e8_depth_per_pool new.rune_e8_depth_per_pool pool,
                diff_at_key-value old.synth_e8_depth_per_pool new.synth_e8_depth_per_pool pool,
              ))
          | inr kept ↦
              let (ea, er, es) = or_false _ _ _ kept in inl (rw kept, rw (a ea, r er, s es))
        ]

  already :
      (q : Bytes) (d : PoolDepths)
      → (d ≡ current_depths old q) ⊎ (d ≡ current_depths new q)
      → current_depths old q ≡ current_depths new q
      → d ≡ current_depths new q
  already q d (inl e) unchanged = e ∙ unchanged
  already q d (inr e) unchanged = e

  depths_of :
      (q : Bytes)
      → record {
        asset_e8 = depth new.asset_e8_depth_per_pool q;
        rune_e8 = depth new.rune_e8_depth_per_pool q;
        synth_e8 = depth new.synth_e8_depth_per_pool q;
      }
        ≡ current_depths new q
  unfolding current_depths
  depths_of q = refl

  -- Visiting a pool makes its row the new one, and leaves those of the other pools alone.
  pub recorded-append_row :
      (q pool : Bytes) (rows : List Row)
      → (recorded q rows ≡ current_depths old q) ⊎ (recorded q rows ≡ current_depths new q)
      → recorded q (append_row (changed_row old new ts pool) rows)
        ≡ (if pool == q then current_depths new q else recorded q rows)
  recorded-append_row q pool rows known = elim (changed_row-cases pool) [
    | inl (none_written, unchanged) ↦ elim (Bool-cases (same pool q)) [
      | inl e ↦
          let pool_is_q : pool ≡ q = (bytes_eq.equal_iff pool q).0 e in
          rw (none_written, e) (already q (recorded q rows) known (rw pool_is_q at unchanged))
      | inr e ↦ rw (none_written, e)
    ]
    | inr written ↦ elim (Bool-cases (same pool q)) [
      | inl e ↦
          rw
            (
              written,
              recorded_from-append q no_depths rows,
              read_row-depth_row pool q (recorded q rows),
              e,
              (bytes_eq.equal_iff pool q).0 e,
            )
            (depths_of q)
      | inr e ↦ rw (
        written,
        recorded_from-append q no_depths rows,
        read_row-depth_row pool q (recorded q rows),
        e,
      )
    ]
  ]
