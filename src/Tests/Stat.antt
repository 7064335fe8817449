-- ===== src/Tests/Stat.antt =====
-- The rows of a query in their buckets, at concrete inputs.
use midgard.Base.{ℕ, ◌≡◌, refl, some, List, [], ◌∷◌, ◌++◌, map, arith}
use midgard.Base.Int.{ℤ, pos, add64, wrap64, ◌+ℤ◌}
use midgard.Timeseries.Stat.{query_bucketed_general, bucket_loop, advance}
use midgard.Timeseries.Stat.Buckets.{AreWithin, saved, query_bucketed_general-saved}

-- Two pools change at 20, one at 40, and nothing at 30.
abbrev rows : List (ℤ × ℕ)
rows = (pos 20, 1) ∷ (pos 20, 2) ∷ (pos 40, 3) ∷ []

abbrev collect : ℕ → List ℕ → List ℕ
collect x xs = xs ++ x ∷ []

buckets_within : AreWithin (pos 0) (add64 (pos 50) (pos 1)) (pos 20 ∷ pos 30 ∷ pos 40 ∷ [])
unfolding add64 wrap64 ◌+ℤ◌
buckets_within = (refl, refl, (refl, refl, (refl, refl, tt)))

query_bucketed_general-saved_example :
    query_bucketed_general collect (pos 50) (pos 20 ∷ pos 30 ∷ pos 40 ∷ []) 0 [] (map some rows)
    ≡ some (saved collect (pos 50) (pos 20 ∷ pos 30 ∷ pos 40 ∷ []) [] rows)
query_bucketed_general-saved_example =
    query_bucketed_general-saved collect (pos 50) (pos 20 ∷ pos 30 ∷ pos 40 ∷ []) 0 [] rows
      (omega arith, (omega arith, (omega arith, tt))) buckets_within

saved_values :
    query_bucketed_general collect (pos 50) (pos 20 ∷ pos 30 ∷ pos 40 ∷ []) 0 [] (map some rows)
    ≡ some ((1 ∷ 2 ∷ []) ∷ (1 ∷ 2 ∷ []) ∷ (1 ∷ 2 ∷ 3 ∷ []) ∷ [])
unfolding query_bucketed_general bucket_loop advance add64 wrap64 ◌+ℤ◌
saved_values = refl
