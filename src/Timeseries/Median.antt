-- ===== src/Timeseries/Median.antt =====
-- internal/util/util.go: `GetMedian`. A float64 is its bit pattern, and 0 is the pattern of 0.0.
use midgard.Base.{ℕ, ◌-◌, ◌/◌, ◌%◌, Bool, List, [], ◌∷◌, ltb, if◌then◌else◌}
use midgard.Base.{length, get_or}
use midgard.Base.Int.{ℤ}

-- The arithmetic of the machine on float64: `a < b`, `(a + b) / 2`, and `float64(a) / float64(b)`
-- for two integers.
pub record Floats : Type 0 where
  pub less : ℕ → ℕ → Bool
  pub midpoint : ℕ → ℕ → ℕ
  pub ratio : ℤ → ℤ → ℕ

module _ (fl : Floats) where
  abbrev pub insert_sorted : ℕ → List ℕ → List ℕ
  insert_sorted x [] = x ∷ []
  insert_sorted x (y ∷ ys) = if fl.less y x then y ∷ insert_sorted x ys else x ∷ y ∷ ys

  -- `sort.SliceStable`
  abbrev pub sort_stable : List ℕ → List ℕ
  sort_stable [] = []
  sort_stable (x ∷ xs) = insert_sorted x (sort_stable xs)

  abbrev middle : List ℕ → ℕ
  middle sorted =
      let n = length sorted in
      if ltb 0 (n % 2)
      then get_or sorted (n / 2) 0
      else fl.midpoint (get_or sorted (n / 2 - 1) 0) (get_or sorted (n / 2) 0)

  unfoldable pub get_median : List ℕ → ℕ
  get_median [] = 0
  get_median (x ∷ xs) = middle (sort_stable (x ∷ xs))
