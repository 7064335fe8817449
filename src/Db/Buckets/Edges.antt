-- ===== src/Db/Buckets/Edges.antt =====
-- Where restricted buckets begin and end, and where the trimming of timestamps fails.
use midgard.Base.{
  ◌≡◌, refl, ℕ, suc, ◌≤◌, true, false, ◌⊎◌, inl, inr, none, List, [], ◌∷◌, length, get_or,
  Bool-cases, arith,
}
use midgard.Base.Int.{ℤ, pos, leb_ℤ, ltb_ℤ}
use midgard.Db.Buckets.{panic, first_index, trim_timestamps, restrict_first, restrict_buckets}

-- All timestamps behind the first are at or before `from`.
abbrev pub AllBefore : ℤ → List ℤ → Type 0
AllBefore from [] = Unit
AllBefore from (t ∷ []) = Unit
AllBefore from (t ∷ u ∷ rest) = (leb_ℤ u from ≡ true) × AllBefore from (u ∷ rest)

first_index_out_of_range :
    (from t : ℤ) (rest : List ℤ) (i : ℕ)
    → AllBefore from (t ∷ rest)
    → first_index from (t ∷ rest) i ≡ none
unfolding first_index
first_index_out_of_range from t [] i h = refl
first_index_out_of_range from t (u ∷ rest) i h =
    rw h.0 (first_index_out_of_range from u rest (suc i) h.1)

-- If the query returns timestamps, and all of them but the first are at or before the beginning of
-- the window, the loop over `firstIdx` reads the timestamp behind the last one and panics.
pub trim_timestamps_panics :
    (from until t : ℤ) (rest : List ℤ)
    → AllBefore from (t ∷ rest)
    → trim_timestamps from until (t ∷ rest) ≡ panic
unfolding trim_timestamps
trim_timestamps_panics from until t rest h = rw (first_index_out_of_range from t rest 0 h)

restrict_first_edge :
    (b : ℤ) (ts : List ℤ)
    → (length (restrict_first b ts) ≤ 2)
      ⊎ (ltb_ℤ (get_or (restrict_first b ts) 1 (pos 0)) b ≡ false)
unfolding restrict_first
restrict_first_edge b [] = inl (omega arith)
restrict_first_edge b (t ∷ []) = inl (omega arith)
restrict_first_edge b (t ∷ u ∷ []) = inl (omega arith)
restrict_first_edge b (t ∷ u ∷ v ∷ rest) = elim (Bool-cases (ltb_ℤ u b)) [
  | inl e ↦ rw e (restrict_first_edge b (u ∷ v ∷ rest))
  | inr e ↦ rw e (inr e)
]

-- Restricted buckets have at most one timestamp before the first block, unless only two are left.
restrict_buckets_first_edge :
    (f l : ℤ) (ts : List ℤ)
    → (length (restrict_buckets f l ts) ≤ 2)
      ⊎ (ltb_ℤ (get_or (restrict_buckets f l ts) 1 (pos 0)) f ≡ false)
unfolding restrict_buckets
restrict_buckets_first_edge f l ts = restrict_first_edge f _
