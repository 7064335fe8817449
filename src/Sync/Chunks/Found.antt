-- ===== src/Sync/Chunks/Found.antt =====
-- internal/fetch/sync/blockstore/blockstore.go: what the search for a chunk finds.
use midgard.Base.{
  ℕ, zero, suc, ◌+◌, ◌-◌, ◌/◌, ◌≤◌, ◌<◌, ◌≡◌, refl, Bool, true, false, some, List, ◌∷◌, length,
  get_or, ltb, arith, Bool-cases, inl, inr,
}
use midgard.Base.Int.{ℤ, ◌≤ℤ◌, ltb_ℤ}
use midgard.Sync.Chunks.{
  Chunk, no_chunk, is_below, search_chunk, chunk_path, find_chunk_path_for_height,
}

-- The index is the least one that is not below.
abbrev pub IsFirst : (ℕ → Bool) → ℕ → Type 0
IsFirst below r = (below r ≡ false) × ((i : ℕ) → i < r → below i ≡ true)

module _ (below : ℕ → Bool) (top : ℕ)
    (down : (i j : ℕ) → i ≤ j → j ≤ top → below j ≡ true → below i ≡ true) where
  search_chunk-IsFirst :
      (fuel lo hi : ℕ)
      → hi - lo < fuel
      → lo ≤ hi
      → hi ≤ top
      → below hi ≡ false
      → ((i : ℕ) → i < lo → below i ≡ true)
      → (r : ℕ) × (search_chunk fuel below lo hi ≡ some r) × (r ≤ hi) × IsFirst below r
  unfolding search_chunk
  search_chunk-IsFirst zero lo hi enough le within above under = absurd (omega arith)
  search_chunk-IsFirst (suc fuel) lo hi enough le within above under =
      elim (Bool-cases (ltb lo hi)) [
        | inr done ↦ rw done (let e : lo ≡ hi = ground arith in (lo, refl, le, (rw e above, under)))
        | inl more ↦ elim (Bool-cases (below (lo + (hi - lo) / 2))) [
          | inl left ↦
              rw (more, left)
                (search_chunk-IsFirst fuel (lo + (hi - lo) / 2 + 1) hi (ground arith) (ground arith)
                  within above
                  (λ i h. down i (lo + (hi - lo) / 2) (omega arith) (ground arith) left))
          | inr right ↦
              rw (more, right)
                (let (r, e, le', first) =
                    search_chunk-IsFirst fuel lo (lo + (hi - lo) / 2) (ground arith) (ground arith)
                      (ground arith) right under in
                  (r, e, ground arith, first))
        ]
      ]

-- The names of the chunks are in the order of their heights.
abbrev pub IsAscending : List Chunk → Type 0
IsAscending chunks =
    (i j : ℕ)
    → i ≤ j
    → j < length chunks
    → (get_or chunks i no_chunk).height ≤ℤ (get_or chunks j no_chunk).height

below_down : (a b h : ℤ) → a ≤ℤ b → ltb_ℤ b h ≡ true → ltb_ℤ a h ≡ true
below_down a b h le below = ground arith

-- If the chunks are in the order of their heights and the last one is not below the height that is
-- asked for, the search ends and finds the first chunk that is not below it.
pub find_chunk_path_for_height-IsFirst :
    (c : Chunk) (cs : List Chunk) (h : ℤ)
    → IsAscending (c ∷ cs)
    → is_below (c ∷ cs) h (length cs) ≡ false
    → (r : ℕ) × (find_chunk_path_for_height (c ∷ cs) h
        ≡ chunk_path (get_or (c ∷ cs) r no_chunk).name)
      × (r < length (c ∷ cs))
      × IsFirst (is_below (c ∷ cs) h) r
unfolding find_chunk_path_for_height
find_chunk_path_for_height-IsFirst c cs h ascending last =
    let (r, e, le, first) =
      search_chunk-IsFirst (is_below (c ∷ cs) h) (length cs)
        (λ i j le within below.
          below_down (get_or (c ∷ cs) i no_chunk).height (get_or (c ∷ cs) j no_chunk).height h
            (ascending i j le (omega arith)) below)
        (suc (length cs)) 0 (length cs) (omega arith) (omega arith) (omega arith) last
        (λ i h. absurd (omega arith)) in
    (r, rw (last, e) refl, omega arith, first)
