-- ===== src/Timeseries/Stat/Buckets.antt =====
-- internal/timeseries/stat/depth.go: what is saved for each bucket.
use midgard.Base.{
  ◌≡◌, refl, sym, ap, ◌∙◌, true, false, some, List, [], ◌∷◌, map, Bool-cases, inl, inr, arith,
}
use midgard.Base.Int.{ℤ, pos, add64, ltb_ℤ, int_beq, ◌≤ℤ◌}
use midgard.Timeseries.Stat.{ready, apply_if, advance, bucket_loop, query_bucketed_general}

-- The rows are in the order of their timestamps.
abbrev pub AllFrom : {X : Type 0} → ℤ → List (ℤ × X) → Type 0
AllFrom t [] = Unit
AllFrom t ((u, y) ∷ rows) = (t ≤ℤ u) × AllFrom u rows

-- The buckets are in order, behind a timestamp and before another.
abbrev pub AreWithin : ℤ → ℤ → List ℤ → Type 0
AreWithin t top [] = Unit
AreWithin t top (f ∷ fs) = (ltb_ℤ t f ≡ true) × (ltb_ℤ f top ≡ true) × AreWithin f top fs

module _ {X A : Type 0} (apply : X → A → A) (end : ℤ) where
  -- The specification: a bucket applies the rows of the timestamp that it begins with.
  abbrev pub apply_at : ℤ → List (ℤ × X) → A → A
  apply_at f [] acc = acc
  apply_at f ((t, y) ∷ rows) acc = apply_at f rows (apply_if apply end (int_beq t f) y acc)

  abbrev pub saved : List ℤ → A → List (ℤ × X) → List A
  saved [] acc rows = []
  saved (f ∷ fs) acc rows = apply_at f rows acc ∷ saved fs (apply_at f rows acc) rows

  apply_at_later :
      (f t : ℤ) (rows : List (ℤ × X)) (acc : A)
      → ltb_ℤ f t ≡ true
      → AllFrom t rows
      → apply_at f rows acc ≡ acc
  apply_at_later f t [] acc before from = refl
  apply_at_later f t ((u, y) ∷ rows) acc before (le, from) =
      let other : int_beq u f ≡ false = ground arith in
      rw other (apply_at_later f u rows acc (ground arith) from)

  saved_skip :
      (fs : List ℤ) (lo top t : ℤ) (x : X) (rows : List (ℤ × X)) (acc : A)
      → AreWithin lo top fs
      → t ≤ℤ lo
      → saved fs acc ((t, x) ∷ rows) ≡ saved fs acc rows
  saved_skip [] lo top t x rows acc within le = refl
  saved_skip (f ∷ fs) lo top t x rows acc (above, below, within) le =
      let other : int_beq t f ≡ false = ground arith in
      rw other (
        ap (◌∷◌ (apply_at f rows acc))
          (saved_skip fs f top t x rows (apply_at f rows acc) within (ground arith)))

  saved_skip_later :
      (fs : List ℤ) (lo top : ℤ) (x : X) (acc : A)
      → AreWithin lo top fs
      → saved fs acc ((top, x) ∷ []) ≡ saved fs acc []
  saved_skip_later [] lo top x acc within = refl
  saved_skip_later (f ∷ fs) lo top x acc (above, below, within) =
      let other : int_beq top f ≡ false = ground arith in
      rw other (ap (◌∷◌ acc) (saved_skip_later fs f top x acc within))

  -- The loop over the rows applies those of the bucket, and leaves the rows of the later ones.
  advance-saved :
      (f : ℤ) (fs : List ℤ) (next : ℤ) (x : X) (acc : A) (rows : List (ℤ × X))
      → AllFrom next rows
      → ltb_ℤ f (add64 end (pos 1)) ≡ true
      → AreWithin f (add64 end (pos 1)) fs
      → (n : ℤ) × (y : X) × (rs : List (ℤ × X)) × (advance apply end f next x acc (map some rows)
          ≡ ready n y (apply_at f rows acc) (map some rs))
        × AllFrom n rs
        × ((a : A) → saved fs a ((n, y) ∷ rs) ≡ saved fs a ((next, x) ∷ rows))
  unfolding advance
  advance-saved f fs next x acc [] from before within = elim (Bool-cases (ltb_ℤ f next)) [
    | inl gone ↦ (next, x, [], rw gone refl, tt, λ a. refl)
    | inr here ↦ (
      add64 end (pos 1),
      x,
      [],
      rw (here, before) refl,
      tt,
      λ a.
          saved_skip_later fs f (add64 end (pos 1)) x a within
          ∙ sym (saved_skip fs f (add64 end (pos 1)) next x [] a within (ground arith)),
    )
  ]
  advance-saved f fs next x acc ((t, y) ∷ rows) (le, from) before within =
      elim (Bool-cases (ltb_ℤ f next)) [
        | inl gone ↦ (
          next,
          x,
          (t, y) ∷ rows,
          rw gone (
              ap (λ b. ready next x b (some (t, y) ∷ map some rows))
                (sym (apply_at_later f next ((t, y) ∷ rows) acc gone (le, from)))),
          (le, from),
          λ a. refl,
        )
        | inr here ↦
            let (n, z, rs, e, rest, same) =
              advance-saved f fs t y (apply_if apply end (int_beq t f) y acc) rows from before
                within in
            (
              n,
              z,
              rs,
              rw here e,
              rest,
              λ a.
                  same a
                  ∙ sym (
                      saved_skip fs f (add64 end (pos 1)) next x ((t, y) ∷ rows) a within
                        (ground arith)),
            )
      ]

  bucket_loop-saved :
      (fs : List ℤ) (lo next : ℤ) (x : X) (acc : A) (rows : List (ℤ × X))
      → AllFrom next rows
      → AreWithin lo (add64 end (pos 1)) fs
      → bucket_loop apply end fs next x acc (map some rows) ≡ some (saved fs acc ((next, x) ∷ rows))
  unfolding bucket_loop
  bucket_loop-saved [] lo next x acc rows from within = refl
  bucket_loop-saved (f ∷ fs) lo next x acc rows from (above, below, within) =
      let (n, y, rs, e, rest, same) =
        advance-saved f fs next x (apply_if apply end (int_beq next f) x acc) rows from below
          within in
      let a = apply_at f rows (apply_if apply end (int_beq next f) x acc) in
      rw (e, bucket_loop-saved fs f n y a rs rest within) (ap (λ l. some (a ∷ l)) (same a))

  -- If the rows come in the order of their timestamps, none before 0, and the buckets are in order,
  -- behind 0 and before the end of the last one or at it: the query ends with no error, and the value
  -- saved for a bucket is the one before with the rows applied, in order, that have the timestamp
  -- that the bucket begins with.
  pub query_bucketed_general-saved :
      (froms : List ℤ) (zero_row : X) (acc : A) (rows : List (ℤ × X))
      → AllFrom (pos 0) rows
      → AreWithin (pos 0) (add64 end (pos 1)) froms
      → query_bucketed_general apply end froms zero_row acc (map some rows)
        ≡ some (saved froms acc rows)
  unfolding query_bucketed_general
  query_bucketed_general-saved froms zero_row acc rows from within =
      bucket_loop-saved froms (pos 0) (pos 0) zero_row acc rows from within
      ∙ ap some (
          saved_skip froms (pos 0) (add64 end (pos 1)) (pos 0) zero_row rows acc within
            (omega arith))
