-- ===== src/Db/Buckets/Bounds.antt =====
-- How many timestamps an answer has.
use midgard.Base.{
  ◌≡◌, ℕ, zero, suc, ◌+◌, ◌-◌, ◌*◌, ◌≤◌, false, ◌||◌, Option, none, some, List, [], ◌∷◌, ltb, leb,
  length, take, length-take, length-drop, min, arith, Bool-cases, inl, inr,
}
use mathlib.Core.Path.{subst}
use midgard.Base.Int.{ℤ, pos, pos_part, ltb_ℤ, sub64}
use midgard.Db.Buckets.{
  slice_from, trim_rows, max_duration, restricted, cut_end, cut_begin, cutoff_window_length, Answer,
  ok, bad_request, internal_error, panic, ◌>>=◌, Interval, Buckets, Source, count_of, at_least_two,
  trim_timestamps, restrict_last, restrict_first, restrict_buckets, generate_timestamps, from_to,
  count_to, count_from, counted, timestamps_with_interval, generate_buckets_with_interval,
  first_index,
}

-- What holds of the value, if there is one.
abbrev pub Holds : {A : Type 0} → (A → Type 0) → Answer A → Type 0
Holds P (ok a) = P a
Holds P bad_request = Unit
Holds P internal_error = Unit
Holds P panic = Unit

Holds->>= :
    {A B : Type 0} (P : A → Type 0) (Q : B → Type 0) (m : Answer A) (f : A → Answer B)
    → Holds P m
    → ((a : A) → P a → Holds Q (f a))
    → Holds Q (m >>= f)
Holds->>= P Q (ok a) f h k = k a h
Holds->>= P Q bad_request f h k = tt
Holds->>= P Q internal_error f h k = tt
Holds->>= P Q panic f h k = tt

Holds-map :
    {A : Type 0} (P Q : A → Type 0) (m : Answer A) → Holds P m → ((a : A) → P a → Q a) → Holds Q m
Holds-map P Q (ok a) h k = k a h
Holds-map P Q bad_request h k = tt
Holds-map P Q internal_error h k = tt
Holds-map P Q panic h k = tt

in_range :
    (count : ℤ)
    → ltb_ℤ count (pos 1) || ltb_ℤ (pos 400) count ≡ false
    → (1 ≤ pos_part count) × (pos_part count ≤ 400)
in_range count e = ground arith

restrict_last-bounds :
    (b : ℤ) (ts : List ℤ) (n : ℕ) → (min 1 n ≤ restrict_last b ts n) × (restrict_last b ts n ≤ n)
unfolding restrict_last
restrict_last-bounds b ts zero = (omega arith, omega arith)
restrict_last-bounds b ts (suc i) = ground (arith, restrict_last-bounds b ts i)

restrict_first-bounds :
    (b : ℤ) (ts : List ℤ)
    → (min 2 (length ts) ≤ length (restrict_first b ts))
      × (length (restrict_first b ts) ≤ length ts)
unfolding restrict_first
restrict_first-bounds b [] = (omega arith, omega arith)
restrict_first-bounds b (t ∷ []) = (omega arith, omega arith)
restrict_first-bounds b (t ∷ u ∷ []) = (omega arith, omega arith)
restrict_first-bounds b (t ∷ u ∷ v ∷ rest) = elim (Bool-cases (ltb_ℤ u b)) [
  | inl e ↦ rw e (omega (arith, restrict_first-bounds b (u ∷ v ∷ rest)))
  | inr e ↦ rw e (omega arith, omega arith)
]

-- Restricting timestamps leaves at least two of them.
restrict_buckets-bounds :
    (f l : ℤ) (ts : List ℤ)
    → 2 ≤ length ts
    → (2 ≤ length (restrict_buckets f l ts)) × (length (restrict_buckets f l ts) ≤ length ts)
unfolding restrict_buckets
restrict_buckets-bounds f l ts h =
    let kept = take (suc (restrict_last l ts (length ts - 1))) ts in
    omega (
      arith,
      restrict_first-bounds f kept,
      restrict_last-bounds l ts (length ts - 1),
      length-take (suc (restrict_last l ts (length ts - 1))) ts,
    )

at_least_two-Holds : (ts : List ℤ) → Holds (λ l. 2 ≤ length l) (at_least_two ts)
at_least_two-Holds [] = tt
at_least_two-Holds (t ∷ []) = tt
at_least_two-Holds (t ∷ u ∷ rest) = omega arith

slice_from-Holds :
    (ts : List ℤ) (first : Option ℕ) (last : ℕ)
    → Holds (λ l. 2 ≤ length l) (slice_from ts first last >>= at_least_two)
slice_from-Holds ts none last = tt
slice_from-Holds ts (some first) last = elim (Bool-cases (leb first (suc last))) [
  | inl e ↦ rw e (at_least_two-Holds _)
  | inr e ↦ rw e tt
]

trim_timestamps-Holds :
    (from until : ℤ) (ts : List ℤ) → Holds (λ l. 2 ≤ length l) (trim_timestamps from until ts)
unfolding trim_timestamps
trim_timestamps-Holds from until ts = slice_from-Holds ts (first_index from ts 0) _

-- The most intervals that a request may have.
abbrev pub limit : Option ℤ → ℕ
limit none = 400
limit (some count) = pos_part count

-- At least two timestamps, and no more intervals than asked for or than 400.
abbrev pub Bounded : Option ℤ → Buckets → Type 0
Bounded count b =
    (2 ≤ length b.timestamps)
    × (count_of b.timestamps ≤ limit count)
    × (count_of b.timestamps ≤ 400)

abbrev Fits : ℕ → List ℤ → Type 0
Fits n ts = (2 ≤ length ts) × (length ts ≤ n + 1)

module _ (src : Source) where
  trim_rows-Holds :
      (from until : ℤ) (rows : Option (List ℤ))
      → Holds (λ l. 2 ≤ length l) (trim_rows src from until rows)
  trim_rows-Holds from until none = tt
  trim_rows-Holds from until (some ts) = trim_timestamps-Holds from until ts

  generate_timestamps-Holds :
      (i : Interval) (from until : ℤ)
      → Holds (λ l. 2 ≤ length l) (generate_timestamps src i from until)
  unfolding generate_timestamps
  generate_timestamps-Holds i from until =
      elim (Bool-cases (ltb_ℤ (pos (max_duration i * cutoff_window_length)) (sub64 until from))) [
        | inl e ↦ rw e tt
        | inr e ↦ rw e (trim_rows-Holds from until _)
      ]

cut_end-Fits : (n : ℕ) (ts : List ℤ) → 1 ≤ n → 2 ≤ length ts → Fits n (cut_end n ts)
unfolding cut_end
cut_end-Fits n ts one h = elim (Bool-cases (ltb n (count_of ts))) [
  | inl e ↦ rw e (ground (arith, length-take (suc n) ts), ground (arith, length-take (suc n) ts))
  | inr e ↦ rw e (h, ground arith)
]

cut_begin-Fits : (n : ℕ) (ts : List ℤ) → 1 ≤ n → 2 ≤ length ts → Fits n (cut_begin n ts)
unfolding cut_begin
cut_begin-Fits n ts one h = elim (Bool-cases (ltb n (count_of ts))) [
  | inl e ↦
      let left = length-drop (count_of ts - n) ts in
      rw e (ground (arith, left), ground (arith, left))
  | inr e ↦ rw e (h, ground arith)
]

module _ (src : Source) where
  from_to-Holds : (from to : Option ℤ) (i : Interval) → Holds (Fits 400) (from_to src from to i)
  unfolding from_to
  from_to-Holds from to i =
      Holds->>= (λ l. 2 ≤ length l) (Fits 400) _ _ (generate_timestamps-Holds src i _ _)
        (λ ts h.
          let cut = cut_end-Fits 400 ts (omega arith) h in
          let kept =
            restrict_buckets-bounds src.first_second src.now_second (cut_end 400 ts) cut.0 in
          (kept.0, omega (arith, kept.1, cut.1)))

  count_to-Holds :
      (to count : ℤ) (i : Interval)
      → 1 ≤ pos_part count
      → Holds (Fits (pos_part count)) (count_to src to count i)
  unfolding count_to
  count_to-Holds to count i one =
      Holds->>= (λ l. 2 ≤ length l) (Fits (pos_part count)) _ _
        (generate_timestamps-Holds src i _ _)
        (λ ts h.
          cut_begin-Fits (pos_part count) (restricted src ts) one
            (restrict_buckets-bounds src.first_second src.now_second ts h).0)

  count_from-Holds :
      (from count : ℤ) (i : Interval)
      → 1 ≤ pos_part count
      → Holds (Fits (pos_part count)) (count_from src from count i)
  unfolding count_from
  count_from-Holds from count i one =
      Holds->>= (λ l. 2 ≤ length l) (Fits (pos_part count)) _ _
        (generate_timestamps-Holds src i _ _)
        (λ ts h.
          cut_end-Fits (pos_part count) (restricted src ts) one
            (restrict_buckets-bounds src.first_second src.now_second ts h).0)

  counted-Holds :
      (from to : Option ℤ) (count : ℤ) (i : Interval)
      → 1 ≤ pos_part count
      → Holds (Fits (pos_part count)) (counted src from to count i)
  counted-Holds (some from) (some to) count i one = tt
  counted-Holds none none count i one = count_to-Holds src.now_second count i one
  counted-Holds none (some to) count i one = count_to-Holds to count i one
  counted-Holds (some from) none count i one = count_from-Holds from count i one

  timestamps_with_interval-Holds :
      (from to count : Option ℤ) (i : Interval)
      → Holds
          (λ ts. Fits (limit count) ts × (limit count ≤ 400))
          (timestamps_with_interval src from to count i)
  timestamps_with_interval-Holds from to none i =
      Holds-map (Fits 400) _ (from_to src from to i) (from_to-Holds from to i)
        (λ ts f. (f, omega arith))
  timestamps_with_interval-Holds from to (some count) i =
      elim (Bool-cases (ltb_ℤ count (pos 1) || ltb_ℤ (pos 400) count)) [
        | inl e ↦ rw e tt
        | inr e ↦
            let (low, high) = in_range count e in
            rw e (
              Holds-map (Fits (pos_part count)) _ (counted src from to count i)
                (counted-Holds from to count i low) (λ ts f. (f, high)))
      ]

  -- Whatever the query returns, buckets that are answered for an interval have at least two
  -- timestamps, no more intervals than were asked for, and never more than 400.
  pub generate_buckets_with_interval-bounds :
      (from to count : Option ℤ) (i : Interval) (b : Buckets)
      → generate_buckets_with_interval src from to count i ≡ ok b
      → Bounded count b
  unfolding generate_buckets_with_interval
  generate_buckets_with_interval-bounds from to count i b e = subst (Holds (Bounded count)) e (
      Holds->>= (λ ts. Fits (limit count) ts × (limit count ≤ 400)) (Bounded count)
        (timestamps_with_interval src from to count i)
        (λ ts. ok (record { timestamps = ts; interval = some i }))
        (timestamps_with_interval-Holds from to count i)
        (λ ts f. (f.0.0, omega (arith, f.0.1), omega (arith, f.0.1, f.1))))
