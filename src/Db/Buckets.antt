-- ===== src/Db/Buckets.antt =====
-- internal/db/buckets.go: the timestamps that cut a period into intervals.
use Prim.Native.String.{String}
use midgard.Base.{
  ℕ, zero, suc, ◌+◌, ◌-◌, ◌*◌, Bool, true, false, ◌&&◌, ◌||◌, Option, none, some, List, [], ◌∷◌,
  ltb, leb, if◌then◌else◌, length, take, drop, get_or,
}
use midgard.Base.Bytes.{Bytes, codes, same, to_lower}
use midgard.Base.Int.{ℤ, pos, pos_part, ltb_ℤ, leb_ℤ, add64, sub64, mul64}
use midgard.Util.Numbers.{parse_int}
pub mod Bounds
pub mod Edges

-- What a call answers: a value, an error for the client, an error of the server, or a panic of an
-- index out of range.
pub data Answer (A : Type 0) : Type 0 where
  ok : A → Answer A
  bad_request internal_error panic : Answer A

infixl 5 ◌>>=◌
abbrev pub ◌>>=◌ : {A B : Type 0} → Answer A → (A → Answer B) → Answer B
ok a >>= f = f a
bad_request >>= f = bad_request
internal_error >>= f = internal_error
panic >>= f = panic

pub data Interval : Type 0 where
  min5 hour day week month quarter year : Interval

-- The bounds of the durations, in seconds.
unfoldable pub min_duration : Interval → ℕ
min_duration min5 = 60 * 5
min_duration hour = 60 * 60
min_duration day = 60 * 60 * 24
min_duration week = 60 * 60 * 24 * 7
min_duration month = 60 * 60 * 24 * 28
min_duration quarter = 60 * 60 * 24 * 28 * 3
min_duration year = 60 * 60 * 24 * 28 * 12

unfoldable pub max_duration : Interval → ℕ
max_duration min5 = 60 * 5
max_duration hour = 60 * 60
max_duration day = 60 * 60 * 24
max_duration week = 60 * 60 * 24 * 7
max_duration month = 60 * 60 * 24 * 31
max_duration quarter = 60 * 60 * 24 * 31 * 3
max_duration year = 60 * 60 * 24 * 31 * 12

-- `intervalFromJSONParamMap`
abbrev interval_names : List (String × Interval)
interval_names =
    ("5min", min5)
    ∷ ("hour", hour)
    ∷ ("day", day)
    ∷ ("week", week)
    ∷ ("month", month)
    ∷ ("quarter", quarter)
    ∷ ("year", year)
    ∷ []

interval_named : Bytes → List (String × Interval) → Option Interval
interval_named name [] = none
interval_named name ((n, i) ∷ rest) =
    if same (codes n) name then some i else interval_named name rest

pub record Buckets : Type 0 where
  pub timestamps : List ℤ
  pub interval : Option Interval

unfoldable pub one_interval_buckets : ℤ → ℤ → Buckets
one_interval_buckets from to = record { timestamps = from ∷ to ∷ []; interval = none }

abbrev pub max_interval_count : ℕ
max_interval_count = 400

abbrev pub cutoff_window_length : ℕ
cutoff_window_length = 2 * max_interval_count

-- What the program reads: the second of the first block, the present one, and the query, which
-- returns an error or timestamps for a duration, a lower and an upper bound, and an interval.
pub record Source : Type 0 where
  pub first_second : ℤ
  pub now_second : ℤ
  pub query : ℕ → ℤ → ℤ → Interval → Option (List ℤ)

-- `for ; 0 < lastIdx && w.Until <= timestamps[lastIdx-1]; lastIdx--`
unfoldable pub last_index : ℤ → List ℤ → ℕ → ℕ
last_index until ts zero = zero
last_index until ts (suc i) =
    let earlier = last_index until ts i in
    if leb_ℤ until (get_or ts i (pos 0)) then earlier else suc i

-- `for ; firstIdx < len(timestamps) && timestamps[firstIdx+1] <= w.From; firstIdx++`, on the
-- timestamps from `firstIdx` on: with one of them left the index is out of range.
unfoldable pub first_index : ℤ → List ℤ → ℕ → Option ℕ
first_index from [] i = some i
first_index from (t ∷ []) i = none
first_index from (t ∷ u ∷ rest) i =
    let later = first_index from (u ∷ rest) (suc i) in if leb_ℤ u from then later else some i

-- `timestamps[first : last+1]`
abbrev pub slice_of : List ℤ → ℕ → ℕ → Answer (List ℤ)
slice_of ts first last =
    if leb first (suc last) then ok (drop first (take (suc last) ts)) else panic

abbrev pub at_least_two : List ℤ → Answer (List ℤ)
at_least_two (t ∷ u ∷ rest) = ok (t ∷ u ∷ rest)
at_least_two _ = bad_request

abbrev pub slice_from : List ℤ → Option ℕ → ℕ → Answer (List ℤ)
slice_from ts none last = panic
slice_from ts (some first) last = slice_of ts first last

unfoldable pub trim_timestamps : ℤ → ℤ → List ℤ → Answer (List ℤ)
trim_timestamps from until ts =
    slice_from ts (first_index from ts 0) (last_index until ts (length ts - 1)) >>= at_least_two

-- `lastok` of `restrictBuckets`.
unfoldable pub restrict_last : ℤ → List ℤ → ℕ → ℕ
restrict_last last_block ts zero = zero
restrict_last last_block ts (suc i) =
    let earlier = restrict_last last_block ts i in
    if ltb 0 i && ltb_ℤ last_block (get_or ts i (pos 0)) then earlier else suc i

-- How many timestamps before `lastok` the loop over `firstok` drops, and what is left.
unfoldable pub restrict_first : ℤ → List ℤ → List ℤ
restrict_first first_block (t ∷ u ∷ v ∷ rest) =
    let fewer = restrict_first first_block (u ∷ v ∷ rest) in
    if ltb_ℤ u first_block then fewer else t ∷ u ∷ v ∷ rest
restrict_first first_block ts = ts

unfoldable pub restrict_buckets : ℤ → ℤ → List ℤ → List ℤ
restrict_buckets first_block last_block ts =
    restrict_first first_block (take (suc (restrict_last last_block ts (length ts - 1))) ts)

-- `Count`
abbrev pub count_of : List ℤ → ℕ
count_of ts = length ts - 1

-- At most `n` intervals: the first ones, or the last ones.
unfoldable pub cut_end : ℕ → List ℤ → List ℤ
cut_end n ts = if ltb n (count_of ts) then take (suc n) ts else ts

unfoldable pub cut_begin : ℕ → List ℤ → List ℤ
cut_begin n ts = if ltb n (count_of ts) then drop (count_of ts - n) ts else ts

module _ (src : Source) where
  abbrev pub trim_rows : ℤ → ℤ → Option (List ℤ) → Answer (List ℤ)
  trim_rows from until none = internal_error
  trim_rows from until (some ts) = trim_timestamps from until ts

  unfoldable pub generate_timestamps : Interval → ℤ → ℤ → Answer (List ℤ)
  generate_timestamps i from until =
      if ltb_ℤ (pos (max_duration i * cutoff_window_length)) (sub64 until from)
      then bad_request
      else let until_param = add64 (add64 until (pos (max_duration i))) (pos (min_duration i)) in
        let from_param = sub64 (sub64 from (pos (max_duration i))) (pos (min_duration i)) in
        trim_rows from until (src.query (min_duration i) from_param until_param i)

  unfoldable pub buckets_from_window : ℤ → ℤ → Interval → Answer Buckets
  buckets_from_window from until i = do
    ts ← generate_timestamps i from until
    if ltb max_interval_count (count_of ts)
        then bad_request
        else ok (record { timestamps = ts; interval = some i })

  abbrev pub restricted : List ℤ → List ℤ
  restricted = restrict_buckets src.first_second src.now_second

  abbrev pub or_else : Option ℤ → ℤ → ℤ
  or_else none d = d
  or_else (some s) d = s

  -- No count was given.
  unfoldable pub from_to : Option ℤ → Option ℤ → Interval → Answer (List ℤ)
  from_to from to i = do
    ts ← generate_timestamps i (or_else from src.first_second) (or_else to src.now_second)
    ok (restricted (cut_end max_interval_count ts))

  -- The end and a count were given: the beginning is trimmed.
  unfoldable pub count_to : ℤ → ℤ → Interval → Answer (List ℤ)
  count_to to count i = do
    ts ← generate_timestamps i (sub64 to (mul64 count (max_duration i))) to
    ok (cut_begin (pos_part count) (restricted ts))

  -- The beginning and a count were given: the end is trimmed.
  unfoldable pub count_from : ℤ → ℤ → Interval → Answer (List ℤ)
  count_from from count i = do
    ts ← generate_timestamps i from (add64 from (mul64 count (max_duration i)))
    ok (cut_end (pos_part count) (restricted ts))

  abbrev pub counted : Option ℤ → Option ℤ → ℤ → Interval → Answer (List ℤ)
  counted (some from) (some to) count i = bad_request
  counted none none count i = count_to src.now_second count i
  counted none (some to) count i = count_to to count i
  counted (some from) none count i = count_from from count i

  abbrev pub timestamps_with_interval : Option ℤ → Option ℤ → Option ℤ → Interval → Answer (List ℤ)
  timestamps_with_interval from to none i = from_to from to i
  timestamps_with_interval from to (some count) i =
      if ltb_ℤ count (pos 1) || ltb_ℤ (pos max_interval_count) count
      then bad_request
      else counted from to count i

  unfoldable pub generate_buckets_with_interval :
      Option ℤ → Option ℤ → Option ℤ → Interval → Answer Buckets
  generate_buckets_with_interval from to count i = do
    ts ← timestamps_with_interval from to count i
    ok (record { timestamps = ts; interval = some i })

  unfoldable pub generate_buckets_only_meta : Option ℤ → Option ℤ → Option ℤ → Answer Buckets
  unfolding one_interval_buckets
  generate_buckets_only_meta from to (some count) = bad_request
  generate_buckets_only_meta from to none =
      ok (one_interval_buckets (or_else from src.first_second) (or_else to src.now_second))

-- The text of a parameter, empty if it is not there.
unfoldable pub optional_int_param : Bytes → Answer (Option ℤ)
optional_int_param [] = ok none
optional_int_param (c ∷ cs) = elim ((parse_int (c ∷ cs)).1) [
  | none ↦ ok (some (parse_int (c ∷ cs)).0)
  | some err ↦ bad_request
]

unfoldable pub buckets_from_query : Source → Bytes → Bytes → Bytes → Bytes → Answer Buckets
unfolding optional_int_param interval_named
buckets_from_query src from_text to_text count_text interval_text = do
  from ← optional_int_param from_text
  to ← optional_int_param to_text
  count ← optional_int_param count_text
  with_interval interval_text from to count
  where
    with_interval : Bytes → Option ℤ → Option ℤ → Option ℤ → Answer Buckets
    with_interval [] from to count = generate_buckets_only_meta src from to count
    with_interval (c ∷ cs) from to count =
        elim (interval_named (to_lower (c ∷ cs)) interval_names) [
          | none ↦ bad_request
          | some i ↦ generate_buckets_with_interval src from to count i
        ]
