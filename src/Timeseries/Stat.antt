-- ===== src/Timeseries/Stat.antt =====
-- internal/timeseries/stat/depth.go, `queryBucketedGeneral`: the rows of a query, which come in the
-- order of their timestamps, are applied at the buckets that begin with them, and a value is saved
-- for each bucket. The query and the scanning of a row are parameters.
use midgard.Base.{Bool, true, false, Option, none, some, List, [], ◌∷◌, if◌then◌else◌}
use midgard.Base.Int.{ℤ, pos, add64, ltb_ℤ, int_beq}
pub mod Buckets

-- The state of the loop over the rows: what was scanned last, with its timestamp, the value so far,
-- and the rows that are left. A row that cannot be scanned is `none`. With no row left the loop
-- sets the timestamp behind the last bucket, and would not end if a bucket began there.
pub data Scan (X A : Type 0) : Type 0 where
  ready : ℤ → X → A → List (Option (ℤ × X)) → Scan X A
  scan_error : Scan X A
  endless : Scan X A

module _ {X A : Type 0} (apply : X → A → A) (end : ℤ) where
  abbrev pub apply_if : Bool → X → A → A
  apply_if b x acc = if b then apply x acc else acc

  -- `for nextDBTimestamp <= bucketWindow.From`
  unfoldable pub advance : ℤ → ℤ → X → A → List (Option (ℤ × X)) → Scan X A
  advance from next x acc [] =
      if ltb_ℤ from next
      then ready next x acc []
      else if ltb_ℤ from (add64 end (pos 1))
      then ready (add64 end (pos 1)) x acc []
      else endless
  advance from next x acc (none ∷ rows) =
      if ltb_ℤ from next then ready next x acc (none ∷ rows) else scan_error
  advance from next x acc (some (t, y) ∷ rows) =
      let later = advance from t y (apply_if (int_beq t from) y acc) rows in
      if ltb_ℤ from next then ready next x acc (some (t, y) ∷ rows) else later

  abbrev pub and_saved : A → Option (List A) → Option (List A)
  and_saved acc none = none
  and_saved acc (some rest) = some (acc ∷ rest)

  abbrev pub then_saved :
      (ℤ → X → A → List (Option (ℤ × X)) → Option (List A)) → Scan X A → Option (List A)
  then_saved rest (ready next x acc rows) = and_saved acc (rest next x acc rows)
  then_saved rest scan_error = none
  then_saved rest endless = none

  -- The loop over the buckets, by the timestamps that they begin with: the values that are saved.
  unfoldable pub bucket_loop : List ℤ → ℤ → X → A → List (Option (ℤ × X)) → Option (List A)
  unfolding advance
  bucket_loop [] next x acc rows = some []
  bucket_loop (from ∷ froms) next x acc rows =
      then_saved (bucket_loop froms) (advance from next x (apply_if (int_beq next from) x acc) rows)

  -- From the timestamp 0, with the zero value of a row.
  unfoldable pub query_bucketed_general : List ℤ → X → A → List (Option (ℤ × X)) → Option (List A)
  unfolding bucket_loop
  query_bucketed_general froms zero_row acc rows = bucket_loop froms (pos 0) zero_row acc rows
