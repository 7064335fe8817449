-- ===== src/Tests/Db.antt =====
-- Event ids and batches of rows at concrete inputs.
use Prim.Native.String.{String}
use midgard.Base.{◌≡◌, refl, true, none, some, List, [], ◌∷◌, ◌++◌, inl, inr, arith}
use midgard.Base.Bytes.{bytes_eq, codes}
use midgard.Base.Int.{ℤ, pos, ltb_ℤ, sub64, add64, wrap64, ◌+ℤ◌, ◌-ℤ◌}
use midgard.Base.Maps.{lookup}
use midgard.Db.EventId.{begin_block_events, txs_results, as_bigint, parse_event_id}
use midgard.Db.EventId.RoundTrip.{event_id, parse_event_id-as_bigint, as_bigint-parse_event_id}
use midgard.Db.EventId.Order.{as_bigint-Before}
use midgard.Db.Buckets.{
  ok, panic, day, Source, Buckets, generate_buckets_with_interval, from_to, generate_timestamps,
  trim_timestamps, first_index, last_index, cut_end, restrict_buckets, restrict_first,
  restrict_last, max_duration, min_duration,
}
use midgard.Db.Buckets.Bounds.{Bounded, generate_buckets_with_interval-bounds}
use midgard.Db.Buckets.Edges.{trim_timestamps_panics}
use midgard.Db.Inserter.{batch_key}
use midgard.Db.Inserter.Batches.{rows_at, insert_all, rows_of, rows_at-insert_all}
use midgard.Db.Rows.{Row, text, int}

parse_event_id-as_bigint_example :
    (n : ℤ) × (as_bigint (event_id txs_results 17_562_000 3 12) ≡ n)
    × (parse_event_id n ≡ event_id txs_results 17_562_000 3 12)
parse_event_id-as_bigint_example =
    parse_event_id-as_bigint txs_results 17_562_000 3 12 (omega arith, omega arith, omega arith)

as_bigint-parse_event_id_example :
    as_bigint (parse_event_id (pos 175_620_003_000_000_012)) ≡ pos 175_620_003_000_000_012
as_bigint-parse_event_id_example = as_bigint-parse_event_id 175_620_003_000_000_012 (omega arith)

as_bigint-Before_example :
    ltb_ℤ (as_bigint (event_id begin_block_events 5 0 8)) (as_bigint (event_id txs_results 5 1 1))
    ≡ true
as_bigint-Before_example =
    as_bigint-Before begin_block_events txs_results 5 0 8 5 1 1 (omega arith, refl, omega arith)
      (omega arith, omega arith, omega arith) (inr (refl, inl (omega arith)))

abbrev fee_row : ℤ → Row
fee_row amount = record {
  table = "fee_events";
  columns = "tx" ∷ "asset_e8" ∷ [];
  values = text (codes "AB") ∷ int amount ∷ [];
}

abbrev gas_row : Row
gas_row = record { table = "gas_events"; columns = "asset_e8" ∷ []; values = int (pos 3) ∷ [] }

abbrev three_rows : List Row
three_rows = fee_row (pos 1) ∷ gas_row ∷ fee_row (pos 2) ∷ []

abbrev fee_columns : List String
fee_columns = "tx" ∷ "asset_e8" ∷ []

rows_at-insert_all_example :
    rows_at (lookup (batch_key "fee_events" fee_columns) (insert_all three_rows []))
    ≡ rows_at (lookup (batch_key "fee_events" fee_columns) [])
      ++ rows_of "fee_events" fee_columns three_rows
rows_at-insert_all_example = rows_at-insert_all "fee_events" fee_columns refl three_rows [] refl

-- Days of a chain that began on the third day and is at its tenth.
abbrev ten_days : Source
ten_days = record {
  first_second = pos 259_200;
  now_second = pos 864_000;
  query = λ duration from until i.
      some (pos 86_400 ∷ pos 172_800 ∷ pos 259_200 ∷ pos 345_600 ∷ pos 432_000 ∷ pos 518_400 ∷ []);
}

abbrev three_days : Buckets
three_days = record {
  timestamps = pos 172_800 ∷ pos 259_200 ∷ pos 345_600 ∷ pos 432_000 ∷ [];
  interval = some day;
}

three_days_answered :
    generate_buckets_with_interval ten_days (some (pos 200_000)) (some (pos 400_000)) none day
    ≡ ok three_days
unfolding generate_buckets_with_interval from_to generate_timestamps trim_timestamps first_index
    last_index cut_end restrict_buckets restrict_first restrict_last max_duration min_duration sub64
    add64 wrap64 ◌+ℤ◌ ◌-ℤ◌
three_days_answered = refl

generate_buckets_with_interval-bounds_example : Bounded none three_days
generate_buckets_with_interval-bounds_example =
    generate_buckets_with_interval-bounds ten_days (some (pos 200_000)) (some (pos 400_000)) none
      day three_days three_days_answered

trim_timestamps_panics_example :
    trim_timestamps (pos 500) (pos 900) (pos 0 ∷ pos 300 ∷ pos 400 ∷ []) ≡ panic
trim_timestamps_panics_example =
    trim_timestamps_panics (pos 500) (pos 900) (pos 0) (pos 300 ∷ pos 400 ∷ []) (refl, (refl, tt))
