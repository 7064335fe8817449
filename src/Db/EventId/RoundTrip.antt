-- ===== src/Db/EventId/RoundTrip.antt =====
-- The encoding of event ids loses nothing within the bounds that its comment states.
use midgard.Base.{
  ℕ, ◌+◌, ◌-◌, ◌*◌, ◌/◌, ◌%◌, ◌^◌, ◌≤◌, ◌<◌, ◌≡◌, refl, ap, ◌∙◌, true, false, inl, inr, arith, ltb,
  Bool-cases,
}
use midgard.Base.Int.{ℤ, pos, add64, mul64, div64, mod64, sub64, wrap64, ◌+ℤ◌, ◌-ℤ◌}
use midgard.Db.EventId.{
  EventId, EventLocation, begin_block_events, txs_results, end_block_events, as_bigint,
  as_bigint_at, parse_event_id, height_from_event_id, height_to_event_id,
}

abbrev pub event_id : EventLocation → ℕ → ℕ → ℕ → EventId
event_id l h t e = record {
  block_height = pos h;
  location = l;
  tx_index = pos t;
  event_index = pos e;
}

-- The number that is written for an id that fits.
abbrev pub encoded : EventLocation → ℕ → ℕ → ℕ → ℕ
encoded begin_block_events h t e = h * 10_000_000_000 + e
encoded txs_results h t e = h * 10_000_000_000 + 1_000_000_000 + t * 10_000 + e
encoded end_block_events h t e = h * 10_000_000_000 + 9_000_000_000 + e

-- The numbers of an id that one can write: a billion events outside of transactions, 800,000
-- transactions of 10,000 events, and as many blocks as an int64 has room for.
abbrev pub Fits : EventLocation → ℕ → ℕ → ℕ → Type 0
Fits begin_block_events h t e =
    (encoded begin_block_events h t e < 2 ^ 63) × (t ≡ 0) × (e < 1_000_000_000)
Fits txs_results h t e = (encoded txs_results h t e < 2 ^ 63) × (t < 800_000) × (e < 10_000)
Fits end_block_events h t e =
    (encoded end_block_events h t e < 2 ^ 63) × (t ≡ 999_999) × (e < 1_000_000_000)

pub as_bigint-encoded :
    (l : EventLocation) (h t e : ℕ)
    → Fits l h t e
    → as_bigint (event_id l h t e) ≡ pos (encoded l h t e)
unfolding as_bigint_at add64 mul64 wrap64 ◌+ℤ◌
as_bigint-encoded begin_block_events h t e f = ground arith
as_bigint-encoded txs_results h t e f = ground arith
as_bigint-encoded end_block_events h t e f = ground arith

parse_event_id-encoded :
    (l : EventLocation) (h t e : ℕ)
    → Fits l h t e
    → parse_event_id (pos (encoded l h t e)) ≡ event_id l h t e
unfolding parse_event_id div64 mod64 sub64 wrap64 ◌-ℤ◌
parse_event_id-encoded begin_block_events h t e f = ground arith
parse_event_id-encoded txs_results h t e f = ground arith
parse_event_id-encoded end_block_events h t e f = ground arith

-- An id whose numbers are within the bounds of the format is encoded, and `ParseEventId` gives back
-- the same id.
pub parse_event_id-as_bigint :
    (l : EventLocation) (h t e : ℕ)
    → Fits l h t e
    → (n : ℤ) × (as_bigint (event_id l h t e) ≡ n) × (parse_event_id n ≡ event_id l h t e)
parse_event_id-as_bigint l h t e f =
    (pos (encoded l h t e), as_bigint-encoded l h t e f, parse_event_id-encoded l h t e f)

module _ (n : ℕ) (h : n < 2 ^ 63) where
  parsed_begin :
      ltb (n % 10_000_000_000) 1_000_000_000 ≡ true
      → parse_event_id (pos n)
        ≡ event_id begin_block_events (n / 10_000_000_000) 0 (n % 10_000_000_000)
  unfolding parse_event_id div64 mod64
  parsed_begin b = ground arith

  parsed_txs :
      ltb (n % 10_000_000_000) 1_000_000_000 ≡ false
      → ltb (n % 10_000_000_000) 9_000_000_000 ≡ true
      → parse_event_id (pos n)
        ≡ event_id txs_results
            (n / 10_000_000_000)
            ((n % 10_000_000_000 - 1_000_000_000) / 10_000)
            (n % 10_000)
  unfolding parse_event_id div64 mod64 sub64 wrap64 ◌-ℤ◌
  parsed_txs b c = ground arith

  parsed_end :
      ltb (n % 10_000_000_000) 9_000_000_000 ≡ false
      → parse_event_id (pos n)
        ≡ event_id end_block_events
            (n / 10_000_000_000)
            999_999
            (n % 10_000_000_000 - 9_000_000_000)
  unfolding parse_event_id div64 mod64
  parsed_end b = ground arith

  -- Every non-negative int64 is the encoding of the id that `ParseEventId` reads from it.
  pub as_bigint-parse_event_id : as_bigint (parse_event_id (pos n)) ≡ pos n
  as_bigint-parse_event_id = elim (Bool-cases (ltb (n % 10_000_000_000) 9_000_000_000)) [
    | inr last ↦ rw (parsed_end last) (
        as_bigint-encoded end_block_events _ _ _ (ground arith, refl, ground arith)
        ∙ ap pos (ground arith))
    | inl earlier ↦ elim (Bool-cases (ltb (n % 10_000_000_000) 1_000_000_000)) [
      | inl first ↦ rw (parsed_begin first) (
          as_bigint-encoded begin_block_events _ _ _ (ground arith, refl, ground arith)
          ∙ ap pos (ground arith))
      | inr middle ↦ rw (parsed_txs middle earlier) (
          as_bigint-encoded txs_results _ _ _ (ground arith, ground arith, ground arith)
          ∙ ap pos (ground arith))
    ]
  ]

-- The height is read off an encoded id of any location, and the least id of a height lies at the
-- height's own multiple.
height_from_event_id-encoded :
    (l : EventLocation) (h t e : ℕ)
    → Fits l h t e
    → (height_from_event_id (pos (encoded l h t e)) ≡ pos h)
      × (height_to_event_id h ≤ encoded l h t e)
      × (encoded l h t e < height_to_event_id (h + 1))
unfolding height_from_event_id height_to_event_id div64
height_from_event_id-encoded begin_block_events h t e f = ground arith
height_from_event_id-encoded txs_results h t e f = ground arith
height_from_event_id-encoded end_block_events h t e f = ground arith
