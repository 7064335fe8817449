-- ===== src/Record/Load/Swaps/Printed.antt =====
-- internal/fetch/record/event.go, `Swap.LoadTendermint`: a swap that the chain prints is read back.
use Prim.Native.String.{String}
use midgard.Base.{◌≡◌, refl, Bool-cases, inl, inr, if◌then◌else◌, some, List, [], ◌∷◌, ◌++◌}
use midgard.Base.Bytes.{Bytes, codes, same, to_lower}
use midgard.Base.Int.{ℤ, InInt64}
use midgard.Util.Numbers.{int_str}
use midgard.Util.Numbers.RoundTrip.{parse_int-int_str}
use midgard.Record.Blocks.{Attribute}
use midgard.Record.Events.{Swap}
use midgard.Record.Load.Reader.{Settings, loaded, ok, each}
use midgard.Record.Load.Texts.{number, coin}
use midgard.Record.Load.Texts.Coins.{parse_coin-printed}
use midgard.Record.Load.Swaps.{swap_attribute, load_swap, lower_addresses}

abbrev pub attribute : String → Bytes → Attribute
attribute key value = record { key = codes key; value = value }

abbrev pub coin_str : Bytes → ℤ → Bytes
coin_str asset amount = int_str amount ++ b' ' ∷ asset

pub number-int_str : (text : String) (v : ℤ) → InInt64 v → number text (int_str v) ≡ ok v
unfolding number
number-int_str text v fits = rw (parse_int-int_str v fits) refl

pub coin-coin_str :
    (text : String) (asset : Bytes) (v : ℤ)
    → InInt64 v
    → coin text (coin_str asset v) ≡ ok (some asset, v)
unfolding coin
coin-coin_str text asset v fits = rw (parse_coin-printed v asset fits) refl

-- An address in lower case, on a chain that does not tell the cases apart.
abbrev pub folded : Settings → Bytes → Bytes → Bytes
folded cfg chain address = if cfg.case_insensitive_chains chain then to_lower address else address

module _ (tx chain from_addr to_addr from_asset to_asset memo pool : Bytes)
    (from_e8 to_e8 to_e8_min swap_slip_bp liq_fee_e8 liq_fee_in_rune_e8 quantity count : ℤ) where
  -- A swap all of whose fields are there, and the attributes of its event in the chain's order.
  abbrev pub whole_swap : Swap
  whole_swap = record {
    tx = some tx;
    chain = some chain;
    from_addr = some from_addr;
    to_addr = some to_addr;
    from_asset = some from_asset;
    from_e8 = from_e8;
    to_asset = some to_asset;
    to_e8 = to_e8;
    memo = some memo;
    pool = some pool;
    to_e8_min = to_e8_min;
    swap_slip_bp = swap_slip_bp;
    liq_fee_e8 = liq_fee_e8;
    liq_fee_in_rune_e8 = liq_fee_in_rune_e8;
    streaming_quantity = quantity;
    streaming_count = count;
  }

  abbrev pub swap_attributes : List Attribute
  swap_attributes =
      attribute "pool" pool
      ∷ attribute "swap_target" (int_str to_e8_min)
      ∷ attribute "swap_slip" (int_str swap_slip_bp)
      ∷ attribute "liquidity_fee" (int_str liq_fee_e8)
      ∷ attribute "liquidity_fee_in_rune" (int_str liq_fee_in_rune_e8)
      ∷ attribute "emit_asset" (coin_str to_asset to_e8)
      ∷ attribute "streaming_swap_quantity" (int_str quantity)
      ∷ attribute "streaming_swap_count" (int_str count)
      ∷ attribute "id" tx
      ∷ attribute "chain" chain
      ∷ attribute "from" from_addr
      ∷ attribute "to" to_addr
      ∷ attribute "coin" (coin_str from_asset from_e8)
      ∷ attribute "memo" memo
      ∷ []

  finish_swap-printed :
      (cfg : Settings)
      → ok (lower_addresses cfg whole_swap)
        ≡ loaded
            (record whole_swap {
              from_addr = some (folded cfg chain from_addr);
              to_addr = some (folded cfg chain to_addr);
            })
            []
  finish_swap-printed cfg = elim (Bool-cases (cfg.case_insensitive_chains chain)) [
    | inl folds ↦ rw folds refl
    | inr keeps ↦ rw keeps refl
  ]

  -- The event of a swap whose amounts are int64s is read as that swap, with no line logged; each of
  -- its two addresses is in lower case if the swap's chain is one of those that do not tell the
  -- cases apart, and as it was if not.
  pub load_swap-printed :
      (cfg : Settings)
      → InInt64 from_e8
      → InInt64 to_e8
      → InInt64 to_e8_min
      → InInt64 swap_slip_bp
      → InInt64 liq_fee_e8
      → InInt64 liq_fee_in_rune_e8
      → InInt64 quantity
      → InInt64 count
      → load_swap cfg swap_attributes
        ≡ loaded
            (record whole_swap {
              from_addr = some (folded cfg chain from_addr);
              to_addr = some (folded cfg chain to_addr);
            })
            []
  unfolding load_swap each swap_attribute same
  load_swap-printed cfg h1 h2 h3 h4 h5 h6 h7 h8 =
      rw
        (
          number-int_str "malformed price_target" to_e8_min h3,
          number-int_str "malformed swap_slip" swap_slip_bp h4,
          number-int_str "malformed liquidity_fee" liq_fee_e8 h5,
          number-int_str "malformed liquidity_fee_in_rune" liq_fee_in_rune_e8 h6,
          coin-coin_str "malformed emit_asset" to_asset to_e8 h2,
          number-int_str "malformed streaming_swap_quantity" quantity h7,
          number-int_str "malformed streaming_swap_count" count h8,
          coin-coin_str "malformed coins" from_asset from_e8 h1,
        )
        (finish_swap-printed cfg)
