-- ===== src/Record/Swaps.antt =====
-- internal/fetch/record/record.go: `OnSwap`.
pub mod Depths
use midgard.Base.{Bool, true, false, not, ◌||◌, Option, none, some, [], ◌∷◌, if◌then◌else◌}
use midgard.Base.Bytes.{str, codes, same}
use midgard.Base.Int.{ℤ, pos, neg64, ltb_ℤ, leb_ℤ}
use midgard.Util.Memo.{tx_type_from_memo, check_memo_is_streaming_swap}
use midgard.Record.Coin.{
  CoinType, switch, asset_native, asset_synth, asset_trade, unknown_coin, asset_derived,
  asset_secure, get_coin_type,
}
use midgard.Record.Events.{Swap}
use midgard.Record.Pools.{is_synth, is_native}
use midgard.Record.Monad.{
  int, bool, tx_type, slice, Metadata, Env, Action, ⊤, ◌>>=◌, ◌>>◌, log_event_parse_error,
  add_asset, add_rune, add_synth, when, insert_with_meta,
}

-- internal/db/dbenums.go
pub data SwapDirection : Type 0 where
  rune_to_asset asset_to_rune rune_to_synth synth_to_rune rune_to_derived : SwapDirection
  derived_to_rune rune_to_trade trade_to_rune rune_to_secure secure_to_rune : SwapDirection

abbrev pub direction_code : SwapDirection → ℤ
direction_code rune_to_asset = pos 0
direction_code asset_to_rune = pos 1
direction_code rune_to_synth = pos 2
direction_code synth_to_rune = pos 3
direction_code rune_to_derived = pos 4
direction_code derived_to_rune = pos 5
direction_code rune_to_trade = pos 6
direction_code trade_to_rune = pos 7
direction_code rune_to_secure = pos 8
direction_code secure_to_rune = pos 9

-- The switch over the two kinds of coin; `none` is its default case.
unfoldable pub swap_direction : CoinType → CoinType → Option SwapDirection
swap_direction switch asset_native = some rune_to_asset
swap_direction switch asset_synth = some rune_to_synth
swap_direction switch asset_derived = some rune_to_derived
swap_direction switch asset_trade = some rune_to_trade
swap_direction switch asset_secure = some rune_to_secure
swap_direction asset_native switch = some asset_to_rune
swap_direction asset_synth switch = some synth_to_rune
swap_direction asset_derived switch = some derived_to_rune
swap_direction asset_trade switch = some trade_to_rune
swap_direction asset_secure switch = some secure_to_rune
swap_direction _ _ = none

abbrev pub is_unknown : CoinType → Bool
is_unknown unknown_coin = true
is_unknown _ = false

abbrev pub is_rune : CoinType → Bool
is_rune switch = true
is_rune _ = false

abbrev pub is_streaming : Swap → Bool
is_streaming e = ltb_ℤ (pos 1) e.streaming_quantity || check_memo_is_streaming_swap (str e.memo)

module _ {S : Type 0} (env : Env S) where
  insert_swap : Swap → Metadata → SwapDirection → Action S Bool
  insert_swap e meta direction =
      insert_with_meta env "swap_events" meta
        ("tx" ∷ "chain" ∷ "from_addr" ∷ "to_addr" ∷ "from_asset" ∷ "from_e8" ∷ "to_asset" ∷ "to_e8"
          ∷ "memo" ∷ "pool" ∷ "to_e8_min" ∷ "swap_slip_bp" ∷ "liq_fee_e8" ∷ "liq_fee_in_rune_e8"
          ∷ "_direction" ∷ "_streaming" ∷ "_tx_type" ∷ "streaming_quantity" ∷ "streaming_count"
          ∷ [])
        (slice e.tx
          ∷ slice e.chain
          ∷ slice e.from_addr
          ∷ slice e.to_addr
          ∷ slice e.from_asset
          ∷ int e.from_e8
          ∷ slice e.to_asset
          ∷ int e.to_e8
          ∷ slice e.memo
          ∷ slice e.pool
          ∷ int e.to_e8_min
          ∷ int e.swap_slip_bp
          ∷ int e.liq_fee_e8
          ∷ int e.liq_fee_in_rune_e8
          ∷ int (direction_code direction)
          ∷ bool (is_streaming e)
          ∷ tx_type (tx_type_from_memo (str e.memo))
          ∷ int e.streaming_quantity
          ∷ int e.streaming_count
          ∷ [])

  -- What a swap moves in its pool, the liquidity fee aside.
  move_swapped : Swap → CoinType → CoinType → Action S ⊤
  move_swapped e from_coin to_coin =
      let pool = str e.pool in
      if is_rune to_coin
      then (do
        when (is_native from_coin) (add_asset pool e.from_e8)
        when (is_synth from_coin) (add_synth pool (neg64 e.from_e8))
        add_rune pool (neg64 e.to_e8))
      else (do
        add_rune pool e.from_e8
        when (is_native to_coin) (add_asset pool (neg64 e.to_e8))
        when (is_synth to_coin) (add_synth pool e.to_e8))

  -- The fee leaves the pool at once since a certain height: true if its row was lost, and then
  -- the handler returns.
  move_fee : Swap → Metadata → Action S Bool
  move_fee e meta =
      if leb_ℤ env.undelayed_liquidity_fees_height meta.block_height
      then (do
        add_rune (str e.pool) (neg64 e.liq_fee_in_rune_e8)
        if not (same (str e.pool) (codes "THOR.TCY"))
            then insert_with_meta env "rewards_event_entries" meta
                ("pool" ∷ "rune_e8" ∷ "saver_e8" ∷ [])
                (slice e.pool ∷ int (neg64 e.liq_fee_in_rune_e8) ∷ int (pos 0) ∷ [])
            else (λ s. (false, s)))
      else (λ s. (false, s))

  record_swap : Swap → Metadata → SwapDirection → CoinType → CoinType → Action S ⊤
  unfolding insert_swap move_fee move_swapped
  record_swap e meta direction from_coin to_coin = do
    failed ← insert_swap e meta direction
    if failed then log_event_parse_error "swap" else (do
      fee_failed ← move_fee e meta
      if fee_failed
          then log_event_parse_error "reserve transfer"
          else move_swapped e from_coin to_coin)

  unfoldable pub on_swap : Swap → Metadata → Action S ⊤
  unfolding record_swap
  on_swap e meta =
      let from_coin = get_coin_type (str e.from_asset) in
      let to_coin = get_coin_type (str e.to_asset) in
      if is_unknown from_coin
      then log_event_parse_error "swap from coin"
      else if is_unknown to_coin
      then log_event_parse_error "swap to coin"
      else elim (swap_direction from_coin to_coin) [
        | none ↦ log_event_parse_error "swap sides"
        | some direction ↦ record_swap e meta direction from_coin to_coin
      ]
