-- ===== src/Record/Swaps/Depths.antt =====
-- What `OnSwap` does to the depths of the pools and to the rows.

use midgard.Base.{
  ◌≡◌, ◌≢◌, refl, ◌∙◌, ap, sym, inl, inr, Bool, true, false, not, ◌&&◌, ◌||◌, none, some, List, [],
  ◌∷◌, ◌++◌, arith, length, length-append, Bool-cases, ◌+◌, if◌then◌else◌,
}
use midgard.Base.Bytes.{str}
use midgard.Base.Int.{neg64, leb_ℤ}
use midgard.Record.Coin.{
  CoinType, switch, asset_native, asset_synth, asset_trade, unknown_coin, asset_derived,
  asset_secure, get_coin_type,
}
use midgard.Record.Events.{Swap}
use midgard.Record.Monad.{
  NeverFails, is_error_of_ne_none, Row, Metadata, Env, Recorder, insert_with_meta,
}
use midgard.Record.Postings.{asset, rune, synth, Posting, posting, post, post-append}
use midgard.Record.Swaps.{
  SwapDirection, rune_to_asset, asset_to_rune, rune_to_synth, synth_to_rune, rune_to_derived,
  derived_to_rune, rune_to_trade, trade_to_rune, rune_to_secure, secure_to_rune, swap_direction,
  is_rune, is_unknown, move_swapped, move_fee, insert_swap, record_swap, on_swap,
}

abbrev pub from_coin : Swap → CoinType
from_coin e = get_coin_type (str e.from_asset)

abbrev pub to_coin : Swap → CoinType
to_coin e = get_coin_type (str e.to_asset)

-- Exactly one side is Rune, and the other is a coin of a known kind.
abbrev pub is_two_sided : CoinType → CoinType → Bool
is_two_sided from to =
    (is_rune from && not (is_rune to) && not (is_unknown to))
    || (is_rune to && not (is_rune from) && not (is_unknown from))

-- The liquidity fee that leaves the pool, since the height at which it is no longer delayed.
abbrev pub fee_postings : {S : Type 0} → Env S → Swap → Metadata → List Posting
fee_postings env e meta =
    if leb_ℤ env.undelayed_liquidity_fees_height meta.block_height
    then posting rune (str e.pool) (neg64 e.liq_fee_in_rune_e8) ∷ []
    else []

-- What comes into the pool: Rune and native assets add to their depth, synths are burnt.
abbrev pub paid_in : Swap → CoinType → List Posting
paid_in e switch = posting rune (str e.pool) e.from_e8 ∷ []
paid_in e asset_native = posting asset (str e.pool) e.from_e8 ∷ []
paid_in e asset_synth = posting synth (str e.pool) (neg64 e.from_e8) ∷ []
paid_in e _ = []

-- What goes out of the pool: Rune and native assets leave their depth, synths are minted.
abbrev pub paid_out : Swap → CoinType → List Posting
paid_out e switch = posting rune (str e.pool) (neg64 e.to_e8) ∷ []
paid_out e asset_native = posting asset (str e.pool) (neg64 e.to_e8) ∷ []
paid_out e asset_synth = posting synth (str e.pool) e.to_e8 ∷ []
paid_out e _ = []

not_unknown : (to : CoinType) → is_two_sided unknown_coin to ≢ true
not_unknown to h = ground arith

module _ {S : Type 0} (env : Env S) where
  move_swapped-post :
      (e : Swap) (from to : CoinType) (s : Recorder S)
      → is_two_sided from to ≡ true
      → (move_swapped env e from to s).1.totals ≡ post (paid_in e from ++ paid_out e to) s.totals
  unfolding move_swapped
  move_swapped-post e switch asset_native s h = refl
  move_swapped-post e asset_native switch s h = refl
  move_swapped-post e switch asset_synth s h = refl
  move_swapped-post e asset_synth switch s h = refl
  move_swapped-post e switch asset_derived s h = refl
  move_swapped-post e asset_derived switch s h = refl
  move_swapped-post e switch asset_trade s h = refl
  move_swapped-post e asset_trade switch s h = refl
  move_swapped-post e switch asset_secure s h = refl
  move_swapped-post e asset_secure switch s h = refl
  move_swapped-post e unknown_coin to s h = absurd (not_unknown to h)
  move_swapped-post e _ _ s h = cc

  move_fee-post :
      (e : Swap) (meta : Metadata) (s : Recorder S)
      → (move_fee env e meta s).1.totals ≡ post (fee_postings env e meta) s.totals
  unfolding move_fee insert_with_meta
  move_fee-post e meta s = ground arith

  move_fee-NeverFails :
      NeverFails env
      → (e : Swap) (meta : Metadata) (s : Recorder S) → (move_fee env e meta s).0 ≡ false
  unfolding move_fee insert_with_meta
  move_fee-NeverFails never e meta s = grind (arith, never)

  insert_swap-NeverFails :
      NeverFails env
      → (e : Swap) (meta : Metadata) (d : SwapDirection) (s : Recorder S)
      → (insert_swap env e meta d s).0 ≡ false
  unfolding insert_swap insert_with_meta
  insert_swap-NeverFails never e meta d s = rw (never _ _)

  insert_swap_lost :
      (e : Swap) (meta : Metadata) (d : SwapDirection) (s : Recorder S)
      → ((row : Row) (store : S) → row.table ≡ "swap_events" → (env.insert_row row store).0 ≢ none)
      → (insert_swap env e meta d s).0 ≡ true
  unfolding insert_swap insert_with_meta
  insert_swap_lost e meta d s lost = is_error_of_ne_none _ (lost _ s.store refl)

  insert_swap-totals :
      (e : Swap) (meta : Metadata) (d : SwapDirection) (s : Recorder S)
      → (insert_swap env e meta d s).1.totals ≡ s.totals
  unfolding insert_swap insert_with_meta
  insert_swap-totals e meta d s = refl

  record_swap-post :
      NeverFails env
      → (e : Swap) (meta : Metadata) (d : SwapDirection) (from to : CoinType) (s : Recorder S)
      → is_two_sided from to ≡ true
      → (record_swap env e meta d from to s).1.totals
        ≡ post (fee_postings env e meta ++ (paid_in e from ++ paid_out e to)) s.totals
  unfolding record_swap
  record_swap-post never e meta d from to s h =
      let s₁ = (insert_swap env e meta d s).1 in
      rw (insert_swap-NeverFails never e meta d s, move_fee-NeverFails never e meta s₁)
        (move_swapped-post e from to (move_fee env e meta s₁).1 h
          ∙ ap (post (paid_in e from ++ paid_out e to)) (
              move_fee-post e meta s₁
              ∙ ap (post (fee_postings env e meta)) (insert_swap-totals e meta d s))
          ∙ sym (post-append (fee_postings env e meta) (paid_in e from ++ paid_out e to) s.totals))

direction_of_two_sided :
    (from to : CoinType)
    → is_two_sided from to ≡ true
    → (d : SwapDirection) × (swap_direction from to ≡ some d)
unfolding swap_direction
direction_of_two_sided switch asset_native h = (rune_to_asset, refl)
direction_of_two_sided switch asset_synth h = (rune_to_synth, refl)
direction_of_two_sided switch asset_derived h = (rune_to_derived, refl)
direction_of_two_sided switch asset_trade h = (rune_to_trade, refl)
direction_of_two_sided switch asset_secure h = (rune_to_secure, refl)
direction_of_two_sided asset_native switch h = (asset_to_rune, refl)
direction_of_two_sided asset_synth switch h = (synth_to_rune, refl)
direction_of_two_sided asset_derived switch h = (derived_to_rune, refl)
direction_of_two_sided asset_trade switch h = (trade_to_rune, refl)
direction_of_two_sided asset_secure switch h = (secure_to_rune, refl)
direction_of_two_sided unknown_coin to h = absurd (not_unknown to h)
direction_of_two_sided _ _ h = cc

direction_of_one_sided :
    (from to : CoinType) → is_two_sided from to ≡ false → swap_direction from to ≡ none
unfolding swap_direction
direction_of_one_sided from to h = ground arith

known_of_two_sided :
    (from to : CoinType)
    → is_two_sided from to ≡ true
    → (is_unknown from ≡ false) × (is_unknown to ≡ false)
known_of_two_sided from to h = ground arith

module _ {S : Type 0} (env : Env S) where
  -- A swap that has Rune on exactly one side, and a coin of a known kind on the other, moves the
  -- depths of its pool by the fee, by what was paid in and by what was paid out, if no insertion
  -- fails. The synths that come in are burnt, and those that go out are minted.
  pub on_swap-post :
      NeverFails env
      → (e : Swap) (meta : Metadata) (s : Recorder S)
      → is_two_sided (from_coin e) (to_coin e) ≡ true
      → (on_swap env e meta s).1.totals
        ≡ post
            (fee_postings env e meta ++ (paid_in e (from_coin e) ++ paid_out e (to_coin e)))
            s.totals
  unfolding on_swap
  on_swap-post never e meta s h =
      let (d, found) = direction_of_two_sided (from_coin e) (to_coin e) h in
      let (from_known, to_known) = known_of_two_sided (from_coin e) (to_coin e) h in
      rw (from_known, to_known, found)
        (record_swap-post env never e meta d (from_coin e) (to_coin e) s h)

  -- Any other swap is logged, and changes neither the depths nor the rows.
  pub on_swap_rejects :
      (e : Swap) (meta : Metadata) (s : Recorder S)
      → is_two_sided (from_coin e) (to_coin e) ≡ false
      → let s' = (on_swap env e meta s).1 in
        (s'.totals ≡ s.totals) × (s'.store ≡ s.store) × (length s'.logs ≡ length s.logs + 1)
  unfolding on_swap
  on_swap_rejects e meta s h = elim (Bool-cases (is_unknown (from_coin e))) [
    | inl unknown ↦ rw unknown (refl, refl, length-append s.logs _)
    | inr from_known ↦ elim (Bool-cases (is_unknown (to_coin e))) [
      | inl unknown ↦ rw (from_known, unknown) (refl, refl, length-append s.logs _)
      | inr to_known ↦
          rw (from_known, to_known, direction_of_one_sided (from_coin e) (to_coin e) h)
            (refl, refl, length-append s.logs _)
    ]
  ]

  -- A swap whose own row is lost leaves every depth as it was.
  pub on_swap_lost :
      (e : Swap) (meta : Metadata) (s : Recorder S)
      → ((row : Row) (store : S) → row.table ≡ "swap_events" → (env.insert_row row store).0 ≢ none)
      → (on_swap env e meta s).1.totals ≡ s.totals
  unfolding on_swap
  on_swap_lost e meta s lost = elim (Bool-cases (is_two_sided (from_coin e) (to_coin e))) [
    | inr rejected ↦ (on_swap_rejects e meta s rejected).0
    | inl h ↦
        let (d, found) = direction_of_two_sided (from_coin e) (to_coin e) h in
        let (from_known, to_known) = known_of_two_sided (from_coin e) (to_coin e) h in
        rw (from_known, to_known, found, insert_swap_lost env e meta d s lost)
          (insert_swap-totals env e meta d s)
  ]
