-- ===== src/Record/Pools/Ledger.antt =====
-- What the events of pools, but swaps and withdrawals, post to the ledger.
use midgard.Base.{Bool, ◌&&◌, List, [], ◌∷◌, ◌++◌, if◌then◌else◌}
use midgard.Base.Bytes.{Bytes, Slice, str, codes, same}
use midgard.Base.Int.{ℤ, pos, neg64, int_beq}
use midgard.Util.Memo.{convert_synth_pool_to_native}
use midgard.Record.Coin.{
  CoinType, switch, asset_native, asset_synth, is_switch, get_coin_type, get_native_asset,
}
use midgard.Record.Events.{Amount, Add, Fee, PoolBalanceChange, MintBurn}
use midgard.Record.Monad.{Metadata}
use midgard.Record.Pools.{is_synth, is_end_block, signed}
use midgard.Record.Postings.{asset, rune, synth, Posting, posting}

-- Both coins of a pool.
abbrev pub both : Slice → ℤ → ℤ → List Posting
both pool asset_e8 rune_e8 =
    posting asset (str pool) asset_e8 ∷ posting rune (str pool) rune_e8 ∷ []

abbrev pub is_saver_yield : Add → Bool
is_saver_yield e =
    is_synth (get_coin_type (str e.pool)) && same (str e.memo) (codes "THOR-SAVERS-YIELD")

abbrev pub add_postings : Add → List Posting
add_postings e =
    (if is_saver_yield e
      then posting synth (convert_synth_pool_to_native (str e.pool)) e.asset_e8 ∷ []
      else [])
    ++ both e.pool e.asset_e8 e.rune_e8

-- A fee stays in the pool of its asset, whose Rune pays for it; a synth's fee is burnt.
abbrev pub fee_asset_postings : Bytes → CoinType → Fee → List Posting
fee_asset_postings pool asset_native e = posting asset pool e.asset_e8 ∷ []
fee_asset_postings pool asset_synth e = posting synth pool (neg64 e.asset_e8) ∷ []
fee_asset_postings pool _ e = []

abbrev pub fee_postings : Fee → List Posting
fee_postings e =
    let a = str e.asset in
    if is_switch a
    then []
    else fee_asset_postings (get_native_asset a) (get_coin_type a) e
      ++ posting rune (get_native_asset a) (neg64 e.pool_deduct) ∷ []

abbrev pub rewards_postings : List Amount → List Posting
rewards_postings [] = []
rewards_postings (a ∷ rest) = posting rune (str a.asset) a.e8 ∷ rewards_postings rest

abbrev pub slash_posting : Bytes → CoinType → ℤ → List Posting
slash_posting pool switch e8 = posting rune pool e8 ∷ []
slash_posting pool asset_native e8 = posting asset pool e8 ∷ []
slash_posting pool _ e8 = []

abbrev pub slash_postings : Slice → List Amount → List Posting
slash_postings pool [] = []
slash_postings pool (a ∷ rest) =
    slash_posting (str pool) (get_coin_type (str a.asset)) a.e8 ++ slash_postings pool rest

abbrev pub unless_zero : ℤ → Posting → List Posting
unless_zero amount p = if int_beq amount (pos 0) then [] else p ∷ []

abbrev pub balance_postings : PoolBalanceChange → List Posting
balance_postings e =
    unless_zero e.asset_amt (posting asset (str e.asset) (signed e.asset_add e.asset_amt))
    ++ unless_zero e.rune_amt (posting rune (str e.asset) (signed e.rune_add e.rune_amt))

abbrev pub is_failed_refund : MintBurn → Bool
is_failed_refund e =
    is_synth (get_coin_type (str e.asset))
    && same (str e.supply) (codes "burn")
    && same (str e.reason) (codes "failed_refund")

abbrev pub mint_burn_postings : MintBurn → List Posting
mint_burn_postings e =
    if is_failed_refund e
    then posting synth (convert_synth_pool_to_native (str e.asset)) (neg64 e.asset_e8) ∷ []
    else []

-- Accounts move assets of the pools at the end of a block only.
abbrev pub account_postings : Metadata → Slice → ℤ → List Posting
account_postings meta a e8 =
    if is_end_block meta.event_id.location
    then posting asset (get_native_asset (str a)) e8 ∷ []
    else []
