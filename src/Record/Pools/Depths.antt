-- ===== src/Record/Pools/Depths.antt =====
-- What the events of pools, but swaps and withdrawals, do to the depths.
use midgard.Base.{
  ◌≡◌, refl, ap, sym, ◌∙◌, Bool, true, false, not, List, [], ◌∷◌, ◌++◌, if◌then◌else◌, Bool-cases,
  inl, inr,
}
use midgard.Base.Bytes.{Bytes, Slice, str}
use midgard.Base.Int.{ℤ, pos, neg64, int_beq}
use midgard.Record.Coin.{
  CoinType, switch, asset_native, asset_synth, is_switch, get_coin_type, get_native_asset,
}
use midgard.Record.Events.{
  Amount, Add, Errata, Fee, Gas, Rewards, Slash, Stake, PoolBalanceChange, MintBurn, AccountMove,
}
use midgard.Record.Monad.{
  Metadata, Env, Recorder, NeverFails, slice, int, log-totals, ◌>>◌, str-or_empty, insert_with_meta,
  when, add_asset, add_rune, add_synth,
}
use midgard.Record.Pools.{
  is_synth, is_native, is_end_block, signed, on_add, on_errata, on_fee, on_gas, on_rewards,
  on_slash, on_stake, on_pool_balance_change, on_mint_burn, on_trade_account_deposit,
  on_trade_account_withdraw, on_secure_asset_deposit, on_secure_asset_withdraw, insert_entries,
  add_rewards, slash_amounts, slash_amount,
}
use midgard.Record.Postings.{asset, rune, synth, posting, post, post-append}
pub use midgard.Record.Pools.Ledger.{
  both, is_saver_yield, add_postings, fee_asset_postings, fee_postings, rewards_postings,
  slash_posting, slash_postings, unless_zero, balance_postings, is_failed_refund,
  mint_burn_postings, account_postings,
}

module _ {S : Type 0} (env : Env S) where
  -- Without an error of the inserter.
  module _ (never : NeverFails env) where
    pub on_add-post :
        (e : Add) (meta : Metadata) (s : Recorder S)
        → (on_add env e meta s).1.totals ≡ post (add_postings e) s.totals
    unfolding on_add insert_with_meta
    on_add-post e meta s = elim (Bool-cases (is_saver_yield e)) [
      | inl y ↦ rw (str-or_empty e.memo, y, never _ _)
      | inr n ↦ rw (str-or_empty e.memo, n, never _ _)
    ]

    pub on_errata-post :
        (e : Errata) (meta : Metadata) (s : Recorder S)
        → (on_errata env e meta s).1.totals ≡ post (both e.asset e.asset_e8 e.rune_e8) s.totals
    unfolding on_errata insert_with_meta
    on_errata-post e meta s = rw (never _ _)

    pub on_gas-post :
        (e : Gas) (meta : Metadata) (s : Recorder S)
        → (on_gas env e meta s).1.totals ≡ post (both e.asset (neg64 e.asset_e8) e.rune_e8) s.totals
    unfolding on_gas insert_with_meta
    on_gas-post e meta s = rw (never _ _)

    pub on_stake-post :
        (e : Stake) (meta : Metadata) (s : Recorder S)
        → (on_stake env e meta s).1.totals ≡ post (both e.pool e.asset_e8 e.rune_e8) s.totals
    unfolding on_stake insert_with_meta
    on_stake-post e meta s = rw (never _ _)

    insert_entries_never_fails :
        (meta : Metadata) (ps : List Amount) (s : Recorder S)
        → ((insert_entries env meta ps s).0 ≡ false)
          × ((insert_entries env meta ps s).1.totals ≡ s.totals)
    unfolding insert_entries insert_with_meta
    insert_entries_never_fails meta [] s = (refl, refl)
    insert_entries_never_fails meta (p ∷ ps) s =
        let s₁ =
          (insert_with_meta env "rewards_event_entries" meta ("pool" ∷ "rune_e8" ∷ "saver_e8" ∷ [])
            (slice p.asset ∷ int p.e8 ∷ int (pos 0) ∷ []) s).1 in
        let (ok, kept) = insert_entries_never_fails meta ps s₁ in rw (never _ _) (ok, kept)

    add_rewards-post :
        (ps : List Amount) (s : Recorder S)
        → (add_rewards env ps s).1.totals ≡ post (rewards_postings ps) s.totals
    unfolding add_rewards
    add_rewards-post [] s = refl
    add_rewards-post (a ∷ rest) s = add_rewards-post rest _

    pub on_rewards-post :
        (e : Rewards) (meta : Metadata) (s : Recorder S)
        → (on_rewards env e meta s).1.totals ≡ post (rewards_postings e.per_pool) s.totals
    unfolding on_rewards insert_with_meta
    on_rewards-post e meta s =
        let s₁ =
          (insert_with_meta env "rewards_events" meta ("bond_e8" ∷ []) (int e.bond_e8 ∷ []) s).1 in
        let (ok, kept) = insert_entries_never_fails meta e.per_pool s₁ in
        rw (never _ _, ok)
          (add_rewards-post e.per_pool _ ∙ ap (post (rewards_postings e.per_pool)) kept)

  fee_moves :
      (rune_fee : Bool) (k : CoinType) (pool : Bytes) (e : Fee) (s : Recorder S)
      → (when
          (not rune_fee)
          (when (is_native k) (add_asset pool e.asset_e8)
            >> (when (is_synth k) (add_synth pool (neg64 e.asset_e8))
                >> add_rune pool (neg64 e.pool_deduct)))
          s).1.totals
        ≡ post
            (if rune_fee
              then []
              else fee_asset_postings pool k e ++ posting rune pool (neg64 e.pool_deduct) ∷ [])
            s.totals
  fee_moves true k pool e s = refl
  fee_moves false switch pool e s = refl
  fee_moves false asset_native pool e s = refl
  fee_moves false asset_synth pool e s = refl
  fee_moves false _ pool e s = refl

  -- Whatever the inserter returns.
  pub on_fee-post :
      (e : Fee) (meta : Metadata) (s : Recorder S)
      → (on_fee env e meta s).1.totals ≡ post (fee_postings e) s.totals
  unfolding on_fee insert_with_meta
  on_fee-post e meta s =
      fee_moves (is_switch (str e.asset)) (get_coin_type (str e.asset))
        (get_native_asset (str e.asset)) e _
      ∙ ap (post (fee_postings e)) (log-totals _ "fee" _)

  slash_amount-post :
      (pool : Bytes) (k : CoinType) (e8 : ℤ) (s : Recorder S)
      → (slash_amount env pool k e8 s).1.totals ≡ post (slash_posting pool k e8) s.totals
  slash_amount-post pool switch e8 s = refl
  slash_amount-post pool asset_native e8 s = refl
  slash_amount-post pool _ e8 s = refl

  slash_amounts-post :
      (pool : Slice) (meta : Metadata) (xs : List Amount) (s : Recorder S)
      → (slash_amounts env pool meta xs s).1.totals ≡ post (slash_postings pool xs) s.totals
  unfolding slash_amounts insert_with_meta
  slash_amounts-post pool meta [] s = refl
  slash_amounts-post pool meta (a ∷ rest) s =
      slash_amounts-post pool meta rest _
      ∙ ap (post (slash_postings pool rest)) (
          slash_amount-post (str pool) (get_coin_type (str a.asset)) a.e8 _
          ∙ ap (post (slash_posting (str pool) (get_coin_type (str a.asset)) a.e8))
              (log-totals _ "slash" _))
      ∙ sym (
          post-append (slash_posting (str pool) (get_coin_type (str a.asset)) a.e8)
            (slash_postings pool rest) s.totals)

  pub on_slash-post :
      (e : Slash) (meta : Metadata) (s : Recorder S)
      → (on_slash env e meta s).1.totals ≡ post (slash_postings e.pool e.amounts) s.totals
  unfolding on_slash
  on_slash-post e meta s =
      slash_amounts-post e.pool meta e.amounts _
      ∙ ap (post (slash_postings e.pool e.amounts)) (log-totals _ "slash ignored" s)

  balance_moves :
      (pool : Bytes) (a r a' r' : ℤ) (s : Recorder S)
      → ((when (not (int_beq a (pos 0))) (add_asset pool a')
            >> when (not (int_beq r (pos 0))) (add_rune pool r'))
          s).1.totals
        ≡ post
            (unless_zero a (posting asset pool a') ++ unless_zero r (posting rune pool r'))
            s.totals
  balance_moves pool a r a' r' s = cases (int_beq a (pos 0)) (int_beq r (pos 0))
    where
      cases :
          (b c : Bool)
          → ((when (not b) (add_asset pool a') >> when (not c) (add_rune pool r')) s).1.totals
            ≡ post
                ((if b then [] else posting asset pool a' ∷ [])
                  ++ (if c then [] else posting rune pool r' ∷ []))
                s.totals
      cases true true = refl
      cases true false = refl
      cases false true = refl
      cases false false = refl

  pub on_pool_balance_change-post :
      (e : PoolBalanceChange) (meta : Metadata) (s : Recorder S)
      → (on_pool_balance_change env e meta s).1.totals ≡ post (balance_postings e) s.totals
  unfolding on_pool_balance_change insert_with_meta
  on_pool_balance_change-post e meta s =
      balance_moves (str e.asset) e.asset_amt e.rune_amt (signed e.asset_add e.asset_amt)
        (signed e.rune_add e.rune_amt) _
      ∙ ap (post (balance_postings e)) (log-totals _ "pool_balance_change" _)

  when_synth :
      (c : Bool) (pool : Bytes) (e8 : ℤ) (s : Recorder S)
      → (when c (add_synth pool e8) s).1.totals
        ≡ post (if c then posting synth pool e8 ∷ [] else []) s.totals
  when_synth true pool e8 s = refl
  when_synth false pool e8 s = refl

  when_asset :
      (c : Bool) (pool : Bytes) (e8 : ℤ) (s : Recorder S)
      → (when c (add_asset pool e8) s).1.totals
        ≡ post (if c then posting asset pool e8 ∷ [] else []) s.totals
  when_asset true pool e8 s = refl
  when_asset false pool e8 s = refl

  pub on_mint_burn-post :
      (e : MintBurn) (meta : Metadata) (s : Recorder S)
      → (on_mint_burn env e meta s).1.totals ≡ post (mint_burn_postings e) s.totals
  unfolding on_mint_burn insert_with_meta
  on_mint_burn-post e meta s =
      when_synth (is_failed_refund e) _ _ _
      ∙ ap (post (mint_burn_postings e)) (log-totals _ "mint_burn" _)

  pub on_trade_account_deposit-post :
      (e : AccountMove) (meta : Metadata) (s : Recorder S)
      → (on_trade_account_deposit env e meta s).1.totals
        ≡ post (account_postings meta e.asset (neg64 e.amt_e8)) s.totals
  unfolding on_trade_account_deposit insert_with_meta
  on_trade_account_deposit-post e meta s =
      when_asset (is_end_block meta.event_id.location) _ _ _
      ∙ ap (post (account_postings meta e.asset (neg64 e.amt_e8)))
          (log-totals _ "trade_account_deposit_events" _)

  pub on_trade_account_withdraw-post :
      (e : AccountMove) (meta : Metadata) (s : Recorder S)
      → (on_trade_account_withdraw env e meta s).1.totals
        ≡ post (account_postings meta e.asset e.amt_e8) s.totals
  unfolding on_trade_account_withdraw insert_with_meta
  on_trade_account_withdraw-post e meta s =
      when_asset (is_end_block meta.event_id.location) _ _ _
      ∙ ap (post (account_postings meta e.asset e.amt_e8))
          (log-totals _ "trade_account_withdraw_events" _)

  pub on_secure_asset_deposit-post :
      (e : AccountMove) (meta : Metadata) (s : Recorder S)
      → (on_secure_asset_deposit env e meta s).1.totals
        ≡ post (account_postings meta e.asset (neg64 e.amt_e8)) s.totals
  unfolding on_secure_asset_deposit insert_with_meta
  on_secure_asset_deposit-post e meta s =
      when_asset (is_end_block meta.event_id.location) _ _ _
      ∙ ap (post (account_postings meta e.asset (neg64 e.amt_e8)))
          (log-totals _ "secure_asset_deposit_events" _)

  pub on_secure_asset_withdraw-post :
      (e : AccountMove) (meta : Metadata) (s : Recorder S)
      → (on_secure_asset_withdraw env e meta s).1.totals
        ≡ post (account_postings meta e.asset e.amt_e8) s.totals
  unfolding on_secure_asset_withdraw insert_with_meta
  on_secure_asset_withdraw-post e meta s =
      when_asset (is_end_block meta.event_id.location) _ _ _
      ∙ ap (post (account_postings meta e.asset e.amt_e8))
          (log-totals _ "secure_asset_withdraw_events" _)
