-- ===== src/Record/Withdrawals/Depths.antt =====
-- What `OnWithdraw`, `OnAffiliateFee` and `OnSetMimir` do to the depths.
use midgard.Base.{
  ◌≡◌, refl, ap, sym, ◌∙◌, Bool, true, false, not, ◌&&◌, List, [], ◌∷◌, ◌++◌, if◌then◌else◌,
}
use midgard.Util.Numbers.{parse_int}
use midgard.Base.Bytes.{Bytes, Slice, str, same}
use midgard.Base.Int.{ℤ, pos, neg64, ltb_ℤ, leb_ℤ, int_beq}
use midgard.Util.Asset.{asset_from_string}
use midgard.Record.Events.{Withdraw, SetMimir, AffiliateFee}
use midgard.Record.Monad.{
  Metadata, Env, Recorder, insert_with_meta, when, add_asset, log-totals, insert_or_log-totals,
}
use midgard.Record.Postings.{asset, rune, Posting, posting, post, post-append}
use midgard.Record.Totals.{RunningTotals, current_depths}
use midgard.Record.Withdrawals.{
  is_some, has_depth, insert_withdraw, take_out, keep_coin, pool_coin, on_withdraw,
  on_affiliate_fee, insert_affiliate_outbound, on_set_mimir,
}

-- What is emitted leaves the pool, and the reserve adds the protection against impermanent loss.
abbrev pub emit_postings : Withdraw → List Posting
emit_postings e =
    posting asset (str e.pool) (neg64 e.emit_asset_e8)
    ∷ posting rune (str e.pool) (neg64 e.emit_rune_e8)
    ∷ posting rune (str e.pool) e.imp_loss_protection_e8
    ∷ []

module _ {S : Type 0} (env : Env S) where
  -- The old rule for the coin that was sent along.
  abbrev pub is_coin_kept : Withdraw → Metadata → Bool
  is_coin_kept e meta =
      ltb_ℤ meta.block_height env.withdraw_coin_kept_height
      && not (int_beq e.asset_e8 (pos 0))
      && same (str e.pool) (str e.asset)

  -- The new rule, which looks at the depths of the coin's own pool.
  abbrev pub is_coin_pooled : Withdraw → Metadata → RunningTotals → Bool
  is_coin_pooled e meta t =
      leb_ℤ env.withdraw_coin_pooled_height meta.block_height
      && not (int_beq e.asset_e8 (pos 0))
      && has_depth (current_depths t (str e.asset))
      && same (str e.chain) (asset_from_string (str e.pool)).chain

  abbrev pub kept_postings : Withdraw → Metadata → List Posting
  kept_postings e meta =
      emit_postings e
      ++ (if is_coin_kept e meta then posting asset (str e.pool) e.asset_e8 ∷ [] else [])

  abbrev pub withdraw_postings : Withdraw → Metadata → RunningTotals → List Posting
  withdraw_postings e meta t =
      kept_postings e meta
      ++ (if is_coin_pooled e meta (post (kept_postings e meta) t)
          then posting asset (str e.asset) e.asset_e8 ∷ []
          else [])

  when_asset :
      (c : Bool) (pool : Bytes) (e8 : ℤ) (s : Recorder S)
      → (when c (add_asset pool e8) s).1.totals
        ≡ post (if c then posting asset pool e8 ∷ [] else []) s.totals
  when_asset true pool e8 s = refl
  when_asset false pool e8 s = refl

  insert_withdraw-totals :
      (e : Withdraw) (meta : Metadata) (s : Recorder S)
      → (insert_withdraw env e meta s).1.totals ≡ s.totals
  unfolding insert_withdraw insert_with_meta
  insert_withdraw-totals e meta s = log-totals _ "withdraw" _

  keep_coin-post :
      (e : Withdraw) (meta : Metadata) (s : Recorder S)
      → (keep_coin env e meta (take_out env e s).1).1.totals ≡ post (kept_postings e meta) s.totals
  unfolding keep_coin take_out
  keep_coin-post e meta s = when_asset (is_coin_kept e meta) _ _ _

  pool_coin-post :
      (e : Withdraw) (meta : Metadata) (s : Recorder S)
      → (pool_coin env e meta s).1.totals
        ≡ post
            (if is_coin_pooled e meta s.totals
              then posting asset (str e.asset) e.asset_e8 ∷ []
              else [])
            s.totals
  unfolding pool_coin
  pool_coin-post e meta s = when_asset (is_coin_pooled e meta s.totals) _ _ _

  -- Whatever the inserter returns, a withdrawal moves the depths by what it emits and by the
  -- protection that the reserve pays, and by the coin that was sent along as the rule of its
  -- height says.
  pub on_withdraw-post :
      (e : Withdraw) (meta : Metadata) (s : Recorder S)
      → (on_withdraw env e meta s).1.totals ≡ post (withdraw_postings e meta s.totals) s.totals
  unfolding on_withdraw
  on_withdraw-post e meta s =
      let s₁ = (insert_withdraw env e meta s).1 in
      let s₂ = (keep_coin env e meta (take_out env e s₁).1).1 in
      let coin = λ (t : RunningTotals).
        if is_coin_pooled e meta t then posting asset (str e.asset) e.asset_e8 ∷ [] else [] in
      let kept = kept_postings e meta in
      pool_coin-post e meta s₂
      ∙ ap (λ t. post (coin t) t)
          (keep_coin-post e meta s₁ ∙ ap (post kept) (insert_withdraw-totals e meta s))
      ∙ sym (post-append kept (coin (post kept s.totals)) s.totals)

  when_outbound-totals :
      (c : Bool) (e : AffiliateFee) (meta : Metadata) (memo : Slice) (s : Recorder S)
      → (when c (insert_affiliate_outbound env e meta memo) s).1.totals ≡ s.totals
  unfolding insert_affiliate_outbound
  when_outbound-totals true e meta memo s = insert_or_log-totals env _ _ _ _ s
  when_outbound-totals false e meta memo s = refl

  pub on_affiliate_fee-totals :
      (e : AffiliateFee) (meta : Metadata) (s : Recorder S)
      → (on_affiliate_fee env e meta s).1.totals ≡ s.totals
  unfolding on_affiliate_fee
  on_affiliate_fee-totals e meta s =
      insert_or_log-totals env _ _ _ _ _ ∙ when_outbound-totals _ e meta _ s

  pub on_set_mimir-totals :
      (e : SetMimir) (meta : Metadata) (s : Recorder S)
      → (on_set_mimir env e meta s).1.totals ≡ s.totals
  unfolding on_set_mimir
  on_set_mimir-totals e meta s =
      log-totals (is_some (parse_int (str e.value)).1) "can't set_mimir status" _
      ∙ insert_or_log-totals env _ _ _ _ s
