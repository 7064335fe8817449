-- ===== src/Record/Withdrawals.antt =====
-- internal/fetch/record/record.go: `OnWithdraw`, `OnAffiliateFee` and `OnSetMimir`.
pub mod Depths
use midgard.Base.{Bool, true, false, not, ◌&&◌, ◌||◌, Option, none, some, [], ◌∷◌, if◌then◌else◌}
use midgard.Base.Bytes.{Slice, str, codes, same}
use midgard.Base.Int.{ℤ, pos, neg64, ltb_ℤ, leb_ℤ, int_beq}
use midgard.Util.Asset.{asset_from_string}
use midgard.Util.Memo.{swap, tx_type_from_memo}
use midgard.Util.Numbers.{parse_int}
use midgard.Record.ChainInfo.{set_mimir_status}
use midgard.Record.Events.{Withdraw, SetMimir, AffiliateFee}
use midgard.Record.Totals.{PoolDepths}
use midgard.Record.Monad.{
  text, int, bool, float, tx_type, slice, or_empty, Metadata, Env, Action, ⊤, ◌>>=◌, ◌>>◌,
  log_event_parse_error, change_info, get_depths, add_asset, add_rune, when, insert_with_meta,
  insert_or_log,
}

-- A pool that holds something.
abbrev pub has_depth : PoolDepths → Bool
has_depth d = ltb_ℤ (pos 0) d.asset_e8 || ltb_ℤ (pos 0) d.rune_e8

abbrev pub is_some : {A : Type 0} → Option A → Bool
is_some none = false
is_some (some _) = true

module _ {S : Type 0} (env : Env S) where
  -- `int64(float64(amount)*(float64(rE8)/float64(aE8)) + 0.5)`, or 0 in a pool without assets.
  abbrev pub worth_in_rune : ℤ → PoolDepths → ℤ
  worth_in_rune amount d =
      if int_beq d.asset_e8 (pos 0) then pos 0 else env.in_rune amount d.rune_e8 d.asset_e8

  -- The row of a withdrawal.
  insert_withdraw : Withdraw → Metadata → Action S ⊤
  insert_withdraw e meta = do
    before ← get_depths (str e.pool)
    failed ←
        insert_with_meta env "withdraw_events" meta
          ("tx" ∷ "chain" ∷ "from_addr" ∷ "to_addr" ∷ "asset" ∷ "asset_e8" ∷ "emit_asset_e8"
            ∷ "emit_rune_e8" ∷ "memo" ∷ "pool" ∷ "stake_units" ∷ "basis_points" ∷ "asymmetry"
            ∷ "imp_loss_protection_e8" ∷ "_emit_asset_in_rune_e8" ∷ "_tx_type" ∷ [])
          (slice e.tx
            ∷ slice e.chain
            ∷ slice e.from_addr
            ∷ slice (or_empty e.to_addr)
            ∷ slice e.asset
            ∷ int e.asset_e8
            ∷ int e.emit_asset_e8
            ∷ int e.emit_rune_e8
            ∷ slice e.memo
            ∷ slice e.pool
            ∷ int e.stake_units
            ∷ int e.basis_points
            ∷ float e.asymmetry
            ∷ int e.imp_loss_protection_e8
            ∷ int (worth_in_rune e.emit_asset_e8 before)
            ∷ tx_type (tx_type_from_memo (str e.memo))
            ∷ [])
    when failed (log_event_parse_error "withdraw")

  -- What the withdrawal itself takes from its pool, and what the reserve adds.
  take_out : Withdraw → Action S ⊤
  take_out e = do
    add_asset (str e.pool) (neg64 e.emit_asset_e8)
    add_rune (str e.pool) (neg64 e.emit_rune_e8)
    add_rune (str e.pool) e.imp_loss_protection_e8

  -- Before a certain height the coin that was sent along was part of what is emitted.
  keep_coin : Withdraw → Metadata → Action S ⊤
  keep_coin e meta =
      when
        (ltb_ℤ meta.block_height env.withdraw_coin_kept_height
          && not (int_beq e.asset_e8 (pos 0))
          && same (str e.pool) (str e.asset))
        (add_asset (str e.pool) e.asset_e8)

  -- Since a certain height it is added to its own pool, if that is one.
  pool_coin : Withdraw → Metadata → Action S ⊤
  pool_coin e meta = do
    d ← get_depths (str e.asset)
    when
        (leb_ℤ env.withdraw_coin_pooled_height meta.block_height
          && not (int_beq e.asset_e8 (pos 0))
          && has_depth d
          && same (str e.chain) (asset_from_string (str e.pool)).chain)
        (add_asset (str e.asset) e.asset_e8)

  unfoldable pub on_withdraw : Withdraw → Metadata → Action S ⊤
  unfolding insert_withdraw take_out keep_coin pool_coin
  on_withdraw e meta = do insert_withdraw e meta; take_out e; keep_coin e meta; pool_coin e meta

  -- A fee that is paid in Rune is an outbound too.
  insert_affiliate_outbound : AffiliateFee → Metadata → Slice → Action S ⊤
  insert_affiliate_outbound e meta memo =
      insert_or_log env "outbound_events" meta
        ("tx" ∷ "chain" ∷ "from_addr" ∷ "to_addr" ∷ "asset" ∷ "asset_e8" ∷ "memo" ∷ "in_tx"
          ∷ "internal" ∷ "_tx_type" ∷ [])
        (text (codes "0000000000000000000000000000000000000000000000000000000000000000")
          ∷ text (codes "THOR")
          ∷ text []
          ∷ slice e.rune_addr
          ∷ slice e.asset
          ∷ int e.fee_amt
          ∷ slice memo
          ∷ slice e.tx
          ∷ bool false
          ∷ tx_type swap
          ∷ [])

  abbrev thor_name_or_address : AffiliateFee → Slice
  thor_name_or_address e = elim e.thor_name [ none ↦ e.rune_addr | some name ↦ some name ]

  unfoldable pub on_affiliate_fee : AffiliateFee → Metadata → Action S ⊤
  unfolding insert_affiliate_outbound
  on_affiliate_fee e meta = do
    d ← get_depths (str e.asset)
    let in_rune = same (str e.asset) (codes "THOR.RUNE")
    let memo = if in_rune then or_empty e.memo else e.memo
    when in_rune (insert_affiliate_outbound e meta memo)
    insert_or_log env "affiliate_fee_events" meta
        ("fee_amt" ∷ "fee_bps" ∷ "tx_id" ∷ "gross_amt" ∷ "memo" ∷ "asset" ∷ "rune_address"
          ∷ "thorname" ∷ "_fee_amt_in_rune" ∷ [])
        (int e.fee_amt
          ∷ int e.fee_bps
          ∷ slice e.tx
          ∷ int e.gross_amt
          ∷ slice memo
          ∷ slice e.asset
          ∷ slice e.rune_addr
          ∷ slice (thor_name_or_address e)
          ∷ int (if in_rune then e.fee_amt else worth_in_rune e.fee_amt d)
          ∷ [])

  -- A value that is no number is logged and still set, to what `ParseInt` returns with its error.
  unfoldable pub on_set_mimir : SetMimir → Metadata → Action S ⊤
  on_set_mimir e meta = do
    insert_or_log env "set_mimir_events" meta ("key" ∷ "value" ∷ [])
        (slice e.key ∷ slice e.value ∷ [])
    when (is_some (parse_int (str e.value)).1) (log_event_parse_error "can't set_mimir status")
    change_info (set_mimir_status (str e.key) (parse_int (str e.value)).0)
