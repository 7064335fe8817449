-- ===== src/Record/Corrections.antt =====
-- internal/fetch/record/corrections.go: functions that are registered for the heights at which the
-- events of the chain and its state disagree. A function that changes its event through a pointer
-- returns it here.
use midgard.Base.{
  ℕ, Bool, true, false, not, ◌&&◌, ◌||◌, Option, none, some, List, [], ◌∷◌, ◌++◌, if◌then◌else◌,
}
use midgard.Base.Bytes.{Bytes, codes, has_prefix, split2}
use midgard.Base.Int.{ℤ, pos, neg64, leb_ℤ, int_eq}
use midgard.Base.Maps.{Map, lookup, insert}
use midgard.Util.Numbers.{int_str}
use midgard.Record.Events.{Fee, Withdraw, Stake, PoolBalanceChange}
use midgard.Record.Monad.{Metadata, Env, Action, ⊤, ◌>>=◌, ◌>>◌, skip}
use midgard.Record.Pools.{on_stake, on_pool_balance_change}
use midgard.Record.Withdrawals.{on_withdraw}
pub mod Registry
pub mod Tables
pub mod Mainnet

pub data KeepOrDiscard : Type 0 where
  keep discard : KeepOrDiscard

abbrev pub WithdrawCorrection : Type 0
WithdrawCorrection = Withdraw → Metadata → KeepOrDiscard × Withdraw

abbrev pub FeeAcceptFunc : Type 0
FeeAcceptFunc = Fee → Metadata → Bool

abbrev unless_discarded :
    WithdrawCorrection → Metadata → KeepOrDiscard × Withdraw → KeepOrDiscard × Withdraw
unless_discarded f meta (discard, w) = (discard, w)
unless_discarded f meta (keep, w) = f w meta

-- `fOrig`, and then `f` unless the withdrawal is discarded.
abbrev pub and_then : WithdrawCorrection → WithdrawCorrection → WithdrawCorrection
and_then first f w meta = unless_discarded f meta (first w meta)

-- What stands at a height once `f` is added to what stood there.
abbrev pub joined_correction : Option WithdrawCorrection → WithdrawCorrection → WithdrawCorrection
joined_correction none f = f
joined_correction (some first) f = and_then first f

unfoldable pub add_withdraw_correction :
    ℤ → WithdrawCorrection → Map ℤ WithdrawCorrection → Map ℤ WithdrawCorrection
add_withdraw_correction height f m = insert height (joined_correction (lookup height m) f) m

abbrev pub joined_accept : Option FeeAcceptFunc → FeeAcceptFunc → FeeAcceptFunc
joined_accept none f = f
joined_accept (some first) f = λ fee meta. if not (first fee meta) then false else f fee meta

unfoldable pub add_fee_accept : ℤ → FeeAcceptFunc → Map ℤ FeeAcceptFunc → Map ℤ FeeAcceptFunc
add_fee_accept height f m = insert height (joined_accept (lookup height m) f) m

-- What is registered, by height; the global correction of withdrawals may be nil.
pub record Corrections : Type 0 where
  pub global_withdraw_correction : Option WithdrawCorrection
  pub withdraw_corrections : Map ℤ WithdrawCorrection
  pub fee_accept_funcs : Map ℤ FeeAcceptFunc

-- The correction of a height, if there is one.
abbrev pub corrects : Option WithdrawCorrection → WithdrawCorrection
corrects none w meta = (keep, w)
corrects (some f) w meta = f w meta

unfoldable pub correct_withdraw : Corrections → WithdrawCorrection
correct_withdraw c w meta =
    and_then (corrects c.global_withdraw_correction)
      (corrects (lookup meta.block_height c.withdraw_corrections)) w meta

-- The test of a height, if there is one.
abbrev pub accepts : Option FeeAcceptFunc → FeeAcceptFunc
accepts none fee meta = true
accepts (some f) fee meta = f fee meta

unfoldable pub corrections_fee_event_is_ok : Corrections → FeeAcceptFunc
corrections_fee_event_is_ok c fee meta =
    accepts (lookup meta.block_height c.fee_accept_funcs) fee meta

unfoldable pub address_is_switch : Bytes → Bool
address_is_switch address =
    has_prefix address (codes "switchly")
    || has_prefix address (codes "tswitchly")
    || has_prefix address (codes "sswitchly")

pub record ArtificialUnitChange : Type 0 where
  pub pool : Bytes
  pub addr : Bytes
  pub units : ℤ

pub record ArtificialPoolBallanceChange : Type 0 where
  pub pool : Bytes
  pub rune : ℤ
  pub asset : ℤ

unfoldable pub abs_and_sign : ℤ → ℤ × Bool
abs_and_sign x = if leb_ℤ (pos 0) x then (x, true) else (neg64 x, false)

unfoldable pub to_event : ArtificialPoolBallanceChange → PoolBalanceChange
unfolding abs_and_sign
to_event x = record {
  asset = some x.pool;
  rune_amt = (abs_and_sign x.rune).0;
  rune_add = (abs_and_sign x.rune).1;
  asset_amt = (abs_and_sign x.asset).0;
  asset_add = (abs_and_sign x.asset).1;
  reason = codes "Fix in Midgard";
}

-- The deposit of no coins that gives the units; the address is of the one side or of the other.
unfoldable pub artificial_stake : ArtificialUnitChange → Stake
unfolding address_is_switch
artificial_stake c = record {
  base = record {
    pool = some c.pool;
    asset_tx = none;
    asset_chain = none;
    asset_addr = if address_is_switch c.addr then none else some c.addr;
    asset_e8 = pos 0;
    rune_tx = none;
    rune_chain = none;
    rune_addr = if address_is_switch c.addr then some c.addr else none;
    memo = none;
    rune_e8 = pos 0;
  };
  stake_units = c.units;
}

unfoldable pub artificial_withdraw : ArtificialUnitChange → Withdraw
artificial_withdraw c = record {
  tx = some (c.addr ++ int_str (neg64 c.units));
  chain = some (split2 b'.' c.pool).0;
  from_addr = some c.addr;
  to_addr = some c.addr;
  asset = some c.pool;
  asset_e8 = pos 0;
  emit_asset_e8 = pos 0;
  emit_rune_e8 = pos 0;
  memo = some (codes "Midgard Fix");
  pool = some c.pool;
  stake_units = neg64 c.units;
  basis_points = pos 0;
  asymmetry = 0;
  imp_loss_protection_e8 = pos 0;
}

module _ {S : Type 0} (env : Env S) where
  abbrev pub AddEventsFunc : Type 0
  AddEventsFunc = Metadata → Action S ⊤

  abbrev pub joined_events : Option AddEventsFunc → AddEventsFunc → AddEventsFunc
  joined_events none f = f
  joined_events (some first) f = λ meta. first meta >> f meta

  unfoldable pub add_events : ℤ → AddEventsFunc → Map ℤ AddEventsFunc → Map ℤ AddEventsFunc
  add_events height f m = insert height (joined_events (lookup height m) f) m

  abbrev pub run_added : Option AddEventsFunc → AddEventsFunc
  run_added none meta = skip
  run_added (some f) meta = f meta

  unfoldable pub add_missing_events : Map ℤ AddEventsFunc → Metadata → Action S ⊤
  add_missing_events m meta = run_added (lookup meta.block_height m) meta

  abbrev run_unit_change : ArtificialUnitChange → Metadata → Action S ⊤
  run_unit_change c meta =
      if leb_ℤ (pos 0) c.units
      then on_stake env (artificial_stake c) meta
      else on_withdraw env (artificial_withdraw c) meta

  run_unit_changes : List ArtificialUnitChange → Metadata → Action S ⊤
  run_unit_changes [] meta = skip
  run_unit_changes (c ∷ cs) meta = run_unit_change c meta >> run_unit_changes cs meta

  -- The function that `registerArtificialDeposits` adds at each of its heights.
  unfoldable pub artificial_deposits : Map ℤ (List ArtificialUnitChange) → AddEventsFunc
  unfolding run_unit_changes
  artificial_deposits changes meta = elim (lookup meta.block_height changes) [
    | some cs ↦ run_unit_changes cs meta
    | none ↦ skip
  ]

  run_balance_changes : Bytes → List ArtificialPoolBallanceChange → Metadata → Action S ⊤
  run_balance_changes reason [] meta = skip
  run_balance_changes reason (c ∷ cs) meta =
      let event = to_event c in
      on_pool_balance_change env (record event { reason = reason }) meta
      >> run_balance_changes reason cs meta

  abbrev found_balance_changes : Bytes → Option (List ArtificialPoolBallanceChange) → AddEventsFunc
  found_balance_changes reason none meta = skip
  found_balance_changes reason (some cs) meta = run_balance_changes reason cs meta

  -- The function that `registerArtificialPoolBallanceChanges` adds at each of its heights.
  unfoldable pub artificial_balance_changes :
      Map ℤ (List ArtificialPoolBallanceChange) → Bytes → AddEventsFunc
  unfolding run_balance_changes
  artificial_balance_changes changes reason meta =
      found_balance_changes reason (lookup meta.block_height changes) meta

  -- `for height := range m { AdditionalEvents.Add(height, f) }`
  unfoldable pub register_all :
      {A : Type 0} → Map ℤ A → AddEventsFunc → Map ℤ AddEventsFunc → Map ℤ AddEventsFunc
  unfolding add_events
  register_all [] f m = m
  register_all ((height, _) ∷ rest) f m = register_all rest f (add_events height f m)
