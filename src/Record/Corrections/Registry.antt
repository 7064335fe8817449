-- ===== src/Record/Corrections/Registry.antt =====
-- What the registered corrections do at the height they are registered for, and at others.
use midgard.Base.{
  ◌≡◌, refl, ◌∙◌, Bool, true, ◌&&◌, Option, none, some, ◌++◌, ◌==◌, if◌then◌else◌, arith,
  Bool-cases, inl, inr,
}
use midgard.Base.Int.{ℤ, pos, neg64, wrap64, int_beq, int_eq, InInt64, ◌-ℤ◌}
use midgard.Base.Maps.{Map, lookup, lookup-insert}
use midgard.Record.Corrections.{
  KeepOrDiscard, keep, discard, WithdrawCorrection, FeeAcceptFunc, and_then,
  add_withdraw_correction, add_fee_accept, Corrections, correct_withdraw,
  corrections_fee_event_is_ok, abs_and_sign, to_event, ArtificialPoolBallanceChange, add_events,
  add_missing_events, AddEventsFunc, joined_accept, joined_correction, joined_events, accepts,
  corrects, run_added,
}
use midgard.Record.Events.{Fee, Withdraw}
use midgard.Record.Monad.{Metadata, Env, Recorder, ◌>>◌}
use midgard.Record.Pools.{signed, on_pool_balance_change}
use midgard.Record.Pools.Depths.{unless_zero, on_pool_balance_change-post}
use midgard.Record.Postings.{posting, asset, rune, post}

signed-abs_and_sign :
    (x : ℤ)
    → InInt64 x
    → (signed (abs_and_sign x).1 (abs_and_sign x).0 ≡ x)
      × (int_beq (abs_and_sign x).0 (pos 0) ≡ int_beq x (pos 0))
unfolding abs_and_sign neg64 wrap64 ◌-ℤ◌
signed-abs_and_sign x h = ground arith

-- The event of an artificial change of a pool moves its two depths by exactly the amounts of the
-- change, if they are int64, whatever their signs are, the least int64 included.
pub on_pool_balance_change-to_event :
    {S : Type 0} (env : Env S) (c : ArtificialPoolBallanceChange) (meta : Metadata) (s : Recorder S)
    → InInt64 c.asset
    → InInt64 c.rune
    → (on_pool_balance_change env (to_event c) meta s).1.totals
      ≡ post
          (unless_zero c.asset (posting asset c.pool c.asset)
            ++ unless_zero c.rune (posting rune c.pool c.rune))
          s.totals
unfolding to_event
on_pool_balance_change-to_event env c meta s ha hr =
    on_pool_balance_change-post env (to_event c) meta s
    ∙ rw (
      (signed-abs_and_sign c.asset ha).0,
      (signed-abs_and_sign c.asset ha).1,
      (signed-abs_and_sign c.rune hr).0,
      (signed-abs_and_sign c.rune hr).1,
    )

abbrev pub with_fee_accept : ℤ → FeeAcceptFunc → Corrections → Corrections
with_fee_accept height f c = record c {
  fee_accept_funcs = add_fee_accept height f c.fee_accept_funcs;
}

abbrev pub with_withdraw_correction : ℤ → WithdrawCorrection → Corrections → Corrections
with_withdraw_correction height f c = record c {
  withdraw_corrections = add_withdraw_correction height f c.withdraw_corrections;
}

accepts-joined :
    (o : Option FeeAcceptFunc) (f : FeeAcceptFunc) (fee : Fee) (meta : Metadata)
    → joined_accept o f fee meta ≡ accepts o fee meta && f fee meta
accepts-joined none f fee meta = refl
accepts-joined (some first) f fee meta = ground arith

and_true : (b : Bool) → b ≡ b && true
and_true b = ground arith

-- Registering a test of fee events for a height adds it to the tests that the events of that
-- height must all pass, and leaves the events of other heights alone.
corrections_fee_event_is_ok-add :
    (height : ℤ) (f : FeeAcceptFunc) (c : Corrections) (fee : Fee) (meta : Metadata)
    → corrections_fee_event_is_ok (with_fee_accept height f c) fee meta
      ≡ corrections_fee_event_is_ok c fee meta
        && (if height == meta.block_height then f fee meta else true)
unfolding corrections_fee_event_is_ok add_fee_accept
corrections_fee_event_is_ok-add height f c fee meta =
    let m = c.fee_accept_funcs in
    rw (lookup-insert height meta.block_height (joined_accept (lookup height m) f) m)
      (elim (Bool-cases (int_beq height meta.block_height)) [
        | inl e ↦
            rw (e, (int_eq.equal_iff height meta.block_height).0 e)
              (accepts-joined (lookup meta.block_height m) f fee meta)
        | inr e ↦ rw e (and_true _)
      ])

corrects-joined :
    (o : Option WithdrawCorrection) (f : WithdrawCorrection) (w : Withdraw) (meta : Metadata)
    → joined_correction o f w meta ≡ and_then (corrects o) f w meta
corrects-joined none f w meta = refl
corrects-joined (some first) f w meta = refl

regroup :
    (h first f : WithdrawCorrection) (meta : Metadata)
    → ((w : Withdraw) → h w meta ≡ and_then first f w meta)
    → (r : KeepOrDiscard × Withdraw)
    → and_then (λ w meta. r) h r.1 meta ≡ and_then (and_then (λ w meta. r) first) f r.1 meta
regroup h first f meta e (keep, v) = e v
regroup h first f meta e (discard, v) = refl

-- Registering a correction of withdrawals for a height runs it on the withdrawals of that height
-- that the corrections registered before keep, on what these made of them, and leaves the
-- withdrawals of other heights alone.
pub correct_withdraw-add :
    (height : ℤ) (f : WithdrawCorrection) (c : Corrections) (w : Withdraw) (meta : Metadata)
    → correct_withdraw (with_withdraw_correction height f c) w meta ≡ (
        if height == meta.block_height
        then and_then (correct_withdraw c) f w meta
        else correct_withdraw c w meta)
unfolding correct_withdraw add_withdraw_correction
correct_withdraw-add height f c w meta =
    let m = c.withdraw_corrections in
    let global = corrects c.global_withdraw_correction in
    rw (lookup-insert height meta.block_height (joined_correction (lookup height m) f) m)
      (elim (Bool-cases (int_beq height meta.block_height)) [
        | inl e ↦ rw e (
            regroup (joined_correction (lookup height m) f)
              (λ w meta. corrects (lookup meta.block_height m) w meta) f meta
              (λ v.
                rw ((int_eq.equal_iff height meta.block_height).0 e)
                  (corrects-joined (lookup meta.block_height m) f v meta))
              (global w meta))
        | inr e ↦ rw e
      ])

run_joined :
    {S : Type 0} (env : Env S) (o : Option (AddEventsFunc env)) (f : AddEventsFunc env)
    (meta : Metadata) (s : Recorder S)
    → joined_events env o f meta s ≡ (run_added env o meta >> f meta) s
run_joined env none f meta s = refl
run_joined env (some first) f meta s = refl

-- Functions that add missing events run at their height only, in the order of registration.
add_missing_events-add_events :
    {S : Type 0} (env : Env S) (height : ℤ) (f : AddEventsFunc env) (m : Map ℤ (AddEventsFunc env))
    (meta : Metadata) (s : Recorder S)
    → add_missing_events env (add_events env height f m) meta s ≡ (
        if height == meta.block_height
        then (add_missing_events env m meta >> f meta) s
        else add_missing_events env m meta s)
unfolding add_missing_events add_events
add_missing_events-add_events env height f m meta s =
    rw (lookup-insert height meta.block_height (joined_events env (lookup height m) f) m)
      (elim (Bool-cases (int_beq height meta.block_height)) [
        | inl e ↦
            rw (e, (int_eq.equal_iff height meta.block_height).0 e)
              (run_joined env (lookup meta.block_height m) f meta s)
        | inr e ↦ rw e
      ])
