-- ===== src/Sync/KeepInSync/Sent.antt =====
-- internal/fetch/sync/sync.go: the blocks that are sent over all rounds.
use midgard.Base.{
  ℕ, zero, suc, ◌+◌, ◌≡◌, refl, Bool, true, false, Bool-cases, inl, inr, Option, none, some, ◌||◌,
  ltb, nat_beq, if◌then◌else◌,
}
use mathlib.Core.Path.{subst}
use midgard.Sync.Store.{Folder}
use midgard.Sync.Node.{Node}
use midgard.Sync.CatchUp.{CaughtUp, Outside, catch_up, after_status}
use midgard.Sync.Node.Batches.{AreConsecutive, AreConsecutive-append}
use midgard.Sync.CatchUp.Consecutive.{CatchesUp, catch_up_to-CatchesUp}
use midgard.Sync.KeepInSync.{
  Keeping, Round, goes_on, shuts_down, after_round, Kept, next_round, after_catch_up,
  unless_stopped, rounds, keep_in_sync, start_keeping, forget_errors, keep_errors, max_error_count,
}

abbrev Sends : {W B : Type 0} → ℕ → Kept W B → Type 0
Sends start r = AreConsecutive start r.sent r.next_height

-- What CatchUp returned continues from the height that it was given.
abbrev Continues : {W B : Type 0} → ℕ → Option (CaughtUp W B) → Type 0
Continues start none = ⊥
Continues start (some r) = AreConsecutive start r.sent r.next_height

CatchesUp-Continues :
    {W B : Type 0} (start final : ℕ) (r : Option (CaughtUp W B))
    → CatchesUp start final r
    → Continues start r
CatchesUp-Continues start final none h = h
CatchesUp-Continues start final (some r) h = h.0

-- A round that goes on does so from the height that was returned.
abbrev Leads : ℕ → Round → Type 0
Leads next (goes_on k) = k.next_height ≡ next
Leads next shuts_down = Unit

if-Leads :
    (b : Bool) (next : ℕ) (x y : Round)
    → Leads next x
    → Leads next y
    → Leads next (if b then x else y)
if-Leads true next x y h k = h
if-Leads false next x y h k = k

after_round-Leads :
    (k : Keeping) (next : ℕ) (failed : Bool) (failed_height : Option ℕ)
    → Leads next (after_round k next failed failed_height)
unfolding after_round
after_round-Leads k next failed failed_height =
    if-Leads (nat_beq next k.previous_height) next _ (forget_errors next failed_height)
      (if-Leads failed next _ (keep_errors next k.error_count failed_height)
        (if-Leads (ltb max_error_count (k.error_count + 1)) next shuts_down
          (keep_errors next (k.error_count + 1) failed_height) tt refl)
        refl)
      refl

module _ {W B R : Type 0} (folder : Folder (B × R)) (node : Node W B R) (outside : Outside W) where
  after_status-Continues :
      (start : ℕ) (status : Option ℕ × W)
      → Continues start (after_status folder node outside start status)
  after_status-Continues start (none, w) = refl
  after_status-Continues start (some final, w) =
      CatchesUp-Continues start final _ (catch_up_to-CatchesUp folder node outside final start w)

  catch_up-Continues :
      (failed_height : Option ℕ) (start : ℕ) (w : W)
      → Continues start (catch_up folder node outside failed_height start w)
  unfolding catch_up
  catch_up-Continues none start w = after_status-Continues start (outside.latest_block_height w)
  catch_up-Continues (some final) start w = elim (Bool-cases (ltb final start || nat_beq final 0)) [
    | inl old ↦ rw old (after_status-Continues start (outside.latest_block_height w))
    | inr ahead ↦ rw ahead (
        CatchesUp-Continues start final _ (catch_up_to-CatchesUp folder node outside final start w))
  ]

  next_round-Sends :
      (rest : Keeping → W → Kept W (B × R)) (next : ℕ) (round : Round) (w : W)
      → Leads next round
      → ((k : Keeping) (w : W) → Sends k.next_height (rest k w))
      → Sends next (next_round folder node outside rest next round w)
  next_round-Sends rest next (goes_on k) w e h = subst (λ (n : ℕ). Sends n (rest k w)) e (h k w)
  next_round-Sends rest next shuts_down w e h = refl

  after_catch_up-Sends :
      (rest : Keeping → W → Kept W (B × R)) (k : Keeping) (w : W) (r : Option (CaughtUp W (B × R)))
      → Continues k.next_height r
      → ((k : Keeping) (w : W) → Sends k.next_height (rest k w))
      → Sends k.next_height (after_catch_up folder node outside rest k w r)
  after_catch_up-Sends rest k w none h ih = absurd h
  after_catch_up-Sends rest k w (some r) h ih =
      AreConsecutive-append k.next_height r.sent r.next_height _ _ h (
        next_round-Sends rest r.next_height (after_round k r.next_height r.failed r.failed_height)
          r.world (after_round-Leads k r.next_height r.failed r.failed_height) ih)

  unless_stopped-Sends :
      (k : Keeping) (stop : Bool × W) (rest : W → Kept W (B × R))
      → ((w : W) → Sends k.next_height (rest w))
      → Sends k.next_height (unless_stopped folder node outside k stop rest)
  unless_stopped-Sends k (true, w) rest h = refl
  unless_stopped-Sends k (false, w) rest h = h w

  rounds-Sends :
      (n : ℕ) (k : Keeping) (w : W) → Sends k.next_height (rounds folder node outside n k w)
  unfolding rounds
  rounds-Sends zero k w = refl
  rounds-Sends (suc n) k w = unless_stopped-Sends k (outside.is_cancelled w) _ (λ w'.
      after_catch_up-Sends (rounds folder node outside n) k w' _
        (catch_up-Continues k.failed_height k.next_height w') (rounds-Sends n))

  -- Over any number of rounds of KeepInSync, with whatever errors of the store and of the node, the
  -- blocks that are sent have consecutive heights from the one behind the last committed block on:
  -- no height is left out and none is sent twice.
  pub keep_in_sync-AreConsecutive :
      (n height_on_start : ℕ) (w : W)
      → let r = keep_in_sync folder node outside n height_on_start w in
        AreConsecutive (height_on_start + 1) r.sent r.next_height
  unfolding keep_in_sync start_keeping
  keep_in_sync-AreConsecutive n height_on_start w = rounds-Sends n (start_keeping height_on_start) w
