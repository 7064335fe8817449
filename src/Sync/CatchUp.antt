-- ===== src/Sync/CatchUp.antt =====
-- internal/fetch/sync/sync.go: the loop that hands the blocks on up to the height that the node
-- reports, and the one around it that goes on from there.
use midgard.Base.{
  ℕ, zero, suc, ◌+◌, ◌-◌, ◌||◌, Bool, true, false, Option, none, some, List, [], ◌∷◌, ltb, nat_beq,
  if◌then◌else◌,
}
use midgard.Sync.Store.{Block, Fetched, fetched, at_end, fetch_error, Folder}
use midgard.Sync.Node.{Node}
use midgard.Sync.Iterate.{Iterator, new_iterator, next}
pub mod Consecutive

-- How CatchUp returns: the blocks that were sent, the height to go on from, whether it is in sync,
-- whether there was an error, and `failedThorNodeFetchHeight`, which is `none` for -1.
pub record CaughtUp (W B : Type 0) : Type 0 where
  pub sent : List (Block B)
  pub next_height : ℕ
  pub in_sync : Bool
  pub failed : Bool
  pub failed_height : Option ℕ
  pub world : W

-- The node's status, and whether the job was cancelled; both are asked of the world outside.
pub record Outside (W : Type 0) : Type 0 where
  pub latest_block_height : W → Option ℕ × W
  pub is_cancelled : W → Bool × W

module _ {W B R : Type 0} (folder : Folder (B × R)) (node : Node W B R) (outside : Outside W) where
  abbrev pub stopped : ℕ → Bool → W → CaughtUp W (B × R)
  stopped height in_sync w = record {
    sent = [];
    next_height = height;
    in_sync = in_sync;
    failed = false;
    failed_height = none;
    world = w;
  }

  abbrev pub with_sent : Block (B × R) → Option (CaughtUp W (B × R)) → Option (CaughtUp W (B × R))
  with_sent block none = none
  with_sent block (some r) = some (record r { sent = block ∷ r.sent })

  -- Sending waits until there is room, or until the job is cancelled.
  abbrev pub send :
      ℕ → Block (B × R) → Bool × W → (W → Option (CaughtUp W (B × R))) → Option (CaughtUp W (B × R))
  send height block (true, w) rest = some (stopped height false w)
  send height block (false, w) rest = with_sent block (rest w)

  abbrev pub on_fetched :
      (Iterator (B × R) → ℕ → W → Option (CaughtUp W (B × R)))
      → ℕ
      → ℕ
      → Bool
      → Fetched (B × R) × Iterator (B × R) × W
      → Option (CaughtUp W (B × R))
  on_fetched rest final height in_sync (fetched block, it, w) =
      send height block (outside.is_cancelled w) (rest it (suc block.height))
  on_fetched rest final height in_sync (at_end, it, w) = some (stopped height in_sync w)
  on_fetched rest final height in_sync (fetch_error, it, w) = some (record {
    sent = [];
    next_height = height;
    in_sync = false;
    failed = true;
    failed_height = some final;
    world = w;
  })

  abbrev pub unless_cancelled :
      ℕ → Bool × W → (W → Option (CaughtUp W (B × R))) → Option (CaughtUp W (B × R))
  unless_cancelled height (true, w) rest = some (stopped height false w)
  unless_cancelled height (false, w) rest = rest w

  -- The loop; `none` means that the fuel ran out.
  unfoldable pub catch_up_loop :
      ℕ → ℕ → Bool → Iterator (B × R) → ℕ → W → Option (CaughtUp W (B × R))
  catch_up_loop zero final in_sync it height w = none
  catch_up_loop (suc fuel) final in_sync it height w =
      unless_cancelled height (outside.is_cancelled w) (λ w'.
        on_fetched (catch_up_loop fuel final in_sync) final height in_sync (next folder node it w'))

  -- Up to a height, with a round for each block and one more.
  unfoldable pub catch_up_to : ℕ → ℕ → W → Option (CaughtUp W (B × R))
  unfolding catch_up_loop
  catch_up_to final start w =
      catch_up_loop (final + 2) final (ltb final (start + 10))
        (new_iterator folder node start final) start w

  abbrev pub after_status : ℕ → Option ℕ × W → Option (CaughtUp W (B × R))
  after_status start (none, w) = some (record (stopped start false w) { failed = true })
  after_status start (some final, w) = catch_up_to final start w

  -- A height that failed before is tried again before the node is asked for a later one.
  abbrev pub catch_up_from : ℕ → Option ℕ → W → Option (CaughtUp W (B × R))
  catch_up_from start none w = after_status start (outside.latest_block_height w)
  catch_up_from start (some final) w =
      if ltb final start || nat_beq final 0
      then after_status start (outside.latest_block_height w)
      else catch_up_to final start w

  -- `CatchUp`
  unfoldable pub catch_up : Option ℕ → ℕ → W → Option (CaughtUp W (B × R))
  unfolding catch_up_to
  catch_up failed_height start w = catch_up_from start failed_height w
