-- ===== src/Sync/KeepInSync.antt =====
-- internal/fetch/sync/sync.go, `KeepInSync`: CatchUp again and again, from the height that it
-- returned, until the job is cancelled or too many errors came at one height. The waiting between
-- the rounds is not modelled.
use midgard.Base.{
  ℕ, zero, suc, ◌+◌, Bool, true, false, Option, none, some, List, [], ◌++◌, ltb, nat_beq,
  if◌then◌else◌,
}
use midgard.Sync.Store.{Block, Folder}
use midgard.Sync.Node.{Node}
use midgard.Sync.CatchUp.{CaughtUp, Outside, catch_up}
pub mod Sent

abbrev pub max_error_count : ℕ
max_error_count = 20

pub record Keeping : Type 0 where
  pub next_height : ℕ
  pub previous_height : ℕ
  pub error_count : ℕ
  pub failed_height : Option ℕ

unfoldable pub start_keeping : ℕ → Keeping
start_keeping height_on_start = record {
  next_height = height_on_start + 1;
  previous_height = 0;
  error_count = 0;
  failed_height = none;
}

-- What a round leaves: the state of the next one, or the shutdown of the program.
pub data Round : Type 0 where
  goes_on : Keeping → Round
  shuts_down : Round

-- The count starts again when the height has changed.
abbrev pub forget_errors : ℕ → Option ℕ → Round
forget_errors next failed_height = goes_on (record {
  next_height = next;
  previous_height = next;
  error_count = 0;
  failed_height = failed_height;
})

abbrev pub keep_errors : ℕ → ℕ → Option ℕ → Round
keep_errors next count failed_height = goes_on (record {
  next_height = next;
  previous_height = next;
  error_count = count;
  failed_height = failed_height;
})

unfoldable pub after_round : Keeping → ℕ → Bool → Option ℕ → Round
after_round k next failed failed_height =
    if nat_beq next k.previous_height
    then (if failed
        then (if ltb max_error_count (k.error_count + 1)
            then shuts_down
            else keep_errors next (k.error_count + 1) failed_height)
        else keep_errors next k.error_count failed_height)
    else forget_errors next failed_height

-- How it ended, if it did, within a number of rounds.
pub data Ending : Type 0 where
  cancelled shut_down running : Ending

pub record Kept (W B : Type 0) : Type 0 where
  pub sent : List (Block B)
  pub next_height : ℕ
  pub ending : Ending
  pub world : W

module _ {W B R : Type 0} (folder : Folder (B × R)) (node : Node W B R) (outside : Outside W) where
  abbrev pub ended : ℕ → Ending → W → Kept W (B × R)
  ended next ending w = record { sent = []; next_height = next; ending = ending; world = w }

  abbrev pub with_sent : List (Block (B × R)) → Kept W (B × R) → Kept W (B × R)
  with_sent blocks r = record r { sent = blocks ++ r.sent }

  abbrev pub next_round : (Keeping → W → Kept W (B × R)) → ℕ → Round → W → Kept W (B × R)
  next_round rest next (goes_on k) w = rest k w
  next_round rest next shuts_down w = ended next shut_down w

  abbrev pub after_catch_up :
      (Keeping → W → Kept W (B × R)) → Keeping → W → Option (CaughtUp W (B × R)) → Kept W (B × R)
  after_catch_up rest k w none = ended k.next_height running w
  after_catch_up rest k w (some r) =
      with_sent r.sent (
        next_round rest r.next_height (after_round k r.next_height r.failed r.failed_height)
          r.world)

  abbrev pub unless_stopped : Keeping → Bool × W → (W → Kept W (B × R)) → Kept W (B × R)
  unless_stopped k (true, w) rest = ended k.next_height cancelled w
  unless_stopped k (false, w) rest = rest w

  unfoldable pub rounds : ℕ → Keeping → W → Kept W (B × R)
  rounds zero k w = ended k.next_height running w
  rounds (suc n) k w = unless_stopped k (outside.is_cancelled w) (λ w'.
      after_catch_up (rounds n) k w'
        (catch_up folder node outside k.failed_height k.next_height w'))

  -- `KeepInSync`, for a number of rounds, from the height of the last committed block.
  unfoldable pub keep_in_sync : ℕ → ℕ → W → Kept W (B × R)
  unfolding rounds start_keeping
  keep_in_sync n height_on_start w = rounds n (start_keeping height_on_start) w
