-- ===== src/Sync/CatchUp/Consecutive.antt =====
-- internal/fetch/sync: the blocks that are handed on have consecutive heights, whatever the block
-- store and the node answer.
use midgard.Base.{
  ℕ, zero, suc, ◌+◌, ◌-◌, ◌≤◌, ◌<◌, ◌≡◌, refl, Bool, true, false, Bool-cases, inl, inr, Option,
  none, some, nat_beq, ltb, arith, max, ◌⊎◌,
}
use mathlib.Core.Path.{subst}
use midgard.Sync.Store.{
  Block, Fetched, fetched, at_end, fetch_error, Folder, StoreIterator, store_next,
}
use midgard.Sync.Node.{Node, ChainIterator, chain_iterator, chain_next}
use midgard.Sync.Node.Batches.{AreConsecutive}
use midgard.Sync.Iterate.{
  Source, from_store, from_chain, Iterator, new_iterator, expected, from_chain_answer,
  from_store_answer, next_from, next,
}
use midgard.Sync.CatchUp.{
  CaughtUp, Outside, stopped, with_sent, send, on_fetched, unless_cancelled, catch_up_loop,
  catch_up_to,
}

-- What an answer of the iterator says: a block has the height that was asked for, which is not
-- behind the final one, and the iterator moves by one; the end is behind the final height.
abbrev pub IsNext : {W B : Type 0} → ℕ → ℕ → Fetched B × Iterator B × W → Type 0
IsNext height final (fetched block, it, w) =
    (block.height ≡ height)
    × (it.height ≡ suc height)
    × (it.final_height ≡ final)
    × (height ≤ final)
IsNext height final (at_end, it, w) = final < height
IsNext height final (fetch_error, it, w) = Unit

module _ {W B R : Type 0} (folder : Folder (B × R)) (node : Node W B R) where
  expected-IsNext :
      (height final : ℕ) (block : Block (B × R)) (source : Source (B × R)) (w : W)
      → height ≤ final
      → IsNext height final (expected folder node height final block source w)
  expected-IsNext height final block source w le = elim (Bool-cases (nat_beq block.height height)) [
    | inl same ↦ rw same (ground arith, refl, refl, le)
    | inr other ↦ rw other tt
  ]

  from_chain_answer-IsNext :
      (height final : ℕ) (answer : Fetched (B × R) × ChainIterator (B × R) × W)
      → height ≤ final
      → IsNext height final (from_chain_answer folder node height final answer)
  from_chain_answer-IsNext height final (fetched block, it, w) le =
      expected-IsNext height final block (from_chain it) w le
  from_chain_answer-IsNext height final (at_end, it, w) le = tt
  from_chain_answer-IsNext height final (fetch_error, it, w) le = tt

  from_store_answer-IsNext :
      (height final : ℕ) (answer : Fetched (B × R) × StoreIterator) (w : W)
      → height ≤ final
      → IsNext height final (from_store_answer folder node height final answer w)
  from_store_answer-IsNext height final (fetched block, it) w le =
      expected-IsNext height final block (from_store it) w le
  from_store_answer-IsNext height final (at_end, it) w le =
      from_chain_answer-IsNext height final (chain_next node (chain_iterator height final) w) le
  from_store_answer-IsNext height final (fetch_error, it) w le =
      from_chain_answer-IsNext height final (chain_next node (chain_iterator height final) w) le

  next_from-IsNext :
      (height final : ℕ) (source : Source (B × R)) (w : W)
      → height ≤ final
      → IsNext height final (next_from folder node height final source w)
  next_from-IsNext height final (from_store it) w le =
      from_store_answer-IsNext height final (store_next folder it) w le
  next_from-IsNext height final (from_chain it) w le =
      from_chain_answer-IsNext height final (chain_next node it w) le

  pub next-IsNext :
      (it : Iterator (B × R)) (w : W) → IsNext it.height it.final_height (next folder node it w)
  unfolding next
  next-IsNext it w = elim (Bool-cases (ltb it.final_height it.height)) [
    | inl behind ↦ rw behind (ground arith)
    | inr within ↦ rw within (next_from-IsNext it.height it.final_height it.source w (ground arith))
  ]

-- It returns; the blocks that were sent are consecutive from the start to before the next height,
-- none of them is behind the final height; and with no error it is in sync only if it has sent all
-- up to the final height.
abbrev pub CatchesUp : {W B : Type 0} → ℕ → ℕ → Option (CaughtUp W B) → Type 0
CatchesUp start final none = ⊥
CatchesUp start final (some r) =
    AreConsecutive start r.sent r.next_height
    × (r.next_height ≤ max start (final + 1))
    × (r.in_sync ≡ true → (final < r.next_height) × (r.failed ≡ false))
    × (r.failed_height ≡ none ⊎ r.failed_height ≡ some final)

module _ {W B R : Type 0} (folder : Folder (B × R)) (node : Node W B R) (outside : Outside W) where
  stopped-CatchesUp :
      (height final : ℕ) (w : W)
      → CatchesUp height final (some (stopped folder node outside height false w))
  stopped-CatchesUp height final w = (refl, omega arith, λ h. cc, inl refl)

  with_sent-CatchesUp :
      (height final : ℕ) (block : Block (B × R)) (r : Option (CaughtUp W (B × R)))
      → block.height ≡ height
      → height ≤ final
      → CatchesUp (suc height) final r
      → CatchesUp height final (with_sent folder node outside block r)
  with_sent-CatchesUp height final block none e le h = h
  with_sent-CatchesUp height final block (some r) e le (run, bound, synced, failed) =
      ((e, run), omega arith, synced, failed)

  send-CatchesUp :
      (height final : ℕ) (block : Block (B × R)) (cancelled : Bool × W)
      (rest : W → Option (CaughtUp W (B × R)))
      → block.height ≡ height
      → height ≤ final
      → ((w : W) → CatchesUp (suc height) final (rest w))
      → CatchesUp height final (send folder node outside height block cancelled rest)
  send-CatchesUp height final block (true, w) rest e le h = stopped-CatchesUp height final w
  send-CatchesUp height final block (false, w) rest e le h =
      with_sent-CatchesUp height final block (rest w) e le (h w)

  on_fetched-CatchesUp :
      (rest : Iterator (B × R) → ℕ → W → Option (CaughtUp W (B × R))) (height final : ℕ)
      (in_sync : Bool) (answer : Fetched (B × R) × Iterator (B × R) × W)
      → IsNext height final answer
      → ((it : Iterator (B × R)) (w : W)
          → it.height ≡ suc height
          → it.final_height ≡ final
          → height ≤ final
          → CatchesUp (suc height) final (rest it (suc height) w))
      → CatchesUp height final (on_fetched folder node outside rest final height in_sync answer)
  on_fetched-CatchesUp rest height final in_sync (fetched block, it, w) (e, moved, same, le) ih =
      send-CatchesUp height final block (outside.is_cancelled w) (rest it (suc block.height)) e le
        (λ w'. rw e (ih it w' moved same le))
  on_fetched-CatchesUp rest height final in_sync (at_end, it, w) behind ih =
      (refl, omega arith, λ h. (behind, refl), inl refl)
  on_fetched-CatchesUp rest height final in_sync (fetch_error, it, w) behind ih =
      (refl, omega arith, λ h. cc, inr refl)

  unless_cancelled-CatchesUp :
      (height final : ℕ) (cancelled : Bool × W) (rest : W → Option (CaughtUp W (B × R)))
      → ((w : W) → CatchesUp height final (rest w))
      → CatchesUp height final (unless_cancelled folder node outside height cancelled rest)
  unless_cancelled-CatchesUp height final (true, w) rest h = stopped-CatchesUp height final w
  unless_cancelled-CatchesUp height final (false, w) rest h = h w

  catch_up_loop-CatchesUp :
      (fuel height final : ℕ) (in_sync : Bool) (it : Iterator (B × R)) (w : W)
      → final + 1 - height < fuel
      → it.height ≡ height
      → it.final_height ≡ final
      → CatchesUp height final (catch_up_loop folder node outside fuel final in_sync it height w)
  unfolding catch_up_loop
  catch_up_loop-CatchesUp zero height final in_sync it w enough at same = absurd (omega arith)
  catch_up_loop-CatchesUp (suc fuel) height final in_sync it w enough at same =
      unless_cancelled-CatchesUp height final (outside.is_cancelled w) _ (λ w'.
        on_fetched-CatchesUp (catch_up_loop folder node outside fuel final in_sync) height final
          in_sync (next folder node it w')
          (subst (λ (h : ℕ). IsNext h final (next folder node it w')) at
            (subst (λ (f : ℕ). IsNext it.height f (next folder node it w')) same
              (next-IsNext folder node it w')))
          (λ it' w'' moved same' le.
            catch_up_loop-CatchesUp fuel (suc height) final in_sync it' w'' (omega arith) moved
              same'))

  -- Up to a final height, whatever the store and the node answer and whenever the job is cancelled:
  -- CatchUp returns, the blocks that it sent have consecutive heights from the start on and none is
  -- behind the final height, it returns the height behind the last one, it says that it is in sync
  -- only if it sent all of them with no error, and the height that it tries again after an error is
  -- the final one.
  pub catch_up_to-CatchesUp :
      (final start : ℕ) (w : W)
      → CatchesUp start final (catch_up_to folder node outside final start w)
  unfolding catch_up_to new_iterator
  catch_up_to-CatchesUp final start w =
      catch_up_loop-CatchesUp (final + 2) start final (ltb final (start + 10)) _ w (omega arith)
        refl refl
