-- ===== src/Record/Corrections/Mainnet/Changes.antt =====
-- internal/fetch/record/corrections.go: what a table of changes of pools does to the depths.
use midgard.Base.{◌≡◌, refl, sym, ap, ◌∙◌, Option, none, some, List, [], ◌∷◌, ◌++◌}
use midgard.Base.Bytes.{Bytes}
use midgard.Base.Int.{ℤ, InInt64, int_eq}
use midgard.Base.Maps.{Map, lookup}
use midgard.Record.Corrections.{
  ArtificialPoolBallanceChange, to_event, run_balance_changes, artificial_balance_changes,
  found_balance_changes,
}
use midgard.Record.Corrections.Registry.{on_pool_balance_change-to_event}
use midgard.Record.Monad.{Metadata, Env, Recorder}
use midgard.Record.Pools.{on_pool_balance_change}
use midgard.Record.Pools.Depths.{unless_zero, on_pool_balance_change-post}
use midgard.Record.Postings.{posting, asset, rune, Posting, post, post-append}

-- The amounts of a change, to the two depths of its pool.
abbrev of_change : ArtificialPoolBallanceChange → List Posting
of_change c =
    unless_zero c.asset (posting asset c.pool c.asset)
    ++ unless_zero c.rune (posting rune c.pool c.rune)

abbrev pub change_postings : List ArtificialPoolBallanceChange → List Posting
change_postings [] = []
change_postings (c ∷ cs) = of_change c ++ change_postings cs

abbrev pub postings_of : Option (List ArtificialPoolBallanceChange) → List Posting
postings_of none = []
postings_of (some cs) = change_postings cs

abbrev pub AreInt64 : List ArtificialPoolBallanceChange → Type 0
AreInt64 [] = Unit
AreInt64 (c ∷ cs) = InInt64 c.asset × InInt64 c.rune × AreInt64 cs

abbrev pub AllInt64Of : Option (List ArtificialPoolBallanceChange) → Type 0
AllInt64Of none = Unit
AllInt64Of (some cs) = AreInt64 cs

module _ {S : Type 0} (env : Env S) where
  change-post :
      (reason : Bytes) (c : ArtificialPoolBallanceChange) (meta : Metadata) (s : Recorder S)
      → InInt64 c.asset
      → InInt64 c.rune
      → (on_pool_balance_change env (record (to_event c) { reason = reason }) meta s).1.totals
        ≡ post (of_change c) s.totals
  change-post reason c meta s a r =
      on_pool_balance_change-post env (record (to_event c) { reason = reason }) meta s
      ∙ sym (on_pool_balance_change-post env (to_event c) meta s)
      ∙ on_pool_balance_change-to_event env c meta s a r

  run_balance_changes-post :
      (reason : Bytes) (cs : List ArtificialPoolBallanceChange) (meta : Metadata) (s : Recorder S)
      → AreInt64 cs
      → (run_balance_changes env reason cs meta s).1.totals ≡ post (change_postings cs) s.totals
  unfolding run_balance_changes
  run_balance_changes-post reason [] meta s h = refl
  run_balance_changes-post reason (c ∷ cs) meta s (a, r, rest) =
      run_balance_changes-post reason cs meta _ rest
      ∙ ap (post (change_postings cs)) (change-post reason c meta s a r)
      ∙ sym (post-append (of_change c) (change_postings cs) s.totals)

  found-post :
      (reason : Bytes) (found : Option (List ArtificialPoolBallanceChange)) (meta : Metadata)
      (s : Recorder S)
      → AllInt64Of found
      → (found_balance_changes env reason found meta s).1.totals ≡ post (postings_of found) s.totals
  found-post reason none meta s h = refl
  found-post reason (some cs) meta s h = run_balance_changes-post reason cs meta s h

  -- The function that is registered for a table of changes of pools moves the depths, at every height,
  -- by exactly the amounts that the table has for it, in order, if they are int64, and at a height that
  -- is not in the table by nothing; no error of the inserter changes this.
  pub artificial_balance_changes-post :
      (changes : Map ℤ (List ArtificialPoolBallanceChange)) (reason : Bytes) (meta : Metadata)
      (s : Recorder S)
      → AllInt64Of (lookup meta.block_height changes)
      → (artificial_balance_changes env changes reason meta s).1.totals
        ≡ post (postings_of (lookup meta.block_height changes)) s.totals
  unfolding artificial_balance_changes
  artificial_balance_changes-post changes reason meta s h =
      found-post reason (lookup meta.block_height changes) meta s h
