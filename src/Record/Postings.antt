-- ===== src/Record/Postings.antt =====
-- The abstract view of the running totals: a ledger on which an event is a list of postings, each
-- an amount that one depth of one pool moves by.
use midgard.Base.{
  ◌≡◌, refl, ap, ◌∙◌, Bool, true, false, ◌&&◌, List, [], ◌∷◌, ◌++◌, ◌==◌, if◌then◌else◌,
}
use midgard.Base.Bytes.{Bytes, bytes_eq}
use midgard.Base.Int.{ℤ, add64, InInt64, wrap64-InInt64}
use midgard.Record.Totals.{
  RunningTotals, depth, add_pool_asset_e8_depth, add_pool_rune_e8_depth, add_pool_synth_e8_depth,
  depth-add_depth,
}

pub data Kind : Type 0 where
  asset rune synth : Kind

pub record Posting : Type 0 where
  pub kind : Kind
  pub pool : Bytes
  pub e8 : ℤ

abbrev pub posting : Kind → Bytes → ℤ → Posting
posting kind pool e8 = record { kind = kind; pool = pool; e8 = e8 }

abbrev pub depth_of : Kind → RunningTotals → Bytes → ℤ
depth_of asset t = depth t.asset_e8_depth_per_pool
depth_of rune t = depth t.rune_e8_depth_per_pool
depth_of synth t = depth t.synth_e8_depth_per_pool

-- The method of the running totals that a posting stands for.
abbrev pub post_one : Posting → Kind → RunningTotals → RunningTotals
post_one p asset = add_pool_asset_e8_depth p.pool p.e8
post_one p rune = add_pool_rune_e8_depth p.pool p.e8
post_one p synth = add_pool_synth_e8_depth p.pool p.e8

abbrev pub post : List Posting → RunningTotals → RunningTotals
post [] t = t
post (p ∷ ps) t = post ps (post_one p p.kind t)

abbrev same_kind : Kind → Kind → Bool
same_kind asset asset = true
same_kind rune rune = true
same_kind synth synth = true
same_kind _ _ = false

-- What a list of postings makes of one depth: those to its kind and its pool add up.
abbrev pub settle : Kind → Bytes → List Posting → ℤ → ℤ
settle k j [] d = d
settle k j (p ∷ ps) d =
    settle k j ps (if same_kind p.kind k && p.pool == j then add64 d p.e8 else d)

abbrev pub AllInt64 : List Posting → Type 0
AllInt64 [] = Unit
AllInt64 (p ∷ ps) = InInt64 p.e8 × AllInt64 ps

depth_of-post_one :
    (kind k : Kind) (j : Bytes) (p : Posting) (t : RunningTotals)
    → InInt64 p.e8
    → depth_of k (post_one p kind t) j
      ≡ (if same_kind kind k && p.pool == j then add64 (depth_of k t j) p.e8 else depth_of k t j)
unfolding add_pool_asset_e8_depth add_pool_rune_e8_depth add_pool_synth_e8_depth
depth_of-post_one asset asset j p t h = depth-add_depth p.pool j p.e8 _ h
depth_of-post_one rune rune j p t h = depth-add_depth p.pool j p.e8 _ h
depth_of-post_one synth synth j p t h = depth-add_depth p.pool j p.e8 _ h
depth_of-post_one _ _ j p t h = refl

-- After a list of postings of int64 amounts each depth is the old one with the amounts posted to it
-- added, and no other amount.
pub depth_of-post :
    (ps : List Posting) (k : Kind) (j : Bytes) (t : RunningTotals)
    → AllInt64 ps
    → depth_of k (post ps t) j ≡ settle k j ps (depth_of k t j)
depth_of-post [] k j t h = refl
depth_of-post (p ∷ ps) k j t h =
    depth_of-post ps k j (post_one p p.kind t) h.1
    ∙ ap (settle k j ps) (depth_of-post_one p.kind k j p t h.0)

pub post-append :
    (ps qs : List Posting) (t : RunningTotals) → post (ps ++ qs) t ≡ post qs (post ps t)
post-append [] qs t = refl
post-append (p ∷ ps) qs t = post-append ps qs (post_one p p.kind t)

-- Depths that are int64 stay so.
pub settle-InInt64 :
    (ps : List Posting) (k : Kind) (j : Bytes) (d : ℤ) → InInt64 d → InInt64 (settle k j ps d)
settle-InInt64 [] k j d h = h
settle-InInt64 (p ∷ ps) k j d h = settle-InInt64 ps k j _ (step (same_kind p.kind k && p.pool == j))
  where
    step : (b : Bool) → InInt64 (if b then add64 d p.e8 else d)
    step true = unfold add64 in wrap64-InInt64 _
    step false = h
