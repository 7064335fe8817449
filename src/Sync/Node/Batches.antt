-- ===== src/Sync/Node/Batches.antt =====
-- internal/fetch/sync/chain/chain.go: the blocks of a batch have consecutive heights, in however many
-- parts the batch was fetched.
use midgard.Base.{
  ℕ, zero, suc, ◌+◌, ◌*◌, ◌/◌, ◌≡◌, refl, ap, Bool-cases, inl, inr, Option, none, some, List, [],
  ◌∷◌, ◌++◌, length, nat_beq, ◌||◌, arith,
}
use mathlib.Core.Path.{subst}
use midgard.Sync.Store.{Block}
use midgard.Sync.Node.{
  Info, Results, Node, and_info, checked_infos, heights_of, and_block, checked_blocks, with_results,
  with_infos, with_answer, fetch_blocks, and_part, fetch_parts, fetch_blocks_parallel,
}

-- The blocks have the heights from one on, and the other is the one behind them.
abbrev pub AreConsecutive : {B : Type 0} → ℕ → List (Block B) → ℕ → Type 0
AreConsecutive height [] last = last ≡ height
AreConsecutive height (b ∷ rest) last = (b.height ≡ height) × AreConsecutive (suc height) rest last

pub AreConsecutive-append :
    {B : Type 0} (a : ℕ) (xs : List (Block B)) (b : ℕ) (ys : List (Block B)) (c : ℕ)
    → AreConsecutive a xs b
    → AreConsecutive b ys c
    → AreConsecutive a (xs ++ ys) c
AreConsecutive-append a [] b ys c e h = subst (λ (n : ℕ). AreConsecutive n ys c) e h
AreConsecutive-append a (x ∷ xs) b ys c (e, r) h = (e, AreConsecutive-append (suc a) xs b ys c r h)

-- An answer without an error has a block for each height from the first to before the last.
abbrev pub Covers : {B : Type 0} → ℕ → ℕ → Option (List (Block B)) → Type 0
Covers first last none = Unit
Covers first last (some blocks) = AreConsecutive first blocks last

abbrev HasLength : {A : Type 0} → ℕ → Option (List A) → Type 0
HasLength n none = Unit
HasLength n (some xs) = length xs ≡ n

and_info-HasLength :
    {B : Type 0} (i : Info B) (n : ℕ) (rest : Option (List (Info B)))
    → HasLength n rest
    → HasLength (suc n) (and_info i rest)
and_info-HasLength i n none h = tt
and_info-HasLength i n (some rest) h = ap suc h

checked_infos-HasLength :
    {B : Type 0} (h : ℕ) (infos : List (Option (Info B)))
    → HasLength (length infos) (checked_infos h infos)
unfolding checked_infos
checked_infos-HasLength h [] = refl
checked_infos-HasLength h (none ∷ rest) = tt
checked_infos-HasLength h (some i ∷ rest) = elim (Bool-cases (nat_beq i.header_height h)) [
  | inl same ↦ rw same (and_info-HasLength i (length rest) _ (checked_infos-HasLength (suc h) rest))
  | inr other ↦ rw other tt
]

and_block-Covers :
    {B : Type 0} (first last : ℕ) (b : Block B) (rest : Option (List (Block B)))
    → b.height ≡ first
    → Covers (suc first) last rest
    → Covers first last (and_block b rest)
and_block-Covers first last b none e h = tt
and_block-Covers first last b (some rest) e h = (e, h)

checked_blocks-Covers :
    {B R : Type 0} (h : ℕ) (infos : List (Info B)) (results : List (Results R))
    → Covers h (h + length infos) (checked_blocks h infos results)
unfolding checked_blocks
checked_blocks-Covers h [] results = omega arith
checked_blocks-Covers h (i ∷ infos) [] = tt
checked_blocks-Covers h (i ∷ infos) (r ∷ results) = elim (Bool-cases (nat_beq i.header_height h)) [
  | inr other ↦ rw other tt
  | inl same ↦ elim (Bool-cases (nat_beq r.results_height h)) [
    | inr other ↦ rw (same, other) tt
    | inl right ↦
        rw (same, right)
          (and_block-Covers h _ _ (checked_blocks (suc h) infos results) (ground arith) (
            subst (λ (n : ℕ). Covers (suc h) n (checked_blocks (suc h) infos results)) (omega arith)
              (checked_blocks-Covers (suc h) infos results)))
  ]
]

module _ {W B R : Type 0} (node : Node W B R)
    (answers : (h n : ℕ) (w : W) → HasLength n (node.blocks h n w).0) where
  with_results-Covers :
      (h n : ℕ) (infos : List (Info B)) (results : Option (List (Results R)) × W)
      → length infos ≡ n
      → Covers h (h + n) (with_results node h infos results).0
  with_results-Covers h n infos (none, w) e = tt
  with_results-Covers h n infos (some results, w) e =
      subst (λ (m : ℕ). Covers h (h + m) (checked_blocks h infos results)) e
        (checked_blocks-Covers h infos results)

  with_infos-Covers :
      (h n : ℕ) (infos : Option (List (Info B))) (w : W)
      → HasLength n infos
      → Covers h (h + n) (with_infos node h infos w).0
  with_infos-Covers h n none w e = tt
  with_infos-Covers h n (some infos) w e =
      with_results-Covers h n infos (node.block_results (heights_of infos) w) e

  with_answer-Covers :
      (h n : ℕ) (answer : Option (List (Option (Info B))) × W)
      → HasLength n answer.0
      → Covers h (h + n) (with_answer node h answer).0
  with_answer-Covers h n (none, w) e = tt
  with_answer-Covers h n (some infos, w) e =
      with_infos-Covers h n (checked_infos h infos) w
        (subst (λ (m : ℕ). HasLength m (checked_infos h infos)) e (checked_infos-HasLength h infos))

  fetch_blocks-Covers : (h n : ℕ) (w : W) → Covers h (h + n) (fetch_blocks node h n w).0
  unfolding fetch_blocks
  fetch_blocks-Covers h n w = with_answer-Covers h n (node.blocks h n w) (answers h n w)

  and_part-Covers :
      (a b c : ℕ) (part : Option (List (Block (B × R)))) (rest : Option (List (Block (B × R))) × W)
      → Covers a b part
      → Covers b c rest.0
      → Covers a c (and_part node part rest).0
  and_part-Covers a b c (some part) (some rest, w) h k = AreConsecutive-append a part b rest c h k
  and_part-Covers a b c (some part) (none, w) h k = tt
  and_part-Covers a b c none (rest, w) h k = tt

  fetch_parts-Covers :
      (parts k h : ℕ) (w : W) → Covers h (h + parts * k) (fetch_parts node parts k h w).0
  unfolding fetch_parts
  fetch_parts-Covers zero k h w = ground arith
  fetch_parts-Covers (suc parts) k h w =
      and_part-Covers h (h + k) (h + suc parts * k) (fetch_blocks node h k w).0
        (fetch_parts node parts k (h + k) (fetch_blocks node h k w).1) (fetch_blocks-Covers h k w)
        (subst
          (λ (m : ℕ).
            Covers (h + k) m (fetch_parts node parts k (h + k) (fetch_blocks node h k w).1).0)
          (ground arith) (fetch_parts-Covers parts k (h + k) (fetch_blocks node h k w).1))

  -- If the node answers a request for some blocks with as many, and whatever their contents are: a
  -- batch that is fetched without an error, in one part or in several, has exactly the blocks of the
  -- heights that were asked for, in order.
  pub fetch_blocks_parallel-Covers :
      (h n parallelism : ℕ) (w : W)
      → Covers h (h + n) (fetch_blocks_parallel node h n parallelism w).0
  unfolding fetch_blocks_parallel
  fetch_blocks_parallel-Covers h n p w = elim (Bool-cases (nat_beq n 1 || nat_beq p 1)) [
    | inl one ↦ rw one (fetch_blocks-Covers h n w)
    | inr more ↦ elim (Bool-cases (nat_beq (n / p * p) n)) [
      | inl even ↦
          rw (more, even)
            (subst (λ (m : ℕ). Covers h m (fetch_parts node p (n / p) h w).0) (ground arith)
              (fetch_parts-Covers p (n / p) h w))
      | inr uneven ↦ rw (more, uneven) tt
    ]
  ]
