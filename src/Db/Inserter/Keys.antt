-- ===== src/Db/Inserter/Keys.antt =====
-- The key of a batch tells the tables and columns of rows apart.
use Prim.Native.String.{String}
use midgard.Base.{
  ◌≡◌, refl, ◌∙◌, ap, ℕ, Bool, true, false, not, ◌&&◌, List, [], ◌∷◌, ◌++◌, nat_beq, arith,
}
use midgard.Base.Bytes.{Bytes, codes, same}
use midgard.Db.Inserter.{batch_key, join}

abbrev pub is_free_of : ℕ → Bytes → Bool
is_free_of sep [] = true
is_free_of sep (c ∷ cs) = not (nat_beq c sep) && is_free_of sep cs

abbrev pub are_free_of : ℕ → List String → Bool
are_free_of sep [] = true
are_free_of sep (c ∷ cs) = is_free_of sep (codes c) && are_free_of sep cs

abbrev pub is_some_column : List String → Bool
is_some_column [] = false
is_some_column (c ∷ cs) = true

-- A table whose name has no bracket, and columns, at least one, whose names have no comma.
abbrev pub are_plain : String → List String → Bool
are_plain table columns =
    is_free_of b'(' (codes table) && (is_some_column columns && are_free_of b',' columns)

-- The same names, one by one.
abbrev pub same_names : List String → List String → Bool
same_names [] [] = true
same_names [] (d ∷ ds) = false
same_names (c ∷ cs) [] = false
same_names (c ∷ cs) (d ∷ ds) = same (codes c) (codes d) && same_names cs ds

module _ (sep : ℕ) where
  same-separated :
      (a b u v : Bytes)
      → is_free_of sep a ≡ true
      → is_free_of sep b ≡ true
      → same (a ++ (sep ∷ u)) (b ++ (sep ∷ v)) ≡ (same a b && same u v)
  unfolding same
  same-separated [] [] u v h k = ground arith
  same-separated [] (y ∷ b) u v h k = ground arith
  same-separated (x ∷ a) [] u v h k = ground arith
  same-separated (x ∷ a) (y ∷ b) u v h k = ground (arith, same-separated a b u v)

  same-longer : (a b v : Bytes) → is_free_of sep a ≡ true → same a (b ++ (sep ∷ v)) ≡ false
  unfolding same
  same-longer [] [] v h = refl
  same-longer [] (y ∷ b) v h = refl
  same-longer (x ∷ a) [] v h = ground arith
  same-longer (x ∷ a) (y ∷ b) v h = ground (arith, same-longer a b v)

  same-shorter : (a b v : Bytes) → is_free_of sep a ≡ true → same (b ++ (sep ∷ v)) a ≡ false
  unfolding same
  same-shorter [] [] v h = refl
  same-shorter [] (y ∷ b) v h = refl
  same-shorter (x ∷ a) [] v h = ground arith
  same-shorter (x ∷ a) (y ∷ b) v h = ground (arith, same-shorter a b v)

same-closed : (x : ℕ) (a b : Bytes) → same (a ++ x ∷ []) (b ++ x ∷ []) ≡ same a b
unfolding same
same-closed x [] [] = ground arith
same-closed x [] (y ∷ []) = ground arith
same-closed x [] (y ∷ z ∷ b) = ground arith
same-closed x (y ∷ []) [] = ground arith
same-closed x (y ∷ z ∷ a) [] = ground arith
same-closed x (y ∷ a) (z ∷ b) = ap (λ t. nat_beq y z && t) (same-closed x a b)

pub both : (p q : Bool) → (p && q) ≡ true → (p ≡ true) × (q ≡ true)
both true true h = (refl, refl)
both true false h = cc
both false q h = cc

and_true : (p : Bool) → p ≡ (p && true)
and_true true = refl
and_true false = refl

and_false : (p : Bool) → false ≡ (p && false)
and_false true = refl
and_false false = refl

same-join :
    (cs ds : List String)
    → (is_some_column cs && are_free_of b',' cs) ≡ true
    → (is_some_column ds && are_free_of b',' ds) ≡ true
    → same (join cs) (join ds) ≡ same_names cs ds
same-join [] ds h k = cc
same-join (c ∷ []) [] h k = cc
same-join (c ∷ e ∷ cs) [] h k = cc
same-join (c ∷ []) (d ∷ []) h k = and_true (same (codes c) (codes d))
same-join (c ∷ []) (d ∷ e ∷ ds) h k =
    same-longer b',' (codes c) (codes d) (join (e ∷ ds)) (both _ _ h).0
    ∙ and_false (same (codes c) (codes d))
same-join (c ∷ e ∷ cs) (d ∷ []) h k =
    same-shorter b',' (codes d) (codes c) (join (e ∷ cs)) (both _ _ k).0
    ∙ and_false (same (codes c) (codes d))
same-join (c ∷ e ∷ cs) (d ∷ f ∷ ds) h k =
    same-separated b',' (codes c) (codes d) (join (e ∷ cs)) (join (f ∷ ds)) (both _ _ h).0
      (both _ _ k).0
    ∙ ap (λ t. same (codes c) (codes d) && t)
        (same-join (e ∷ cs) (f ∷ ds) (both _ _ h).1 (both _ _ k).1)

pub same-batch_key :
    (table other : String) (cs ds : List String)
    → are_plain table cs ≡ true
    → are_plain other ds ≡ true
    → same (batch_key table cs) (batch_key other ds)
      ≡ (same (codes table) (codes other) && same_names cs ds)
unfolding batch_key
same-batch_key table other cs ds h k =
    same-separated b'(' (codes table) (codes other) (join cs ++ b')' ∷ []) (join ds ++ b')' ∷ [])
      (both _ _ h).0 (both _ _ k).0
    ∙ ap (λ t. same (codes table) (codes other) && t)
        (same-closed b')' (join cs) (join ds) ∙ same-join cs ds (both _ _ h).1 (both _ _ k).1)
