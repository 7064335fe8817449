-- ===== src/Record/Blocks/Increasing.antt =====
-- Lists of ids that grow by strictly increasing numbers.
use midgard.Base.{◌≡◌, refl, sym, ap, ◌∙◌, ℕ, ◌+◌, ◌≤◌, ◌<◌, List, [], ◌∷◌, ◌++◌, map, arith}
use mathlib.Core.List.{append-nil, append_assoc}
use midgard.Base.Int.{ℤ, pos}

-- Strictly increasing numbers above `lo`, and none above `hi`.
abbrev pub Between : ℕ → ℕ → List ℕ → Type 0
Between lo hi [] = lo ≤ hi
Between lo hi (n ∷ ns) = (lo < n) × Between n hi ns

Between-append :
    (lo mid hi : ℕ) (ms ns : List ℕ)
    → Between lo mid ms
    → Between mid hi ns
    → Between lo hi (ms ++ ns)
Between-append lo mid hi [] [] h k = omega arith
Between-append lo mid hi [] (n ∷ ns) h k = (omega (arith, k.0), k.1)
Between-append lo mid hi (m ∷ ms) ns h k = (h.0, Between-append m mid hi ms ns h.1 k)

map-append : (ms ns : List ℕ) → map pos (ms ++ ns) ≡ map pos ms ++ map pos ns
map-append [] ns = refl
map-append (m ∷ ms) ns = ap (pos m ∷◌) (map-append ms ns)

-- The second list is the first one with increasing ids behind it.
abbrev pub Extends : List ℤ → List ℤ → ℕ → ℕ → Type 0
Extends a b lo hi = (ids : List ℕ) × (b ≡ a ++ map pos ids) × Between lo hi ids

pub Extends-same : (a : List ℤ) (lo hi : ℕ) → lo ≤ hi → Extends a a lo hi
Extends-same a lo hi h = ([], sym (append-nil a), h)

pub Extends-one : (a : List ℤ) (lo hi n : ℕ) → lo < n → n ≤ hi → Extends a (a ++ pos n ∷ []) lo hi
Extends-one a lo hi n h k = (n ∷ [], refl, (h, k))

pub Extends-more :
    (a b c : List ℤ) (lo mid hi : ℕ) → Extends a b lo mid → Extends b c mid hi → Extends a c lo hi
Extends-more a b c lo mid hi (ms, e, h) (ns, f, k) = (
  ms ++ ns,
  f
      ∙ ap (λ l. l ++ map pos ns) e
      ∙ append_assoc a (map pos ms) (map pos ns)
      ∙ ap (λ l. a ++ l) (sym (map-append ms ns)),
  Between-append lo mid hi ms ns h k,
)

pub add_zero : (n : ℕ) → n + 0 ≡ n
add_zero n = omega arith
