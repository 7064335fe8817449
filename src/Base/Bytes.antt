-- ===== src/Base/Bytes.antt =====
-- Go's strings and byte slices as lists of byte values, and what the program uses of the packages
-- `strings` and `bytes`. Text literals of the source are ASCII, so a code point is a byte.
use Prim.Native.Char.{code}
use Prim.Native.String.{String}
use midgard.Base.Tests.{nat_beq, leb, Comparable, if◌then◌else◌}
use Prim.Native.Nat.{ℕ, ◌+◌, ◌-◌}
use mathlib.Core.Path.{◌≡◌}
use mathlib.Core.Logic.{◌↔◌}
use mathlib.Core.Bool.{Bool, true, false, ◌&&◌, ◌||◌}
use mathlib.Core.Option.{Option, none, some}
use mathlib.Core.List.{List, [], ◌∷◌, map}
use midgard.Base.Lists.{length, take, drop}
use native.Mathlib.Omega.{arith}

abbrev pub Bytes : Type 0
Bytes = List ℕ

abbrev pub codes : String → Bytes
codes String.[] = []
codes (String.◌∷◌ c s) = code c ∷ codes s

-- `a == b` on strings.
unfoldable pub same : Bytes → Bytes → Bool
same [] [] = true
same [] (y ∷ ys) = false
same (x ∷ xs) [] = false
same (x ∷ xs) (y ∷ ys) = nat_beq x y && same xs ys

pub same_iff : (a b : Bytes) → (same a b ≡ true) ↔ (a ≡ b)
unfolding same
same_iff [] [] = ground arith
same_iff [] (y ∷ ys) = ground arith
same_iff (x ∷ xs) [] = ground arith
same_iff (x ∷ xs) (y ∷ ys) = ground (arith, same_iff xs ys)

instance abbrev pub bytes_eq : Comparable Bytes
bytes_eq = record { equal = same; equal_iff = same_iff }

-- A byte slice that may be nil; `string(b)` of nil is "".
abbrev pub Slice : Type 0
Slice = Option Bytes

abbrev pub str : Slice → Bytes
str none = []
str (some b) = b

-- `strings.HasPrefix`.
unfoldable pub has_prefix : Bytes → Bytes → Bool
has_prefix s [] = true
has_prefix [] (p ∷ ps) = false
has_prefix (c ∷ s) (p ∷ ps) = nat_beq c p && has_prefix s ps

-- `bytes.HasSuffix`, and the slice without the suffix's length.
unfoldable pub has_suffix : Bytes → Bytes → Bool
has_suffix s p = leb (length p) (length s) && same (drop (length s - length p) s) p

abbrev pub without_suffix : Bytes → Bytes → Bytes
without_suffix s p = take (length s - length p) s

-- `bytes.Contains` and `strings.Contains` for a separator of one byte.
unfoldable pub contains : ℕ → Bytes → Bool
contains c [] = false
contains c (x ∷ xs) = nat_beq x c || contains c xs

-- `strings.ToUpper` and `strings.ToLower` on ASCII.
unfoldable pub upper : ℕ → ℕ
upper c = if leb b'a' c && leb c b'z' then c - 32 else c

unfoldable pub to_upper : Bytes → Bytes
unfolding upper
to_upper = map upper

unfoldable pub lower : ℕ → ℕ
lower c = if leb b'A' c && leb c b'Z' then c + 32 else c

unfoldable pub to_lower : Bytes → Bytes
unfolding lower
to_lower = map lower

-- The part before the first byte `c`, and the part behind it: `SplitN(s, c, 2)`, whose second part
-- is there only if `c` occurs.
unfoldable pub split2 : ℕ → Bytes → Bytes × Option Bytes
split2 c [] = ([], none)
split2 c (x ∷ xs) =
    let (before, after) = split2 c xs in if nat_beq x c then ([], some xs) else (x ∷ before, after)

-- `strings.Replace(s, from, to, 1)` for single bytes.
unfoldable pub replace_first : ℕ → ℕ → Bytes → Bytes
replace_first from to [] = []
replace_first from to (x ∷ xs) = if nat_beq x from then to ∷ xs else x ∷ replace_first from to xs

-- The parts before and behind the first occurrence of a separator of two bytes: `bytes.Index` and
-- the two slices.
abbrev pub before_cut : ℕ → Option (Bytes × Bytes) → Option (Bytes × Bytes)
before_cut x none = none
before_cut x (some (before, after)) = some (x ∷ before, after)

unfoldable pub cut2 : ℕ → ℕ → Bytes → Option (Bytes × Bytes)
cut2 c d [] = none
cut2 c d (x ∷ []) = none
cut2 c d (x ∷ y ∷ rest) =
    let more = before_cut x (cut2 c d (y ∷ rest)) in
    if nat_beq x c && nat_beq y d then some ([], rest) else more

-- `strings.Split` for a separator of one byte, and of two.
abbrev pub before_first : ℕ → List Bytes → List Bytes
before_first x [] = (x ∷ []) ∷ []
before_first x (part ∷ parts) = (x ∷ part) ∷ parts

unfoldable pub split1 : ℕ → Bytes → List Bytes
split1 c [] = [] ∷ []
split1 c (x ∷ rest) =
    let parts = split1 c rest in if nat_beq x c then [] ∷ parts else before_first x parts

unfoldable pub split_all : ℕ → ℕ → Bytes → List Bytes
split_all c d [] = [] ∷ []
split_all c d (x ∷ []) = (x ∷ []) ∷ []
split_all c d (x ∷ y ∷ rest) =
    let next = [] ∷ split_all c d rest in
    let more = before_first x (split_all c d (y ∷ rest)) in
    if nat_beq x c && nat_beq y d then next else more
