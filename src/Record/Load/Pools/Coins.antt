-- ===== src/Record/Load/Pools/Coins.antt =====
-- internal/fetch/record/event.go, `Add.LoadTendermint`: the loop over the coins of a donation.
use midgard.Base.{
  ℕ, zero, suc, ◌≤◌, ◌<◌, ◌≡◌, refl, sym, ap, ◌∙◌, ◌&&◌, nat_beq, List, [], ◌∷◌, length, Option,
  none, some, arith, Bool-cases, inl, inr,
}
use midgard.Base.Bytes.{Bytes, cut2, split_all, before_first, before_cut}
use midgard.Record.Events.{Add}
use midgard.Record.Load.Reader.{Load, ◌>>=◌, ok, set, loaded, failed, after_logs}
use midgard.Record.Load.Texts.{coin}
use midgard.Record.Load.Pools.{add_coin, next_coin, coins}

-- The reference: the parts between the separators, of which the last one may be empty.
abbrev pub read_last : Bytes → Add → Load Add
read_last [] e = ok e
read_last (c ∷ cs) e = set (coin "malformed coin" (c ∷ cs)) (add_coin e)

abbrev pub read_parts : List Bytes → Add → Load Add
read_parts [] e = ok e
read_parts (part ∷ []) e = read_last part e
read_parts (part ∷ other ∷ parts) e =
    coin "malformed coin" part >>= λ c. read_parts (other ∷ parts) (add_coin e c)

-- How a cut and the parts go together: the first part is the one before the cut.
abbrev parts_after : Option (Bytes × Bytes) → Bytes → List Bytes
parts_after none b = b ∷ []
parts_after (some (before, after)) b = before ∷ split_all b',' b' ' after

parts_after-before_cut :
    (x y : ℕ) (o : Option (Bytes × Bytes)) (rest : Bytes)
    → before_first x (parts_after o (y ∷ rest)) ≡ parts_after (before_cut x o) (x ∷ y ∷ rest)
parts_after-before_cut x y none rest = refl
parts_after-before_cut x y (some (before, after)) rest = refl

split_all-cut2 : (b : Bytes) → split_all b',' b' ' b ≡ parts_after (cut2 b',' b' ' b) b
unfolding split_all cut2
split_all-cut2 [] = refl
split_all-cut2 (x ∷ []) = refl
split_all-cut2 (x ∷ y ∷ rest) = elim (Bool-cases (nat_beq x b',' && nat_beq y b' ')) [
  | inl here ↦ rw here refl
  | inr later ↦
      rw later (ap (before_first x) (split_all-cut2 (y ∷ rest)) ∙ parts_after-before_cut x y _ rest)
]

-- What is behind a cut is shorter.
abbrev Shorter : Option (Bytes × Bytes) → ℕ → Type 0
Shorter none n = Unit
Shorter (some (before, after)) n = length after < n

Shorter-before_cut :
    (x : ℕ) (o : Option (Bytes × Bytes)) (n : ℕ) → Shorter o n → Shorter (before_cut x o) (suc n)
Shorter-before_cut x none n h = h
Shorter-before_cut x (some (before, after)) n h = omega arith

cut2-Shorter : (b : Bytes) → Shorter (cut2 b',' b' ' b) (length b)
unfolding cut2
cut2-Shorter [] = tt
cut2-Shorter (x ∷ []) = tt
cut2-Shorter (x ∷ y ∷ rest) = elim (Bool-cases (nat_beq x b',' && nat_beq y b' ')) [
  | inl here ↦ rw here (omega arith)
  | inr later ↦ rw later (
      Shorter-before_cut x (cut2 b',' b' ' (y ∷ rest)) (length (y ∷ rest))
        (cut2-Shorter (y ∷ rest)))
]

read_parts-cons :
    (part : Bytes) (o : Option (Bytes × Bytes)) (b : Bytes) (e : Add)
    → read_parts (part ∷ parts_after o b) e
      ≡ (coin "malformed coin" part >>= λ c. read_parts (parts_after o b) (add_coin e c))
read_parts-cons part none b e = refl
read_parts-cons part (some (before, after)) b e = refl

bind_same :
    {A B : Type 0} (m : Load A) (f g : A → Load B) → ((a : A) → f a ≡ g a) → (m >>= f) ≡ (m >>= g)
bind_same (loaded a logs) f g h = ap (after_logs logs) (h a)
bind_same (failed err logs) f g h = refl

next_coin-read_parts :
    (fuel : ℕ) (o : Option (Bytes × Bytes)) (c : ℕ) (cs : Bytes) (e : Add)
    → Shorter o (length (c ∷ cs))
    → length (c ∷ cs) ≤ suc fuel
    → ((after : Bytes) (e : Add)
        → length after ≤ fuel
        → coins fuel after e ≡ read_parts (split_all b',' b' ' after) e)
    → next_coin (coins fuel) o (c ∷ cs) e ≡ read_parts (parts_after o (c ∷ cs)) e
next_coin-read_parts fuel none c cs e short enough ih = refl
next_coin-read_parts fuel (some (before, after)) c cs e short enough ih =
    bind_same (coin "malformed coin" before) _ _ (λ p. ih after (add_coin e p) (omega arith))
    ∙ rw (split_all-cut2 after) (sym (read_parts-cons before (cut2 b',' b' ' after) after e))

coins_of_nothing : (fuel : ℕ) (e : Add) → coins fuel [] e ≡ read_parts (split_all b',' b' ' []) e
unfolding coins split_all
coins_of_nothing zero e = refl
coins_of_nothing (suc fuel) e = refl

-- The loop over the coins ends: with fuel for each byte it never runs out, and it reads the parts
-- between the separators in order, less an empty last one, and stops at the first that is
-- malformed.
pub coins-read_parts :
    (fuel : ℕ) (b : Bytes) (e : Add)
    → length b ≤ fuel
    → coins fuel b e ≡ read_parts (split_all b',' b' ' b) e
unfolding coins
coins-read_parts zero [] e enough = coins_of_nothing zero e
coins-read_parts (suc fuel) [] e enough = coins_of_nothing (suc fuel) e
coins-read_parts zero (c ∷ cs) e enough = absurd (omega arith)
coins-read_parts (suc fuel) (c ∷ cs) e enough =
    next_coin-read_parts fuel (cut2 b',' b' ' (c ∷ cs)) c cs e (cut2-Shorter (c ∷ cs)) enough
      (λ after e' short. coins-read_parts fuel after e' short)
    ∙ ap (λ ps. read_parts ps e) (sym (split_all-cut2 (c ∷ cs)))
