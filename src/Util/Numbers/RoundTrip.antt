-- ===== src/Util/Numbers/RoundTrip.antt =====
-- Decimal numbers: what is printed is read back.
use midgard.Base.{
  ℕ, zero, suc, ◌+◌, ◌*◌, ◌/◌, ◌%◌, ◌^◌, ◌<◌, ◌≡◌, refl, refl, true, false, none, [], ◌∷◌, arith,
}
use midgard.Base.Bytes.{Bytes, contains}
use midgard.Base.Int.{ℤ, pos, negsuc, InInt64}
use midgard.Util.Numbers.{is_digit, signed_result, nat_str, uint_loop, parse_int, digits, int_str}

uint_loop-digit :
    (acc d : ℕ) (rest : Bytes)
    → d < 10
    → acc * 10 + d < 2 ^ 64
    → uint_loop acc ((b'0' + d) ∷ rest) ≡ uint_loop (acc * 10 + d) rest
unfolding uint_loop
uint_loop-digit acc d rest small fits = ground arith

uint_loop-digits :
    (fuel n : ℕ) (rest : Bytes)
    → n < fuel
    → n < 2 ^ 64
    → uint_loop 0 (digits fuel n rest) ≡ uint_loop n rest
unfolding digits
uint_loop-digits zero n rest enough fits = absurd (omega arith)
uint_loop-digits (suc fuel) n rest enough fits = ground (
  arith,
  uint_loop-digit 0 n rest,
  uint_loop-digit (n / 10) (n % 10) rest,
  uint_loop-digits fuel (n / 10) ((b'0' + n % 10) ∷ rest),
)

-- The text starts with a digit.
abbrev StartsWithDigit : Bytes → Type 0
StartsWithDigit [] = ⊥
StartsWithDigit (c ∷ rest) = is_digit c ≡ true

digits-StartsWithDigit :
    (fuel n : ℕ) (rest : Bytes) → n < fuel → StartsWithDigit (digits fuel n rest)
unfolding digits
digits-StartsWithDigit zero n rest enough = absurd (omega arith)
digits-StartsWithDigit (suc fuel) n rest enough =
    ground (arith, digits-StartsWithDigit fuel (n / 10) ((b'0' + n % 10) ∷ rest))

-- A sign, or none, and then a number that starts with a digit.
parse_int_digits :
    (text : Bytes)
    → StartsWithDigit text
    → (parse_int text ≡ signed_result false (uint_loop 0 text))
      × (parse_int (b'-' ∷ text) ≡ signed_result true (uint_loop 0 text))
unfolding parse_int
parse_int_digits [] h = elim h [ ]
parse_int_digits (c ∷ rest) h = ground arith

uint_loop-nat_str : (n : ℕ) → n < 2 ^ 64 → uint_loop 0 (nat_str n) ≡ (n, none)
unfolding uint_loop
uint_loop-nat_str n fits = uint_loop-digits (suc n) n [] (omega arith) fits

-- The text that FormatInt prints for an int64 is read back by ParseInt as that number, with no
-- error.
pub parse_int-int_str : (v : ℤ) → InInt64 v → parse_int (int_str v) ≡ (v, none)
unfolding int_str
parse_int-int_str (pos n) fits = ground (
  arith,
  parse_int_digits (nat_str n) (digits-StartsWithDigit (suc n) n [] (omega arith)),
  uint_loop-nat_str n,
)
parse_int-int_str (negsuc n) fits = ground (
  arith,
  parse_int_digits (nat_str (suc n))
      (digits-StartsWithDigit (suc (suc n)) (suc n) [] (omega arith)),
  uint_loop-nat_str (suc n),
)

-- A number is printed with no byte that is neither a digit nor the sign.
contains-digits :
    (c fuel n : ℕ) (rest : Bytes) → c < b'0' → contains c (digits fuel n rest) ≡ contains c rest
unfolding digits contains
contains-digits c zero n rest low = refl
contains-digits c (suc fuel) n rest low =
    ground (arith, contains-digits c fuel (n / 10) ((b'0' + n % 10) ∷ rest))

pub int_str_no_space : (v : ℤ) → contains b' ' (int_str v) ≡ false
unfolding int_str contains
int_str_no_space (pos n) = contains-digits b' ' (suc n) n [] (omega arith)
int_str_no_space (negsuc n) = contains-digits b' ' (suc (suc n)) (suc n) [] (omega arith)
