-- ===== src/Util/Numbers.antt =====
-- `strconv.ParseInt(s, 10, 64)`, by which internal/fetch/record reads its numbers. A number out of
-- range is an error that comes with the nearest int64.
pub mod RoundTrip
use midgard.Base.{
  ℕ, zero, suc, ◌+◌, ◌-◌, ◌*◌, ◌/◌, ◌%◌, ◌^◌, Bool, true, false, ◌&&◌, Option, none, some, [], ◌∷◌,
  leb, ltb, nat_beq, if◌then◌else◌,
}
use midgard.Base.Bytes.{Bytes}
use midgard.Base.Int.{ℤ, pos, negsuc, sub_ℕ}

pub data ParseError : Type 0 where
  syntax_error range_error : ParseError

abbrev pub is_digit : ℕ → Bool
is_digit c = leb b'0' c && leb c b'9'

-- The loop of `strconv.ParseUint` over the digits.
unfoldable pub uint_loop : ℕ → Bytes → ℕ × Option ParseError
uint_loop n [] = (n, none)
uint_loop n (c ∷ cs) =
    let rest = uint_loop (n * 10 + (c - b'0')) cs in
    if is_digit c
    then (if leb (2 ^ 64) (n * 10 + (c - b'0')) then (2 ^ 64 - 1, some range_error) else rest)
    else (0, some syntax_error)

abbrev pub parse_uint : Bytes → ℕ × Option ParseError
parse_uint [] = (0, some syntax_error)
parse_uint (c ∷ cs) = uint_loop 0 (c ∷ cs)

-- The sign, and the limits of int64.
abbrev pub signed_result : Bool → ℕ × Option ParseError → ℤ × Option ParseError
signed_result neg (n, some syntax_error) = (pos 0, some syntax_error)
signed_result false (n, e) =
    if leb (2 ^ 63) n then (pos (2 ^ 63 - 1), some range_error) else (pos n, none)
signed_result true (n, e) =
    if ltb (2 ^ 63) n then (negsuc (2 ^ 63 - 1), some range_error) else (sub_ℕ 0 n, none)

unfoldable pub parse_int : Bytes → ℤ × Option ParseError
unfolding uint_loop
parse_int [] = (pos 0, some syntax_error)
parse_int (c ∷ cs) =
    if nat_beq c b'-'
    then signed_result true (parse_uint cs)
    else if nat_beq c b'+'
    then signed_result false (parse_uint cs)
    else signed_result false (parse_uint (c ∷ cs))

-- `strconv.FormatInt(v, 10)` and `strconv.Itoa`: the digits of a number, by fuel that is more than
-- their count.
unfoldable pub digits : ℕ → ℕ → Bytes → Bytes
digits zero n rest = rest
digits (suc fuel) n rest =
    let more = digits fuel (n / 10) ((b'0' + n % 10) ∷ rest) in
    if ltb n 10 then (b'0' + n) ∷ rest else more

abbrev pub nat_str : ℕ → Bytes
nat_str n = digits (suc n) n []

unfoldable pub int_str : ℤ → Bytes
unfolding digits
int_str (pos n) = nat_str n
int_str (negsuc n) = b'-' ∷ nat_str (suc n)
