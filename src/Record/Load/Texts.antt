-- ===== src/Record/Load/Texts.antt =====
-- internal/fetch/record/event.go: how the value of an attribute is read.
use Prim.Native.String.{String}
use midgard.Base.{
  ℕ, zero, suc, Bool, true, false, not, ◌&&◌, ◌||◌, Option, none, some, List, [], ◌∷◌, ◌++◌,
  nat_beq, if◌then◌else◌,
}
use midgard.Base.Bytes.{Bytes, Slice, codes, same, contains, to_upper, split2}
use midgard.Base.Int.{ℤ, pos}
use midgard.Util.Numbers.{ParseError, parse_int, is_digit}
use midgard.Util.Text.{utf8_valid, base64}
use midgard.Record.Coin.{native_switch}
use midgard.Record.Load.Reader.{Load, empty_amount, failed, ◌>>=◌, ok, fail}
pub mod Coins

-- A number, or the error that starts with the text.
abbrev pub number_or : String → ℤ × Option ParseError → Load ℤ
number_or text (v, none) = ok v
number_or text (v, some err) = fail text

unfoldable pub number : String → Bytes → Load ℤ
number text value = number_or text (parse_int value)

-- `ParseArrayInt`
unfoldable pub parse_array_int : String → List Bytes → Load (List ℤ)
parse_array_int text [] = ok []
parse_array_int text (part ∷ parts) =
    number text part >>= λ v. (parse_array_int text parts >>= λ vs. ok (v ∷ vs))

-- `ParseBool`, and `strconv.ParseBool`.
unfoldable pub parse_bool : String → Bytes → Load Bool
parse_bool text s =
    if same s (codes "true")
    then ok true
    else if same s (codes "false")
    then ok false
    else fail text

unfoldable pub std_parse_bool : String → Bytes → Load Bool
std_parse_bool text s =
    if same s (codes "1")
      || same s (codes "t")
      || same s (codes "T")
      || same s (codes "TRUE")
      || same s (codes "true")
      || same s (codes "True")
    then ok true
    else if same s (codes "0")
        || same s (codes "f")
        || same s (codes "F")
        || same s (codes "FALSE")
        || same s (codes "false")
        || same s (codes "False")
    then ok false
    else fail text

pub data CoinError : Type 0 where
  err_no_sep : CoinError
  bad_amount : ParseError → CoinError

abbrev pub amount_error : Option ParseError → Option CoinError
amount_error none = none
amount_error (some err) = some (bad_amount err)

abbrev pub coin_parts : Bytes × Option Bytes → Slice × ℤ × Option CoinError
coin_parts (amount, none) = (none, pos 0, some err_no_sep)
coin_parts (amount, some asset) =
    (some asset, (parse_int amount).0, amount_error (parse_int amount).1)

-- `parseCoin`: the amount, a space, and the asset.
unfoldable pub parse_coin : Bytes → Slice × ℤ × Option CoinError
parse_coin b = coin_parts (split2 b' ' b)

abbrev pub coin_or : String → Slice × ℤ × Option CoinError → Load (Slice × ℤ)
coin_or text (asset, amount, none) = ok (asset, amount)
coin_or text (asset, amount, some err) = fail text

unfoldable pub coin : String → Bytes → Load (Slice × ℤ)
coin text value = coin_or text (parse_coin value)

-- The match of `^[0-9]+`, and what is behind it.
unfoldable pub span_digits : Bytes → Bytes × Bytes
span_digits [] = ([], [])
span_digits (c ∷ cs) =
    let (number, rest) = span_digits cs in if is_digit c then (c ∷ number, rest) else ([], c ∷ cs)

-- `strings.TrimSpace`, on ASCII.
abbrev pub is_space : ℕ → Bool
is_space c =
    nat_beq c b' ' || nat_beq c 9 || nat_beq c 10 || nat_beq c 11 || nat_beq c 12 || nat_beq c 13

unfoldable pub trim_left : Bytes → Bytes
trim_left [] = []
trim_left (c ∷ cs) = if is_space c then trim_left cs else c ∷ cs

abbrev pub unless_space : ℕ → Bytes → Bytes
unless_space c [] = if is_space c then [] else c ∷ []
unless_space c (x ∷ xs) = c ∷ x ∷ xs

unfoldable pub trim_right : Bytes → Bytes
trim_right [] = []
trim_right (c ∷ cs) = unless_space c (trim_right cs)

abbrev pub unit_asset : Bytes → Load Slice
unit_asset [] = fail "no units given in amount"
unit_asset (c ∷ cs) =
    if same (c ∷ cs) (codes "rune") then ok (some native_switch) else ok (some (to_upper (c ∷ cs)))

abbrev pub cosmos_parts : Bytes × Bytes → Load (Slice × ℤ)
cosmos_parts ([], rest) = fail "no numbers in amount"
cosmos_parts (c ∷ cs, rest) = do
  amount ← number "couldn't parse amount value" (c ∷ cs)
  asset ← unit_asset (trim_right (trim_left rest))
  ok (asset, amount)

-- `parseCosmosCoin`: the amount and the unit, as in "123btc/btc".
unfoldable pub parse_cosmos_coin : Bytes → Load (Slice × ℤ)
unfolding number span_digits trim_left trim_right
parse_cosmos_coin [] = failed empty_amount []
parse_cosmos_coin (c ∷ cs) = cosmos_parts (span_digits (c ∷ cs))

-- `sanitizeBytes`
unfoldable pub sanitize_bytes : Bytes → Bytes
sanitize_bytes v =
    if utf8_valid v && not (contains 0 v)
    then v
    else codes "MidgardBadUTF8EncodedBase64: " ++ base64 v
