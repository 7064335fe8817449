-- ===== src/Util/Text.antt =====
-- `utf8.Valid` and `base64.StdEncoding`, by which internal/fetch/record/event.go makes a text fit for
-- the database.
use midgard.Base.{
  ℕ, ◌+◌, ◌-◌, ◌*◌, ◌/◌, ◌%◌, Bool, true, false, ◌&&◌, List, [], ◌∷◌, leb, ltb, nat_beq,
  if◌then◌else◌,
}
use midgard.Base.Bytes.{Bytes}
pub mod Storable

-- A range of bytes that a sequence may go on with.
abbrev pub Range : Type 0
Range = ℕ × ℕ

abbrev pub continuation : Range
continuation = (0x80, 0xBF)

-- The first byte of a sequence: whether it is one, and what follows it.
unfoldable pub lead_byte : ℕ → Bool × List Range
lead_byte c =
    if ltb c 0x80
    then (true, [])
    else if leb 0xC2 c && leb c 0xDF
    then (true, continuation ∷ [])
    else if nat_beq c 0xE0
    then (true, (0xA0, 0xBF) ∷ continuation ∷ [])
    else if nat_beq c 0xED
    then (true, (0x80, 0x9F) ∷ continuation ∷ [])
    else if leb 0xE1 c && leb c 0xEF
    then (true, continuation ∷ continuation ∷ [])
    else if nat_beq c 0xF0
    then (true, (0x90, 0xBF) ∷ continuation ∷ continuation ∷ [])
    else if leb 0xF1 c && leb c 0xF3
    then (true, continuation ∷ continuation ∷ continuation ∷ [])
    else if nat_beq c 0xF4
    then (true, (0x80, 0x8F) ∷ continuation ∷ continuation ∷ [])
    else (false, [])

unfoldable pub utf8_from : List Range → Bytes → Bool
unfolding lead_byte
utf8_from [] [] = true
utf8_from (_ ∷ _) [] = false
utf8_from [] (c ∷ rest) = (lead_byte c).0 && utf8_from (lead_byte c).1 rest
utf8_from ((lo, hi) ∷ more) (c ∷ rest) = leb lo c && leb c hi && utf8_from more rest

abbrev pub utf8_valid : Bytes → Bool
utf8_valid = utf8_from []

unfoldable pub sextet : ℕ → ℕ
sextet n =
    if ltb n 26
    then b'A' + n
    else if ltb n 52
    then b'a' + (n - 26)
    else if ltb n 62
    then b'0' + (n - 52)
    else if nat_beq n 62
    then b'+'
    else b'/'

unfoldable pub base64 : Bytes → Bytes
unfolding sextet
base64 [] = []
base64 (a ∷ []) = sextet (a / 4) ∷ sextet (a % 4 * 16) ∷ b'=' ∷ b'=' ∷ []
base64 (a ∷ b ∷ []) =
    sextet (a / 4) ∷ sextet (a % 4 * 16 + b / 16) ∷ sextet (b % 16 * 4) ∷ b'=' ∷ []
base64 (a ∷ b ∷ c ∷ rest) =
    sextet (a / 4)
    ∷ sextet (a % 4 * 16 + b / 16)
    ∷ sextet (b % 16 * 4 + c / 64)
    ∷ sextet (c % 64)
    ∷ base64 rest
