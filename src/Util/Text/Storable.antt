-- ===== src/Util/Text/Storable.antt =====
-- What base64 writes is ASCII with no zero byte.
use midgard.Base.{ℕ, ◌≤◌, ◌<◌, ◌≡◌, refl, Bool, true, not, ◌&&◌, [], ◌∷◌, leb, ltb, arith}
use midgard.Base.Bytes.{Bytes, contains}
use midgard.Util.Text.{sextet, base64, lead_byte, utf8_from, utf8_valid}

abbrev pub is_ascii : Bytes → Bool
is_ascii [] = true
is_ascii (c ∷ rest) = leb 1 c && ltb c 0x80 && is_ascii rest

-- A text that PostgreSQL takes: valid UTF-8 with no zero byte.
abbrev pub storable : Bytes → Bool
storable v = utf8_valid v && not (contains 0 v)

sextet_bounds : (n : ℕ) → (1 ≤ sextet n) × (sextet n < 0x80)
unfolding sextet
sextet_bounds n = ground arith

pub base64-is_ascii : (v : Bytes) → is_ascii (base64 v) ≡ true
unfolding base64
base64-is_ascii [] = refl
base64-is_ascii (a ∷ []) = grind (arith, sextet_bounds)
base64-is_ascii (a ∷ b ∷ []) = grind (arith, sextet_bounds)
base64-is_ascii (a ∷ b ∷ c ∷ rest) = grind (arith, sextet_bounds, base64-is_ascii rest)

pub is_ascii-storable : (v : Bytes) → is_ascii v ≡ true → storable v ≡ true
unfolding utf8_from lead_byte contains
is_ascii-storable [] h = refl
is_ascii-storable (c ∷ rest) h = ground (arith, is_ascii-storable rest)
