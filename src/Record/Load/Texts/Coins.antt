-- ===== src/Record/Load/Texts/Coins.antt =====
-- internal/fetch/record/event.go: a coin that is printed is read back, and every text that is kept
-- for the database can be stored there.
use midgard.Base.{ℕ, ◌≡◌, refl, true, false, none, some, [], ◌∷◌, ◌++◌, arith}
use midgard.Base.Bytes.{Bytes, codes, contains, split2}
use midgard.Base.Int.{ℤ, InInt64}
use midgard.Util.Numbers.{int_str}
use midgard.Util.Numbers.RoundTrip.{parse_int-int_str, int_str_no_space}
use midgard.Util.Text.{base64}
use midgard.Util.Text.Storable.{storable, base64-is_ascii, is_ascii-storable}
use midgard.Record.Load.Texts.{parse_coin, sanitize_bytes}

split2-append :
    (c : ℕ) (before after : Bytes)
    → contains c before ≡ false
    → split2 c (before ++ c ∷ after) ≡ (before, some after)
unfolding split2 contains
split2-append c [] after h = ground arith
split2-append c (x ∷ xs) after h = ground (arith, split2-append c xs after)

-- A coin that is written as its amount, a space and its asset is read back, whatever the asset's
-- name is.
pub parse_coin-printed :
    (v : ℤ) (asset : Bytes)
    → InInt64 v
    → parse_coin (int_str v ++ b' ' ∷ asset) ≡ (some asset, v, none)
unfolding parse_coin
parse_coin-printed v asset fits =
    rw (split2-append b' ' (int_str v) asset (int_str_no_space v), parse_int-int_str v fits) refl

-- The text that is kept of a value can be stored: it is valid UTF-8 with no zero byte; and it is
-- the value itself if that can be stored.
pub sanitize_bytes-storable :
    (v : Bytes) → (storable (sanitize_bytes v) ≡ true) × (storable v ≡ true → sanitize_bytes v ≡ v)
unfolding sanitize_bytes
sanitize_bytes-storable v = ground (
  arith,
  is_ascii-storable (codes "MidgardBadUTF8EncodedBase64: " ++ base64 v) (base64-is_ascii v),
)
