-- ===== src/Record/Coin/Native.antt =====
-- The native asset that a synth, a trade asset or a secured asset stands for.
use midgard.Base.{◌≢◌, Bool, true, not, ◌&&◌, Option, none, some, [], ◌∷◌, ◌++◌}
use midgard.Base.Bytes.{Bytes, split2}
use midgard.Record.Coin.{is_separator}

abbrev pub has_no_separator : Bytes → Bool
has_no_separator [] = true
has_no_separator (c ∷ cs) = not (is_separator c) && has_no_separator cs

-- A symbol whose ticker is not followed by a dash with nothing behind it.
abbrev pub IsSymbol : Bytes → Type 0
IsSymbol symbol = (split2 b'-' symbol).1 ≢ some []

abbrev rejoin : Bytes → Option Bytes → Bytes
rejoin ticker none = ticker
rejoin ticker (some r) = ticker ++ (b'-' ∷ r)
