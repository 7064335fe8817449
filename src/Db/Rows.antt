-- ===== src/Db/Rows.antt =====
-- The rows that the program writes: a table, its columns, and a value for each.
use Prim.Native.String.{String}
use midgard.Base.{ℕ, ◌≡◌, refl, Bool, Option, none, some, List, []}
use midgard.Base.Bytes.{Bytes, Slice, str}
use midgard.Base.Int.{ℤ}
use midgard.Util.Memo.{TxType}

-- What a column can hold. An array that is nil is written as NULL; `json` is a map of strings.
pub data Value : Type 0 where
  null : Value
  text : Bytes → Value
  int : ℤ → Value
  bool : Bool → Value
  float : ℕ → Value
  tx_type : TxType → Value
  texts : Option (List Bytes) → Value
  ints : Option (List ℤ) → Value
  json : List (Bytes × Bytes) → Value

-- The SQL driver writes NULL for a nil slice.
abbrev pub slice : Slice → Value
slice none = null
slice (some b) = text b

abbrev pub or_empty : Slice → Slice
or_empty none = some []
or_empty (some b) = some b

pub str-or_empty : (b : Slice) → str (or_empty b) ≡ str b
str-or_empty none = refl
str-or_empty (some b) = refl

pub record Row : Type 0 where
  pub table : String
  pub columns : List String
  pub values : List Value
