-- ===== src/Db/Inserter.antt =====
-- internal/db/inserter.go: the batch inserter, which keeps the rows of each table until it is
-- flushed.
use Prim.Native.String.{String}
use midgard.Base.{◌≡◌, refl, Option, none, some, List, [], ◌∷◌, ◌++◌, ◌==◌, if◌then◌else◌}
use midgard.Base.Bytes.{Bytes, bytes_eq, codes}
use midgard.Base.Maps.{Map, lookup, insert}
use midgard.Db.Rows.{Row, Value}
pub mod Batches
pub mod Keys

pub record BatchRows : Type 0 where
  pub table : String
  pub columns : List String
  pub rows : List (List Value)

abbrev pub Batches : Type 0
Batches = Map Bytes BatchRows

-- The map of batches is nil before the first block, and after a flush.
pub record BatchInserter : Type 0 where
  pub batches : Option Batches

abbrev pub new_batch_inserter : BatchInserter
new_batch_inserter = record { batches = none }

-- `strings.Join(columns, ",")`
abbrev pub join : List String → Bytes
join [] = []
join (c ∷ []) = codes c
join (c ∷ d ∷ rest) = codes c ++ (b',' ∷ join (d ∷ rest))

unfoldable pub batch_key : String → List String → Bytes
batch_key table columns = codes table ++ (b'(' ∷ (join columns ++ b')' ∷ []))

unfoldable pub start_block : BatchInserter → BatchInserter
start_block bi = elim bi.batches [ none ↦ record { batches = some [] } | some b ↦ bi ]

-- The method does nothing.
unfoldable pub end_block : BatchInserter → BatchInserter
end_block bi = bi

-- The batch that a row is added to, with the row.
abbrev pub with_row : Row → Option BatchRows → BatchRows
with_row row none = record { table = row.table; columns = row.columns; rows = row.values ∷ [] }
with_row row (some brows) = record brows { rows = brows.rows ++ row.values ∷ [] }

unfoldable pub insert_batch : Row → Batches → Batches
insert_batch row b =
    let key = batch_key row.table row.columns in insert key (with_row row (lookup key b)) b

-- `none` is the panic of a write to a nil map.
unfoldable pub insert_row : Row → BatchInserter → Option BatchInserter
insert_row row bi = elim bi.batches [
  | none ↦ none
  | some b ↦ some (record { batches = some (insert_batch row b) })
]

abbrev pub values : Batches → List BatchRows
values [] = []
values ((_, rows) ∷ rest) = rows ∷ values rest

-- `flushRaw` takes the batches out before it writes them in one transaction: what it writes, and
-- the inserter afterwards.
unfoldable pub flush : BatchInserter → List BatchRows × BatchInserter
flush bi = elim bi.batches [ none ↦ ([], bi) | some b ↦ (values b, record { batches = none }) ]
