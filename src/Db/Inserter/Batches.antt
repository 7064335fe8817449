-- ===== src/Db/Inserter/Batches.antt =====
-- The batches hold exactly the rows that were inserted, in their order, apart by table and columns.
use Prim.Native.String.{String}
use midgard.Base.{
  ◌≡◌, refl, ap, sym, ◌∙◌, Bool, true, false, ◌&&◌, Option, none, some, List, [], ◌∷◌, ◌++◌,
  if◌then◌else◌, Bool-cases, inl, inr,
}
use mathlib.Core.List.{append-nil, append_assoc}
use midgard.Base.Bytes.{Bytes, bytes_eq, codes, same}
use midgard.Base.Maps.{lookup, lookup-insert}
use midgard.Db.Inserter.{BatchRows, Batches, batch_key, with_row, insert_batch}
use midgard.Db.Inserter.Keys.{are_plain, same_names, same-batch_key, both}
use midgard.Db.Rows.{Row, Value}

abbrev pub insert_all : List Row → Batches → Batches
insert_all [] b = b
insert_all (row ∷ rest) b = insert_all rest (insert_batch row b)

abbrev pub rows_at : Option BatchRows → List (List Value)
rows_at none = []
rows_at (some b) = b.rows

abbrev pub is_of : String → List String → Row → Bool
is_of table columns row = same (codes row.table) (codes table) && same_names row.columns columns

-- The values of the rows of a table and columns, in the order in which they were inserted.
abbrev pub rows_of : String → List String → List Row → List (List Value)
rows_of table columns [] = []
rows_of table columns (row ∷ rest) =
    if is_of table columns row
    then row.values ∷ rows_of table columns rest
    else rows_of table columns rest

abbrev pub are_rows_plain : List Row → Bool
are_rows_plain [] = true
are_rows_plain (row ∷ rest) = are_plain row.table row.columns && are_rows_plain rest

rows_at-with_row :
    (row : Row) (o : Option BatchRows)
    → rows_at (some (with_row row o)) ≡ rows_at o ++ row.values ∷ []
rows_at-with_row row none = refl
rows_at-with_row row (some b) = refl

abbrev key_of : Row → Bytes
key_of row = batch_key row.table row.columns

rows_at-insert_batch :
    (k : Bytes) (row : Row) (b : Batches)
    → rows_at (lookup k (insert_batch row b)) ≡ (
        if same (key_of row) k
        then rows_at (lookup k b) ++ row.values ∷ []
        else rows_at (lookup k b))
unfolding insert_batch
rows_at-insert_batch k row b = elim (Bool-cases (same (key_of row) k)) [
  | inl e ↦
      let e' : key_of row ≡ k = (bytes_eq.equal_iff (key_of row) k).0 e in
      rw (lookup-insert (key_of row) k (with_row row (lookup (key_of row) b)) b, e)
        (rw e' (rows_at-with_row row (lookup k b)))
  | inr e ↦ rw (lookup-insert (key_of row) k (with_row row (lookup (key_of row) b)) b, e)
]

module _ (table : String) (columns : List String) (plain : are_plain table columns ≡ true) where
  -- If no name of a table has an opening bracket, no name of a column has a comma, and no row is
  -- without columns: after any sequence of insertions the batch under the key of a table and its
  -- columns has the rows that were there, followed by the values of exactly the rows inserted with
  -- the names of that table and those columns, in the order of insertion.
  pub rows_at-insert_all :
      (rows : List Row) (b : Batches)
      → are_rows_plain rows ≡ true
      → rows_at (lookup (batch_key table columns) (insert_all rows b))
        ≡ rows_at (lookup (batch_key table columns) b) ++ rows_of table columns rows
  rows_at-insert_all [] b h = sym (append-nil (rows_at (lookup (batch_key table columns) b)))
  rows_at-insert_all (row ∷ rest) b h =
      rows_at-insert_all rest (insert_batch row b) (both _ _ h).1
      ∙ ap (λ (l : List (List Value)). l ++ rows_of table columns rest)
          (rows_at-insert_batch (batch_key table columns) row b
            ∙ ap (λ (c : Bool). if c then there ++ row.values ∷ [] else there)
                (same-batch_key row.table table row.columns columns (both _ _ h).0 plain))
      ∙ regroup (is_of table columns row)
    where
      there : List (List Value)
      there = rows_at (lookup (batch_key table columns) b)

      regroup :
          (c : Bool)
          → (if c then there ++ row.values ∷ [] else there) ++ rows_of table columns rest
            ≡ there
              ++ (if c then row.values ∷ rows_of table columns rest else rows_of table columns rest)
      regroup true = append_assoc there (row.values ∷ []) (rows_of table columns rest)
      regroup false = refl
