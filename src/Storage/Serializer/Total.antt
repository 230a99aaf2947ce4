-- ===== src/Storage/Serializer/Total.antt =====
-- The first part of serializeNormalizedRecord (serialization/normalized-record.cpp) ends on a full row.
use bsc_thesis.Base.{
  ℕ, zero, suc, ◌+◌, ◌*◌, ◌%◌, ◌<◌, ◌≡◌, refl, sym, ◌∙◌, Bool, List, [], ◌∷◌, ◌++◌, Option, some,
  ◌==◌, length, All, arith, length-append, append_assoc, Bool-cases, inl, inr, map,
}
use bsc_thesis.Status.{done}
use bsc_thesis.Ast.{UntypedColumnDefNode, LiteralNode}
use bsc_thesis.Utils.Columns.{Schema}
use bsc_thesis.Storage.{u64}
use bsc_thesis.Storage.Serializer.{
  Colcodes, colcode_at, element, Columns, no_columns, add_column, column_step, serialize_columns,
  Normalized, find_pk_idx, with_key, normalized_record,
}
use bsc_thesis.Storage.Serializer.Contents.{
  IsGiven, cell_text, all_true, element-replicate, final_literal_given, element-before,
}

-- The column has a code.
abbrev pub HasCode : Colcodes → UntypedColumnDefNode → Type 0
HasCode colcodes col = (code : ℕ) × (colcode_at col.name colcodes ≡ done code)

element-some :
    (lits : List LiteralNode) (i : ℕ)
    → i < length lits
    → (lit : LiteralNode) × (element (map some lits) i ≡ done (some lit))
element-some [] i h = absurd (omega arith)
element-some (lit ∷ lits) zero h = (lit, refl)
element-some (lit ∷ lits) (suc i) h = element-some lits i (omega arith)

module _ (colcodes : Colcodes) (k n : ℕ) where
  column_step_total :
      (col : UntypedColumnDefNode) (before lits : List LiteralNode) (l : LiteralNode) (st : Columns)
      → length before < n
      → IsGiven l
      → HasCode colcodes col
      → (st' : Columns) × (column_step colcodes
            (map some (before ++ (l ∷ lits)))
            (all_true n)
            k
            col
            (length before)
            st
          ≡ done st')
  unfolding column_step
  column_step_total col before lits l st inside given (code, coded) =
      elim (Bool-cases (length before == k)) [
        | inl key ↦ (st, rw key refl)
        | inr other ↦ (
          add_column st code (cell_text l),
          rw
              (
                other,
                element-before before lits l,
                element-replicate n (length before) inside,
                final_literal_given col l given,
                coded,
              )
              refl,
        )
      ]

  serialize_columns_total :
      (all : List LiteralNode) (cols : Schema) (before lits : List LiteralNode) (i : ℕ)
      (st : Columns)
      → i ≡ length before
      → all ≡ before ++ lits
      → length cols ≡ length lits
      → i + length lits ≡ n
      → All IsGiven lits
      → All (HasCode colcodes) cols
      → (st' : Columns) × (serialize_columns colcodes (map some all) (all_true n) k cols i st
          ≡ done st')
  unfolding serialize_columns
  serialize_columns_total all [] before lits i st at split e total given coded = (st, refl)
  serialize_columns_total all (col ∷ cols) before [] i st at split e total given coded =
      absurd (omega arith)
  serialize_columns_total all (col ∷ cols) before (l ∷ lits) i st at split e total given coded =
      let (mid, first) = column_step_total col before lits l st (omega arith) given.0 coded.0 in
      let first' : column_step colcodes (map some all) (all_true n) k col i st ≡ done mid =
        rw (split, at) first in
      let (st', rest) =
        serialize_columns_total all cols (before ++ (l ∷ [])) lits (i + 1) mid
          (omega (arith, length-append {0} before (l ∷ [])))
          (split ∙ sym (append_assoc before (l ∷ []) lits)) (omega arith) (omega arith) given.1
          coded.1 in
      (st', rw first' rest)

with_key_total :
    (schema : Schema) (colcodes : Colcodes) (values : List (Option LiteralNode)) (mask : List Bool)
    (k : ℕ) (lit : LiteralNode) (columns : Columns)
    → serialize_columns colcodes values mask k schema 0 no_columns ≡ done columns
    → (b : Normalized) × (with_key schema colcodes values mask k (some lit) ≡ done b)
unfolding with_key
with_key_total schema colcodes values mask k lit columns run = (
  record {
    pk_idx = k;
    pk_literal = cell_text lit;
    record_length = u64 (
        u64 (1 + (8 + length (cell_text lit)))
        + (columns.running + (length schema + 255) % 256 * 16));
    columns = columns;
  },
  rw run refl,
)

-- A row that names every column of a table and leaves none empty is always serialized: nothing throws or
-- is undefined when the columns have codes and the key's index lies in the schema.
pub normalized_record_total :
    (schema : Schema) (colcodes : Colcodes) (lits : List LiteralNode) (k : ℕ)
    → find_pk_idx schema ≡ done k
    → k < length schema
    → length schema ≡ length lits
    → All IsGiven lits
    → All (HasCode colcodes) schema
    → (b : Normalized) × (normalized_record schema colcodes
          (map some lits)
          (all_true (length schema))
        ≡ done b)
unfolding normalized_record
normalized_record_total schema colcodes lits k found inside sizes given coded =
    let (lit, key) = element-some lits k (omega arith) in
    let (columns, run) =
      serialize_columns_total colcodes k (length schema) lits schema [] lits 0 no_columns refl refl
        sizes (omega arith) given coded in
    let (b, ends) =
      with_key_total schema colcodes (map some lits) (all_true (length schema)) k lit columns run in
    (b, rw (found, key) ends)
