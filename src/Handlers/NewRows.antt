-- ===== src/Handlers/NewRows.antt =====
-- Rows on their way into a table: what insertData and updateData (DBEngine/filehandler/handlers) hand to the
-- serializer.
use bsc_thesis.Base.{
  ℕ, ◌+◌, ◌≤◌, ◌≡◌, false, List, [], ◌∷◌, ◌++◌, some, Text, text_eq, length, All, arith,
  length-append, map, Bool-cases, inl, inr, text_eq_iff, if◌then◌else◌,
}
use bsc_thesis.Status.{done}
use bsc_thesis.Ast.{UntypedColumnDefNode, LiteralNode, ValueRecordNode}
use bsc_thesis.Utils.Columns.{Schema}
use bsc_thesis.Storage.{
  RecordType, is_tombstone, TableRecord, record_body, record_bytes, records_bytes,
}
use bsc_thesis.Storage.Serializer.{
  Colcodes, Normalized, normalized_record, find_pk_idx, normalized_table_record,
}
use bsc_thesis.Storage.Serializer.Contents.{IsGiven, all_true}
use bsc_thesis.Storage.Scan.{Index}
use bsc_thesis.Storage.Scan.Index.{find_live}
use bsc_thesis.Select.Indexed.{live_keys, or_false}
use bsc_thesis.Utils.Columns.{contains}
use bsc_thesis.Context.{ExecutionContext, at_key, index_at}
use bsc_thesis.Storage.Layout.{length-record_bytes}
use bsc_thesis.Handlers.Rows.{rows}
use bsc_thesis.Handlers.{vector_at}

-- A row that names every column and leaves none empty, with what the serializer computes for it.
pub record Row (schema : Schema) (colcodes : Colcodes) : Type 0 where
  pub lits : List LiteralNode
  pub written : Normalized
  pub sizes : length schema ≡ length lits
  pub given : All IsGiven lits
  pub run :
      normalized_record schema colcodes (map some lits) (all_true (length schema)) ≡ done written

-- The key's column, at the index that the serializer finds.
pub record HasKey (schema : Schema) (primary_key : Text) (k n : ℕ) : Type 0 where
  pub column : UntypedColumnDefNode
  pub found : find_pk_idx schema ≡ done k
  pub there : vector_at schema k ≡ done column
  pub named : column.name ≡ primary_key
  pub columns : length schema ≡ n + 1
  pub few : length schema ≤ 256

module _ {schema : Schema} {colcodes : Colcodes} where
  abbrev pub record_of : RecordType → Row schema colcodes → TableRecord
  record_of type row = normalized_table_record row.written type

  abbrev pub node_of : Row schema colcodes → ValueRecordNode
  node_of row = record { values = map some row.lits }

  abbrev pub records_of : RecordType → List (Row schema colcodes) → List TableRecord
  records_of type [] = []
  records_of type (row ∷ rows) = record_of type row ∷ records_of type rows

  abbrev pub nodes_of : List (Row schema colcodes) → List ValueRecordNode
  nodes_of [] = []
  nodes_of (row ∷ rows) = node_of row ∷ nodes_of rows

-- What the context must know of the table.
pub record Ready (table_name primary_key : Text) (schema : Schema) (colcodes : Colcodes)
    (ctx : ExecutionContext) : Type 0 where
  pub table : at_key table_name ctx.untyped_tables ≡ done schema
  pub codes : at_key table_name ctx.table_colcodes ≡ done colcodes
  pub index : Index
  pub index_there : index_at ctx table_name primary_key ≡ done index

-- The new keys: none is a live record's, and no two are equal.
abbrev pub Fresh :
    {schema : Schema} {colcodes : Colcodes}
    → RecordType
    → List TableRecord
    → List (Row schema colcodes)
    → Type 0
Fresh type rs [] = Unit
Fresh type rs (row ∷ rows) =
    (contains row.written.pk_literal (live_keys rs) ≡ false)
    × Fresh type (rs ++ (record_of type row ∷ [])) rows

pub find_live_snoc :
    (key : Text) (p : ℕ) (rs : List TableRecord) (r : TableRecord)
    → is_tombstone r.record_type ≡ false
    → contains r.primary_key (live_keys rs) ≡ false
    → find_live key p (rs ++ (r ∷ [])) ≡ (
        if text_eq r.primary_key key
        then some (p + length (records_bytes rs) + 8)
        else find_live key p rs)
unfolding find_live live_keys records_bytes contains
find_live_snoc key p [] r lives absent = rw lives (ground arith)
find_live_snoc key p (s ∷ rs) r lives absent =
    let next = p + 8 + length (record_body s) in
    let place : next + length (records_bytes rs) + 8
        ≡ p + length (record_bytes s ++ records_bytes rs) + 8 =
      omega (arith, length-append {0} (record_bytes s) (records_bytes rs), length-record_bytes s) in
    elim (Bool-cases (is_tombstone s.record_type)) [
      | inl dies ↦ rw dies (rw place at (find_live_snoc key next rs r lives (rw dies at absent)))
      | inr alive ↦
          let parts =
            or_false (text_eq s.primary_key r.primary_key) (contains r.primary_key (live_keys rs))
              (rw alive at absent) in
          let later = rw place at (find_live_snoc key next rs r lives parts.1) in
          rw (alive, later)
            (ground (
              arith,
              parts,
              text_eq_iff s.primary_key key,
              text_eq_iff r.primary_key key,
              text_eq_iff s.primary_key r.primary_key,
            ))
    ]
