-- ===== src/Marking/Effects.antt =====
-- What is left in a table file whose records were marked: updateData
-- (DBEngine/filehandler/handlers/update.cpp) and the scans behind it.
use bsc_thesis.Base.{
  ℕ, ◌+◌, ◌^◌, ◌<◌, ◌≡◌, refl, ap, ◌∙◌, Bool, not, ◌&&◌, List, [], ◌∷◌, Option, some, Text, length,
  All, arith, length-append, Bool-cases, inl, inr, lookup,
}
use bsc_thesis.Status.{done}
use bsc_thesis.Ast.{WhereNode}
use bsc_thesis.Utils.Columns.{Schema}
use bsc_thesis.Condition.{Doubles}
use bsc_thesis.Storage.{
  is_tombstone, TableRecord, record_bytes, records_bytes, IsRecord, table_file,
}
use bsc_thesis.Storage.Layout.{length-record_bytes}
use bsc_thesis.Storage.Reads.{stored_values}
use bsc_thesis.Storage.Scan.Select.{Decided, meets, select_rows}
use bsc_thesis.Storage.Table.{IsTable, length-table_file, select_table}
use bsc_thesis.Storage.Table.Contents.{select_table_lem}
use bsc_thesis.Context.{ExecutionContext}
use bsc_thesis.Marking.{mark_table}
use bsc_thesis.Marking.InPlace.{killed, length-killed}
use bsc_thesis.Marking.WholeFile.{marked_records, mark_table_lem}

pub killed-IsRecord : (n : ℕ) (r : TableRecord) → IsRecord n r → IsRecord n (killed r)
killed-IsRecord n r shape = record {
  offsets_count = shape.offsets_count;
  paddings = shape.paddings;
  payload_count = shape.payload_count;
  body_length = omega (arith, shape.body_length, length-killed r);
}

marked-All :
    (doubles : Doubles) (clause : Option WhereNode) (n : ℕ) (rs : List TableRecord)
    → All (IsRecord n) rs
    → All (IsRecord n) (marked_records doubles clause rs)
unfolding marked_records
marked-All doubles clause n [] shapes = tt
marked-All doubles clause n (r ∷ rs) shapes =
    let later = marked-All doubles clause n rs shapes.1 in
    elim (Bool-cases (not (is_tombstone r.record_type) && meets doubles clause (stored_values r))) [
      | inl chosen ↦ rw chosen (killed-IsRecord n r shapes.0, later)
      | inr other ↦ rw other (shapes.0, later)
    ]

pub length-marked :
    (doubles : Doubles) (clause : Option WhereNode) (rs : List TableRecord)
    → length (records_bytes (marked_records doubles clause rs)) ≡ length (records_bytes rs)
unfolding marked_records records_bytes
length-marked doubles clause [] = refl
length-marked doubles clause (r ∷ rs) =
    let later = length-marked doubles clause rs in
    let sizes = λ (r' : TableRecord) (bytes : List ℕ). length-append {0} (record_bytes r') bytes in
    elim (Bool-cases (not (is_tombstone r.record_type) && meets doubles clause (stored_values r))) [
      | inl chosen ↦ rw chosen (
          omega (
            arith,
            later,
            sizes r (records_bytes rs),
            sizes (killed r) (records_bytes (marked_records doubles clause rs)),
            length-record_bytes r,
            length-record_bytes (killed r),
            length-killed r,
          ))
      | inr other ↦ rw other (
          omega (
            arith,
            later,
            sizes r (records_bytes rs),
            sizes r (records_bytes (marked_records doubles clause rs)),
          ))
    ]

pub marked-IsTable :
    (doubles : Doubles) (clause : Option WhereNode) (n : ℕ) (rs : List TableRecord)
    → IsTable n rs
    → IsTable n (marked_records doubles clause rs)
marked-IsTable doubles clause n rs wf = record {
  shapes = marked-All doubles clause n rs wf.shapes;
  size = omega (
    arith,
    wf.size,
    length-table_file (marked_records doubles clause rs),
    length-table_file rs,
    length-marked doubles clause rs,
  );
}

marked-Decided :
    (doubles : Doubles) (clause : Option WhereNode) (rs : List TableRecord)
    → All (Decided doubles clause) rs
    → All (Decided doubles clause) (marked_records doubles clause rs)
unfolding marked_records
marked-Decided doubles clause [] decided = tt
marked-Decided doubles clause (r ∷ rs) decided =
    let later = marked-Decided doubles clause rs decided.1 in
    elim (Bool-cases (not (is_tombstone r.record_type) && meets doubles clause (stored_values r))) [
      | inl chosen ↦ rw chosen ((λ lives. absurd cc), later)
      | inr other ↦ rw other (decided.0, later)
    ]

select_rows-marked :
    (doubles : Doubles) (mask : List Bool) (clause : Option WhereNode) (rs : List TableRecord)
    → select_rows doubles mask clause (marked_records doubles clause rs) ≡ []
unfolding marked_records select_rows
select_rows-marked doubles mask clause [] = refl
select_rows-marked doubles mask clause (r ∷ rs) =
    let later = select_rows-marked doubles mask clause rs in
    elim (Bool-cases (not (is_tombstone r.record_type) && meets doubles clause (stored_values r))) [
      | inl chosen ↦ rw chosen later
      | inr other ↦ rw (other, other) later
    ]

-- After the first step of updateData on a well-formed table file, with a clause whose comparison throws on
-- no live record and a delete counter that does not overflow, the file is a well-formed table file of as many bytes, and a SELECT with the same
-- clause, whatever columns it asks for, gives no row.
pub marking_then_select :
    (n : ℕ) (doubles : Doubles) (is_silent_mode : Bool) (table_name : Text) (schema : Schema)
    (clause : Option WhereNode) (rs : List TableRecord) (ctx : ExecutionContext) (c : ℕ)
    (mask : List Bool)
    → length schema ≡ n + 1
    → IsTable n rs
    → All (Decided doubles clause) rs
    → lookup table_name ctx.delete_counter_per_table ≡ some c
    → c + length rs < 2 ^ 64
    → (ctx' : ExecutionContext) × (rs' : List TableRecord) × (old_records : List (List Text))
      × (mark_table doubles is_silent_mode table_name schema clause ctx (table_file rs)
          ≡ done (ctx', table_file rs', old_records))
      × IsTable n rs'
      × (length (table_file rs') ≡ length (table_file rs))
      × (select_table doubles is_silent_mode (table_file rs') schema mask clause ≡ done [])
marking_then_select n doubles is_silent_mode table_name schema clause rs ctx c mask columns wf
      decided counted small =
    let (ctx', run, _) =
      mark_table_lem n doubles is_silent_mode table_name schema clause rs ctx c columns wf decided
        counted small in
    let rs' = marked_records doubles clause rs in
    let same : length (table_file rs') ≡ length (table_file rs) =
      omega (arith, length-table_file rs', length-table_file rs, length-marked doubles clause rs) in
    let wf' = marked-IsTable doubles clause n rs wf in
    (
      ctx',
      rs',
      _,
      run,
      wf',
      same,
      select_table_lem doubles is_silent_mode n rs' schema mask clause wf'
            (marked-Decided doubles clause rs decided) columns
          ∙ ap done (select_rows-marked doubles mask clause rs),
    )
