-- ===== src/Storage/Table/Contents.antt =====
-- What the scans of a well-formed table file find, and what a compaction leaves: selectData
-- (handlers/select.cpp), calculateTombstoneRatio (compactor/ratio-calc.cpp), compactTable
-- (compactor/compact.cpp) and the index of initializePrimaryKeyIndicesForTable
-- (execution_context/src/initializers.cpp).
use bsc_thesis.Base.{
  lookup, ℕ, ◌+◌, ◌≤◌, ◌≡◌, refl, ap, ◌∙◌, Bool, List, [], ◌∷◌, Option, none, Text, length, All,
  arith, length-append, Bool-cases, inl, inr,
}
use bsc_thesis.Status.{done}
use bsc_thesis.Ast.{WhereNode}
use bsc_thesis.Utils.Columns.{Schema}
use bsc_thesis.Condition.{Doubles}
use bsc_thesis.Storage.{
  is_tombstone, write_header, db_header, TableRecord, record_bytes, records_bytes, table_file,
  IsRecord,
}
use bsc_thesis.Storage.Scan.{Index, compact_table}
use bsc_thesis.Storage.Scan.Select.{select_rows, Decided, answers, answers-Decided, select_loop_lem}
use bsc_thesis.Storage.Scan.Count.{tombstone_count, count_loop_lem}
use bsc_thesis.Storage.Scan.Index.{find_live, extract_lem}
use bsc_thesis.Storage.Scan.Compact.{live_records, compact_loop_lem}
use bsc_thesis.Storage.Table.{
  scan_fuel, select_table, count_table, index_table, IsTable, length-table_file, drop-table_file,
  check_file_validity_lem, enough_fuel,
}

select_table-answers :
    (doubles : Doubles) (is_silent_mode : Bool) (n : ℕ) (rs : List TableRecord) (schema : Schema)
    → (mask : List Bool) (clause : Option WhereNode) → IsTable n rs
    → length schema ≡ n + 1
    → select_table doubles is_silent_mode (table_file rs) schema mask clause
      ≡ answers doubles mask clause rs []
unfolding select_table
select_table-answers doubles is_silent_mode n rs schema mask clause t columns =
    rw check_file_validity_lem (
      select_loop_lem doubles (table_file rs) n schema mask clause columns rs _ 32 [] t.shapes
        (drop-table_file rs) (omega (arith, length-table_file rs, t.size)) (enough_fuel rs))

-- On a well-formed table file, a SELECT without an index whose comparison throws on no live record, since
-- std::stod reads every number that it meets, ends, and gives the projected rows of the live records that
-- meet the clause, in file order, each row with the primary key first.
pub select_table_lem :
    (doubles : Doubles) (is_silent_mode : Bool) (n : ℕ) (rs : List TableRecord) (schema : Schema)
    → (mask : List Bool) (clause : Option WhereNode) → IsTable n rs
    → All (Decided doubles clause) rs
    → length schema ≡ n + 1
    → select_table doubles is_silent_mode (table_file rs) schema mask clause
      ≡ done (select_rows doubles mask clause rs)
select_table_lem doubles is_silent_mode n rs schema mask clause t decided columns =
    select_table-answers doubles is_silent_mode n rs schema mask clause t columns
    ∙ answers-Decided doubles mask clause rs [] decided

pub count_table_lem :
    (is_silent_mode : Bool) (n : ℕ) (rs : List TableRecord)
    → IsTable n rs
    → count_table is_silent_mode (table_file rs) ≡ done (tombstone_count rs, length rs)
unfolding count_table
count_table_lem is_silent_mode n rs t = rw check_file_validity_lem (
    count_loop_lem is_silent_mode (table_file rs) rs _ 32 0 0 (drop-table_file rs)
      (omega (arith, length-table_file rs, t.size)) (enough_fuel rs)
    ∙ ap done (ground arith))

-- The index that is read from a well-formed table file has a key exactly where a live record has
-- it, and gives the position of the type region of the first such record.
pub index_table_lem :
    (is_silent_mode : Bool) (n : ℕ) (rs : List TableRecord)
    → IsTable n rs
    → (index : Index) × (index_table is_silent_mode (table_file rs) n ≡ done index)
      × ((key : Text) → lookup key index ≡ find_live key 32 rs)
unfolding index_table
index_table_lem is_silent_mode n rs t = rw check_file_validity_lem (
    extract_lem (table_file rs) n rs _ 32 t.shapes (drop-table_file rs)
      (omega (arith, length-table_file rs, t.size)) (enough_fuel rs))

live_records-shapes :
    (n : ℕ) (rs : List TableRecord) → All (IsRecord n) rs → All (IsRecord n) (live_records rs)
unfolding live_records
live_records-shapes n [] h = tt
live_records-shapes n (r ∷ rs) h = elim (Bool-cases (is_tombstone r.record_type)) [
  | inl dies ↦ rw dies (live_records-shapes n rs h.1)
  | inr lives ↦ rw lives (h.0, live_records-shapes n rs h.1)
]

live_records-size :
    (rs : List TableRecord) → length (records_bytes (live_records rs)) ≤ length (records_bytes rs)
unfolding live_records records_bytes
live_records-size [] = omega arith
live_records-size (r ∷ rs) =
    let ih = live_records-size rs in
    let sizes = length-append {0} (record_bytes r) (records_bytes rs) in
    let sizes' = length-append {0} (record_bytes r) (records_bytes (live_records rs)) in
    elim (Bool-cases (is_tombstone r.record_type)) [
      | inl dies ↦ rw dies (omega (arith, ih, sizes))
      | inr lives ↦ rw lives (omega (arith, ih, sizes, sizes'))
    ]

pub live_records-IsTable :
    (n : ℕ) (rs : List TableRecord) → IsTable n rs → IsTable n (live_records rs)
live_records-IsTable n rs t = record {
  shapes = live_records-shapes n rs t.shapes;
  size = omega (
    arith,
    t.size,
    live_records-size rs,
    length-table_file rs,
    length-table_file (live_records rs),
  );
}

-- Compacting a well-formed table file, with no file left over under the new name, ends with the
-- table file of its live records, in their order.
pub compact_table_lem :
    (is_silent_mode : Bool) (n : ℕ) (rs : List TableRecord)
    → IsTable n rs
    → compact_table is_silent_mode (scan_fuel (table_file rs)) (table_file rs) none n
      ≡ done (table_file (live_records rs))
unfolding compact_table
compact_table_lem is_silent_mode n rs t = rw check_file_validity_lem (
    compact_loop_lem is_silent_mode (table_file rs) n rs _ 32 (write_header db_header) t.shapes
      (drop-table_file rs) (omega (arith, length-table_file rs, t.size)) (enough_fuel rs)
    ∙ (unfold table_file in refl))
