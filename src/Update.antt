-- ===== src/Update.antt =====
-- updateData of DBEngine/filehandler/handlers/update.cpp as a whole: the matching records are marked
-- (Marking), their successors are appended, the index is read again, and the file is compacted where
-- that is due.
pub mod Rows
pub mod Sizes
pub mod Whole
mod Samples
use bsc_thesis.Base.{
  ℕ, zero, suc, ◌+◌, Bool, true, false, List, [], ◌∷◌, Option, none, some, Text, length, map,
  replicate, ◌==◌, if◌then◌else◌,
}
use bsc_thesis.Status.{Outcome, done, threw, ◌>>=◌}
use bsc_thesis.Ast.{LiteralType, LiteralNode, ValueRecordNode, UpdateNode}
use bsc_thesis.Utils.Columns.{Schema, extract_primary_key_column}
use bsc_thesis.Condition.{Doubles}
use bsc_thesis.Storage.{RecordType, update}
use bsc_thesis.Storage.Serializer.{element}
use bsc_thesis.Context.{ExecutionContext, at_key, recalculate_indices}
use bsc_thesis.Stream.{open_stream}
use bsc_thesis.Storage.Scan.{check_fstream_validity}
use bsc_thesis.Storage.Table.{scan_fuel}
use bsc_thesis.Marking.{mark_loop}
use bsc_thesis.Handlers.{
  Disk, World, table_bytes, with_table, vector_at, serialize_records, compact_if_needed,
}

-- `at` of schema_index_to_literal_map
unfoldable pub literal_at : ℕ → List (ℕ × Text) → Outcome Text
literal_at i [] = threw
literal_at i ((j, value) ∷ literals) =
    let rest = literal_at i literals in if j == i then done value else rest

-- The value at one index of the new record: the old one, or the assigned one.
unfoldable pub new_value : List Bool → List (ℕ × Text) → List Text → ℕ → Outcome Text
new_value inverse_proj_mask literals old_record i = element inverse_proj_mask i >>= λ kept.
    if kept then vector_at old_record i else literal_at i literals

-- The loop over the columns from index `i` on, of which there are `count`.
unfoldable pub new_values :
    List Bool → List (ℕ × Text) → List Text → ℕ → ℕ → Outcome (List LiteralNode)
new_values inverse_proj_mask literals old_record zero i = done []
new_values inverse_proj_mask literals old_record (suc count) i =
    new_value inverse_proj_mask literals old_record i >>= λ value.
    new_values inverse_proj_mask literals old_record count (i + 1) >>= λ rest.
    done (record { type = LiteralType.string; value = value } ∷ rest)

-- The new records, in the order of the old ones.
unfoldable pub new_records :
    List Bool → List (ℕ × Text) → ℕ → List (List Text) → Outcome (List ValueRecordNode)
new_records inverse_proj_mask literals count [] = done []
new_records inverse_proj_mask literals count (old_record ∷ old_records) =
    new_values inverse_proj_mask literals old_record count 0 >>= λ lits.
    new_records inverse_proj_mask literals count old_records >>= λ rest.
    done (record { values = map some lits } ∷ rest)

-- updateData, on a normalized node.
unfoldable pub update_data : Doubles → (ℕ → ℕ → Bool) → Bool → UpdateNode → World → Outcome World
update_data doubles is_above_threshold is_silent_mode node w =
    let table_name = node.table_name in
    let bytes = table_bytes table_name w.disk in
    check_fstream_validity is_silent_mode (open_stream bytes) >>= λ s.
    at_key table_name w.ctx.untyped_tables >>= λ schema.
    mark_loop doubles is_silent_mode table_name schema node.opt_where_node (scan_fuel bytes) s w.ctx
      []
    >>= λ (ctx1, marked, old_records).
        new_records node.inverse_proj_mask node.schema_index_to_literal_map (length schema)
          old_records
        >>= λ records.
            serialize_records is_silent_mode table_name (replicate (length schema) true)
              RecordType.update records ctx1 marked
            >>= λ (ctx2, file). recalculate_indices is_silent_mode ctx2 table_name file >>= λ ctx3.
                extract_primary_key_column schema >>= λ primary_key_column.
                compact_if_needed is_silent_mode table_name is_above_threshold primary_key_column
                  (record { ctx = ctx3; disk = with_table table_name file w.disk })
