-- ===== src/Delete.antt =====
-- DBEngine/filehandler/handlers/delete.cpp: how a DELETE marks records as tombstones, one by one in a
-- scan of the file or through the index.
pub mod Handler
pub mod ByKey
pub mod Offsets
pub mod Literals
pub mod Step
pub mod Scan
pub mod Keyed
pub mod Lookup
pub mod Uncounted
pub mod Whole
mod Samples
use bsc_thesis.Base.{
  ℕ, zero, suc, ◌-◌, ◌^◌, Bool, true, false, List, [], ◌∷◌, Option, none, some, Text, text_eq, ◌==◌,
  if◌then◌else◌, length, get_or, take,
}
use bsc_thesis.Status.{
  Outcome, done, undefined, out_of_fuel, ◌>>=◌, ◌>>◌, handle_fatal_error,
  delete_column_not_found_due_to_corruption,
}
use bsc_thesis.Ast.{WhereNode, DeleteNode}
use bsc_thesis.Utils.Strings.{remove_outer_quotes}
use bsc_thesis.Utils.Columns.{Schema, extract_primary_key_column}
use bsc_thesis.Condition.{Doubles, evaluate_comparator}
use bsc_thesis.Stream.{Stream, read, seek_beg, seek_cur, overwrite, open_stream}
use bsc_thesis.Stream.Bytes.{le_value}
use bsc_thesis.Storage.{
  u64_sub, type_byte, delete, sizeof_column_offset, Indicator, endoftable, ioerror, tombstone, live,
  skip,
}
use bsc_thesis.Storage.Deserializer.{
  Head, at_end, broken, dead, alive, record_head, col_offset_region_length,
}
use bsc_thesis.Storage.Scan.{is_end, is_live, copy_value, check_fstream_validity}
use bsc_thesis.Storage.Table.{scan_fuel}
use bsc_thesis.Context.{
  ExecutionContext, at_key, index_at, erase_key_from_index, recalculate_indices,
}
use bsc_thesis.Strategy.{is_unique_equality_lookup}
use bsc_thesis.Handlers.{Disk, World, table_bytes, with_table, compact_if_needed}
use bsc_thesis.Marking.{record_end, count_delete}

-- The context and the stream of the table file that performDeleteByIndexLookup leaves.
unfoldable pub delete_by_index_lookup :
    Bool → WhereNode → Text → ExecutionContext → Stream → Outcome (ExecutionContext × Stream)
delete_by_index_lookup is_silent_mode clause table_name ctx s =
    let column_name = clause.condition.col_name in
    let key_value = remove_outer_quotes clause.condition.literal_value.value in
    index_at ctx table_name column_name >>= λ index. at_key key_value index >>= λ offset.
    erase_key_from_index is_silent_mode ctx table_name column_name key_value >>= λ ctx'.
    done (ctx', overwrite (type_byte delete ∷ []) (seek_beg offset s))

-- UINT64_MAX
abbrev pub uint64_max : ℕ
uint64_max = 2 ^ 64 - 1

-- The loop over the column offsets for the one with this column code: the last that has it counts. An
-- entry that cannot be read whole is not initialised.
unfoldable pub find_offset : ℕ → ℕ → Stream → ℕ → Outcome (ℕ × Stream)
find_offset colcode zero s final_offset = done (final_offset, s)
find_offset colcode (suc n) s final_offset =
    let (entry, s1) = read sizeof_column_offset s in
    let next =
      find_offset colcode n s1
        (if get_or entry 8 0 == colcode then le_value (take 8 entry) else final_offset) in
    if s1.failed then undefined else next

-- The literal of a column other than the primary key, and the stream at the end of the record. Where
-- the fatal error returns, the file is closed and the size that is read next is not initialised.
unfoldable pub column_literal : Bool → ℕ → ℕ → ℕ → ℕ → Stream → Outcome (Text × Stream)
column_literal is_silent_mode colcode n start record_length s =
    find_offset colcode n s uint64_max >>= λ (final_offset, s1).
    (let (pk_size, s2) = read 8 s1 in
      let literal =
        copy_value (seek_cur final_offset (seek_cur (le_value pk_size) s2)) >>= λ (lhs_literal, s3).
        done (lhs_literal, seek_cur record_length (seek_beg start s3)) in
      if final_offset == uint64_max
      then handle_fatal_error is_silent_mode delete_column_not_found_due_to_corruption >> undefined
      else (if s2.failed then undefined else literal))

-- The literal that performSequentialDelete compares: of the primary key behind the column offsets, or
-- of the column that has the code of the clause's column.
unfoldable pub compared_literal :
    Bool → ExecutionContext → Text → WhereNode → ℕ → ℕ → Stream → Outcome (Text × Stream)
compared_literal is_silent_mode ctx table_name clause start record_length s =
    at_key table_name ctx.untyped_tables >>= λ schema.
    extract_primary_key_column schema >>= λ primary_key_colname.
    (let n = u64_sub (length schema) 1 in
      let key = copy_value (seek_cur (col_offset_region_length n) s) in
      let other = at_key table_name ctx.table_colcodes >>= λ colcodes.
      at_key clause.condition.col_name colcodes >>= λ colcode.
      column_literal is_silent_mode colcode n start record_length s in
      if text_eq primary_key_colname clause.condition.col_name then key else other)

-- The type byte is overwritten, and the stream moves to the next record.
abbrev pub mark_record : ℕ → ℕ → Stream → Stream
mark_record start record_length s =
    seek_beg (record_end start record_length) (overwrite (type_byte delete ∷ []) (seek_beg start s))

module _ (doubles : Doubles) (is_silent_mode : Bool) (ctx : ExecutionContext)
    (table_name : Text) where
  -- What becomes of a live record.
  unfoldable pub delete_live : Option WhereNode → ℕ → ℕ → Stream → Outcome (Indicator × Stream)
  delete_live none start record_length s = done (live, mark_record start record_length s)
  delete_live (some clause) start record_length s =
      compared_literal is_silent_mode ctx table_name clause start record_length s
      >>= λ (literal, s').
          evaluate_comparator doubles literal clause.condition.cmp clause.condition.literal_value
          >>= λ should_delete.
              if should_delete
              then done (live, mark_record start record_length s')
              else done (skip, seek_beg (record_end start record_length) s')

  -- performSequentialDelete
  unfoldable pub perform_sequential_delete :
      Option WhereNode → Stream → Outcome (Indicator × Stream)
  perform_sequential_delete clause s = elim (record_head s) [
    | at_end s' ↦ done (endoftable, s')
    | broken s' ↦ done (ioerror, s')
    | dead s' ↦ done (tombstone, s')
    | alive record_length start record_type s' ↦ delete_live clause start record_length s'
  ]

-- The do-while loop of deleteData: the context and the stream that it leaves.
unfoldable pub delete_loop :
    Doubles
    → Bool
    → Text
    → Option WhereNode
    → ℕ
    → ExecutionContext
    → Stream
    → Outcome (ExecutionContext × Stream)
delete_loop doubles is_silent_mode table_name clause zero ctx s = out_of_fuel
delete_loop doubles is_silent_mode table_name clause (suc fuel) ctx s =
    perform_sequential_delete doubles is_silent_mode ctx table_name clause s >>= λ (indicator, s').
    (let next = delete_loop doubles is_silent_mode table_name clause fuel in
      if is_live indicator
      then (count_delete is_silent_mode ctx table_name >>= λ ctx'. next ctx' s')
      else (if is_end indicator then done (ctx, s') else next ctx s'))
