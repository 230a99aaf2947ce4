-- ===== src/Marking.antt =====
-- The first step of updateData (DBEngine/filehandler/handlers/update.cpp): the old records are read
-- and marked as tombstones in place, by deserializeNextRecordAndMarkAsTombstone
-- (DBEngine/filehandler/deserialization/record.cpp), one record a call.
pub mod InPlace
pub mod WholeFile
pub mod Effects
mod Samples
use bsc_thesis.Base.{
  ℕ, zero, suc, ◌+◌, ◌-◌, ◌^◌, Bool, true, false, List, [], ◌∷◌, ◌++◌, Option, none, some, Text,
  if◌then◌else◌, ltb, leb, length, replicate,
}
use bsc_thesis.Status.{
  Outcome, done, out_of_fuel, ◌>>=◌, ◌>>◌, handle_fatal_error,
  unknown_io_error_during_deserialization,
}
use bsc_thesis.Ast.{WhereNode}
use bsc_thesis.Utils.Columns.{Schema}
use bsc_thesis.Condition.{Doubles}
use bsc_thesis.Stream.{Stream, seek_cur, seek_beg, overwrite, streamoff_limit, open_stream}
use bsc_thesis.Storage.{
  u64, u64_sub, type_byte, delete, Indicator, endoftable, ioerror, tombstone, live, skip,
}
use bsc_thesis.Storage.Deserializer.{
  Head, at_end, broken, dead, alive, record_head, col_offset_region_length, columns_loop,
}
use bsc_thesis.Storage.Scan.{is_end, is_live, is_error, check_fstream_validity}
use bsc_thesis.Storage.Table.{scan_fuel}
use bsc_thesis.Context.{ExecutionContext, get_delete_count, set_delete_count}

-- start_of_type_region + static_cast<std::streamoff>(record_length); a negative sum fails like one
-- past the limit.
abbrev pub record_end : ℕ → ℕ → ℕ
record_end start record_length =
    if ltb record_length streamoff_limit
    then start + record_length
    else (if leb (2 ^ 64) (start + record_length)
        then start + record_length - 2 ^ 64
        else streamoff_limit)

-- deserializeNextRecordAndMarkAsTombstone, with the out_record that it leaves.
unfoldable pub mark_next_record :
    Doubles → Stream → Schema → Option WhereNode → Outcome (Indicator × List Text × Stream)
mark_next_record doubles s schema clause = elim (record_head s) [
  | at_end s' ↦ done (endoftable, [], s')
  | broken s' ↦ done (ioerror, [], s')
  | dead s' ↦ done (tombstone, [], s')
  | alive record_length start record_type s' ↦
      let region = col_offset_region_length (u64_sub (length schema) 1) in
      columns_loop doubles clause (replicate (length schema) true) (length schema) 0
        (seek_cur region s') [] true
      >>= λ (fields, s'').
          (let marked =
              seek_beg (record_end start record_length)
                (overwrite (type_byte delete ∷ []) (seek_beg start s'')) in
            done (elim fields as (λ _. Indicator × List Text × Stream) [
              | none ↦ (ioerror, [], s'')
              | some (out_record, where_result) ↦
                  if where_result then (live, out_record, marked) else (skip, out_record, s'')
            ]))
]

-- ctx.setDeleteCountForTable(table_name, ctx.getDeleteCountForTable(table_name) + 1UL)
unfoldable pub count_delete : Bool → ExecutionContext → Text → Outcome ExecutionContext
count_delete is_silent_mode ctx table_name =
    get_delete_count is_silent_mode ctx table_name >>= λ count.
    done (set_delete_count ctx table_name (u64 (count + 1)))

-- The do-while loop of updateData: the context, the file and old_records.
unfoldable pub mark_loop :
    Doubles
    → Bool
    → Text
    → Schema
    → Option WhereNode
    → ℕ
    → Stream
    → ExecutionContext
    → List (List Text)
    → Outcome (ExecutionContext × List ℕ × List (List Text))
mark_loop doubles is_silent_mode table_name schema clause zero s ctx old_records = out_of_fuel
mark_loop doubles is_silent_mode table_name schema clause (suc fuel) s ctx old_records =
    mark_next_record doubles s schema clause >>= λ (indicator, row, s').
    (let next = mark_loop doubles is_silent_mode table_name schema clause fuel s' in
      let kept = next ctx old_records in
      let pushed = count_delete is_silent_mode ctx table_name >>= λ ctx'.
      next ctx' (old_records ++ (row ∷ [])) in
      if is_live indicator
      then pushed
      else (if is_end indicator
          then done (ctx, s'.bytes, old_records)
          else (if is_error indicator
              then handle_fatal_error is_silent_mode unknown_io_error_during_deserialization >> kept
              else kept)))

-- The part of updateData up to its second step, on the bytes of the table file.
unfoldable pub mark_table :
    Doubles
    → Bool
    → Text
    → Schema
    → Option WhereNode
    → ExecutionContext
    → List ℕ
    → Outcome (ExecutionContext × List ℕ × List (List Text))
mark_table doubles is_silent_mode table_name schema clause ctx file =
    check_fstream_validity is_silent_mode (open_stream file) >>= λ s.
    mark_loop doubles is_silent_mode table_name schema clause (scan_fuel file) s ctx []
