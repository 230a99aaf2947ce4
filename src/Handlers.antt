-- ===== src/Handlers.antt =====
-- The handlers of DBEngine/filehandler/handlers on the files of a data directory: what they share, INSERT,
-- and the compaction that UPDATE and DELETE end with. The file system does
-- not fail: a directory or a file that the code makes or opens is there. The positions that tellp
-- gives for a file opened for appending count from the start of the file.
pub mod Import
pub mod Tables
pub mod Rows
pub mod Stored
pub mod NewRows
pub mod Append
pub mod Insert
pub mod Compaction
mod Samples
use bsc_thesis.Base.{
  ℕ, ◌+◌, Bool, true, false, List, [], ◌∷◌, ◌++◌, Option, none, some, Text, length, map, replicate,
  lookup, map_set, map_insert, map_erase, if◌then◌else◌, ◌==◌,
}
use bsc_thesis.Status.{
  ErrorCode, Outcome, done, exited, threw, undefined, out_of_fuel, ◌>>=◌, ◌>>◌, handle_fatal_error,
  generic_file_io_failure, csv_import_cannot_open_file, csv_import_unknown_exception,
  table_metadata_directory_does_not_exist,
}
use bsc_thesis.Ast.{
  LiteralType, LiteralNode, UntypedColumnDefNode, ValueRecordNode, InsertNode,
  CreateUntypedTableNode, DropTableNode,
}
use bsc_thesis.Utils.Columns.{Schema}
use bsc_thesis.Csv.{parse_csv_row}
use bsc_thesis.Storage.{
  u64, u64_sub, RecordType, insert, update, write_header, db_header, write_u64,
}
use bsc_thesis.Storage.Serializer.{Normalized, normalized_record, serialized_bytes}
use bsc_thesis.Storage.Scan.{compact_table}
use bsc_thesis.Storage.Table.{scan_fuel, count_table}
use bsc_thesis.Context.{
  ExecutionContext, at_key, index_at, get_delete_count, set_delete_count, upsert_primary_key_index,
  recalculate_indices, set_untyped_table, initialize_column_encoding_map, erase_indices_for_table,
  erase_table,
}

-- What stands below the data directories, by table: `<table>.bin`, `<table>-new.bin` where an earlier
-- run left one, and `metadata.txt`.
pub record Disk : Type 0 where
  pub tables : List (Text × List ℕ)
  pub leftovers : List (Text × List ℕ)
  pub metadata : List (Text × Text)

pub record World : Type 0 where
  pub ctx : ExecutionContext
  pub disk : Disk

-- ensureTableFileExists, with createTableFile: a table file that is not there is made with a header.
unfoldable pub ensure_table_file_exists : Text → Disk → Disk
ensure_table_file_exists table_name disk = record disk {
  tables = map_insert table_name (write_header db_header) disk.tables;
}

-- What the table file holds once ensureTableFileExists was called.
unfoldable pub table_bytes : Text → Disk → List ℕ
table_bytes table_name disk = elim (lookup table_name disk.tables) as (λ _. List ℕ) [
  | none ↦ write_header db_header
  | some bytes ↦ bytes
]

abbrev pub with_table : Text → List ℕ → Disk → Disk
with_table table_name bytes disk = record disk { tables = map_set table_name bytes disk.tables }

-- `at` of a vector throws past the end.
abbrev pub vector_at {ℓ} : {A : Type ℓ} → List A → ℕ → Outcome A
vector_at [] i = threw
vector_at (x ∷ xs) ℕ.zero = done x
vector_at (x ∷ xs) (ℕ.suc i) = vector_at xs i

-- type == RecordType::INSERT || type == RecordType::UPDATE
unfoldable pub is_indexed : RecordType → Bool
is_indexed RecordType.insert = true
is_indexed RecordType.update = true
is_indexed _ = false

-- The entry in the index, for the position behind the record's length.
unfoldable pub index_record :
    Text → Schema → Normalized → RecordType → ExecutionContext → List ℕ → Outcome ExecutionContext
index_record table_name schema b type ctx file =
    let upserted = vector_at schema b.pk_idx >>= λ col.
    upsert_primary_key_index ctx table_name col.name b.pk_literal (length file + 8) in
    if is_indexed type then upserted else done ctx

-- The second part of serializeNormalizedRecord, by what comes of the entry in the index: an exception
-- is caught there, when the length of the record has been written.
unfoldable pub write_record :
    Bool
    → Normalized
    → RecordType
    → ExecutionContext
    → List ℕ
    → Outcome ExecutionContext
    → Outcome (ExecutionContext × List ℕ)
write_record is_silent_mode b type ctx file (done ctx') =
    done (ctx', file ++ serialized_bytes b type)
write_record is_silent_mode b type ctx file (exited e) = exited e
write_record is_silent_mode b type ctx file threw =
    handle_fatal_error is_silent_mode generic_file_io_failure
    >> done (ctx, file ++ write_u64 b.record_length)
write_record is_silent_mode b type ctx file undefined = undefined
write_record is_silent_mode b type ctx file out_of_fuel = out_of_fuel

-- serializeNormalizedRecord on a file that is open for appending.
unfoldable pub serialize_normalized_record :
    Bool
    → Text
    → List (Option LiteralNode)
    → List Bool
    → RecordType
    → ExecutionContext
    → List ℕ
    → Outcome (ExecutionContext × List ℕ)
serialize_normalized_record is_silent_mode table_name values mask type ctx file =
    at_key table_name ctx.untyped_tables >>= λ schema.
    at_key table_name ctx.table_colcodes >>= λ colcodes.
    normalized_record schema colcodes values mask >>= λ b.
    write_record is_silent_mode b type ctx file (index_record table_name schema b type ctx file)

-- The loops over the records of insertData and over new_records of updateData.
unfoldable pub serialize_records :
    Bool
    → Text
    → List Bool
    → RecordType
    → List ValueRecordNode
    → ExecutionContext
    → List ℕ
    → Outcome (ExecutionContext × List ℕ)
serialize_records is_silent_mode table_name mask type [] ctx file = done (ctx, file)
serialize_records is_silent_mode table_name mask type (r ∷ rs) ctx file =
    serialize_normalized_record is_silent_mode table_name r.values mask type ctx file
    >>= λ (ctx', file'). serialize_records is_silent_mode table_name mask type rs ctx' file'

-- insertData
unfoldable pub insert_data : Bool → InsertNode → World → Outcome World
insert_data is_silent_mode node w =
    serialize_records is_silent_mode node.table_name node.projection_mask RecordType.insert
      node.records w.ctx (table_bytes node.table_name w.disk)
    >>= λ (ctx', file').
        done (record { ctx = ctx'; disk = with_table node.table_name file' w.disk })

module _ (is_silent_mode : Bool) (table_name : Text) where
  -- compactTable, and what follows it.
  unfoldable pub compact_and_reset : World → Outcome World
  compact_and_reset w = at_key table_name w.ctx.untyped_tables >>= λ schema.
      (let file = table_bytes table_name w.disk in
        compact_table is_silent_mode (scan_fuel file) file (lookup table_name w.disk.leftovers)
          (u64_sub (length schema) 1))
      >>= λ new_file.
          recalculate_indices is_silent_mode (set_delete_count w.ctx table_name 0) table_name
            new_file
          >>= λ ctx'. done (record {
            ctx = ctx';
            disk = record w.disk {
              tables = map_set table_name new_file w.disk.tables;
              leftovers = map_erase table_name w.disk.leftovers;
            };
          })

  -- The end of updateData and of deleteData. Whether a quotient of two numbers, computed in double
  -- arithmetic, is at least COMPACTION_THRESHOLD is a parameter.
  unfoldable pub compact_if_needed : (ℕ → ℕ → Bool) → Text → World → Outcome World
  compact_if_needed is_above_threshold primary_key_column w =
      index_at w.ctx table_name primary_key_column >>= λ index.
      get_delete_count is_silent_mode w.ctx table_name >>= λ deletes.
      (let counted =
          count_table is_silent_mode (table_bytes table_name w.disk) >>= λ (tombstones, total).
          (let compacted = compact_and_reset w in
            if is_above_threshold tombstones total then compacted else done w) in
        if is_above_threshold deletes (u64 (1 + length index + deletes)) then counted else done w)
