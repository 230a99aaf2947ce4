-- ===== src/Handlers/Import.antt =====
-- performCSVImport of DBEngine/filehandler/handlers/csv-import.cpp.
use bsc_thesis.Base.{ℕ, Bool, true, List, [], ◌∷◌, Option, none, some, Text, length, map, replicate}
use bsc_thesis.Status.{
  Outcome, done, exited, threw, undefined, out_of_fuel, ◌>>=◌, ◌>>◌, handle_fatal_error,
  csv_import_cannot_open_file, csv_import_unknown_exception,
}
use bsc_thesis.Ast.{LiteralType, ValueRecordNode}
use bsc_thesis.Csv.{parse_csv_row}
use bsc_thesis.Storage.{RecordType}
use bsc_thesis.Context.{ExecutionContext, at_key}
use bsc_thesis.Handlers.{
  World, ensure_table_file_exists, table_bytes, with_table, serialize_normalized_record,
}

-- ValueRecordNode of a row of the CSV file
unfoldable pub csv_record : List Text → ValueRecordNode
csv_record row = record {
  values = map (λ t. some (record { type = LiteralType.string; value = t })) row;
}

-- The loop over the lines of the CSV file, in its try block. A row with another number of fields than
-- the table has columns is warned of and serialized.
unfoldable pub csv_loop :
    Bool → Text → ℕ → List Text → ExecutionContext → List ℕ → Outcome (ExecutionContext × List ℕ)
csv_loop is_silent_mode table_name ncols [] ctx file = done (ctx, file)
csv_loop is_silent_mode table_name ncols (line ∷ lines) ctx file =
    let row = csv_record (parse_csv_row line) in
    let rest = csv_loop is_silent_mode table_name ncols lines in
    elim (serialize_normalized_record is_silent_mode table_name row.values (replicate ncols true)
        RecordType.insert ctx file)
      as (λ _. Outcome (ExecutionContext × List ℕ)) [
        | done (ctx', file') ↦ rest ctx' file'
        | exited e ↦ exited e
        | threw ↦ handle_fatal_error is_silent_mode csv_import_unknown_exception >> done (ctx, file)
        | undefined ↦ undefined
        | out_of_fuel ↦ out_of_fuel
      ]

-- performCSVImport, on the lines of the CSV file, where it can be opened. Where the fatal error
-- returns, there are no lines.
unfoldable pub perform_csv_import : Bool → Text → Option (List Text) → World → Outcome World
perform_csv_import is_silent_mode table_name csv_file w =
    let disk = ensure_table_file_exists table_name w.disk in
    at_key table_name w.ctx.untyped_tables >>= λ schema.
    (elim csv_file as (λ _. Outcome (List Text)) [
      | none ↦ handle_fatal_error is_silent_mode csv_import_cannot_open_file >> done []
      | some lines ↦ done lines
    ])
    >>= λ lines.
        csv_loop is_silent_mode table_name (length schema) lines w.ctx (table_bytes table_name disk)
        >>= λ (ctx', file'). done (record { ctx = ctx'; disk = with_table table_name file' disk })
