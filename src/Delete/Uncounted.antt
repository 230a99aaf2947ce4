-- ===== src/Delete/Uncounted.antt =====
-- deleteData (DBEngine/filehandler/handlers/delete.cpp) on a table that createUntypedTable
-- (DBEngine/filehandler/handlers/create_untyped.cpp) made in the same session.
use bsc_thesis.Base.{
  append-nil, ℕ, ◌+◌, ◌^◌, ◌<◌, ◌≡◌, refl, sym, ap, ◌∙◌, Bool, false, List, [], ◌++◌, none, some,
  Text, length, arith, zero, suc, subst, lookup, lookup-map_set, lookup-map_insert_fresh,
  text_eq_refl,
}
use bsc_thesis.Status.{
  done, exited, >>=-eq-done, done_inj, handle_fatal_error, table_not_found_in_delete_count_map,
}
use bsc_thesis.Ast.{CreateUntypedTableNode}
use bsc_thesis.Utils.Columns.{Schema, extract_primary_key_column}
use bsc_thesis.Condition.{Doubles}
use bsc_thesis.Stream.Bytes.{le_bytes}
use bsc_thesis.Stream.Reading.{good, bad}
use bsc_thesis.Storage.{table_file, records_bytes, write_header, db_header}
use bsc_thesis.Storage.Table.{scan_fuel, IsTable, check_fstream_validity_lem}
use bsc_thesis.Context.{
  ExecutionContext, get_delete_count, set_untyped_table, initialize_column_encoding_map,
  colcode_loop, recalculate_indices,
}
use bsc_thesis.Context.Keys.{at_key-found, recalculated_index}
use bsc_thesis.Handlers.{World, table_bytes, ensure_table_file_exists, compact_if_needed}
use bsc_thesis.Handlers.Tables.{create_new_table}
use bsc_thesis.Handlers.Stored.{recalculate_keeps, table_bytes-found}
use bsc_thesis.Delete.{delete_loop}
use bsc_thesis.Delete.Handler.{delete_by_scan, delete_branches, delete_data}
use bsc_thesis.Delete.Scan.{delete_end}

-- The column codes change neither the schemas nor the delete counters.
encoding_keeps :
    (is_silent_mode : Bool) (ctx ctx' : ExecutionContext) (table_name : Text) (schema : Schema)
    → lookup table_name ctx.untyped_tables ≡ some schema
    → initialize_column_encoding_map is_silent_mode ctx table_name ≡ done ctx'
    → (ctx'.untyped_tables ≡ ctx.untyped_tables)
      × (ctx'.delete_counter_per_table ≡ ctx.delete_counter_per_table)
unfolding initialize_column_encoding_map
encoding_keeps is_silent_mode ctx ctx' table_name schema known h =
    let (codes, _, h') =
      >>=-eq-done (colcode_loop is_silent_mode schema 0 []) _
        (rw (known, initialize_column_encoding_map) at h) in
    let same = sym (done_inj h') in
    (ap (λ c. c.untyped_tables) same, ap (λ c. c.delete_counter_per_table) same)

-- What createUntypedTable leaves: the schema is known, the counters are those of before, and the file is empty.
created :
    (is_silent_mode : Bool) (node : CreateUntypedTableNode) (w w' : World)
    → lookup node.table_name w.disk.tables ≡ none
    → create_new_table is_silent_mode node w ≡ done w'
    → (lookup node.table_name w'.ctx.untyped_tables ≡ some node.columns)
      × (w'.ctx.delete_counter_per_table ≡ w.ctx.delete_counter_per_table)
      × (table_bytes node.table_name w'.disk ≡ table_file [])
unfolding create_new_table set_untyped_table ensure_table_file_exists table_file records_bytes
created is_silent_mode node w w' fresh h =
    let ctx0 = set_untyped_table w.ctx node.table_name node.columns in
    let known : lookup node.table_name ctx0.untyped_tables ≡ some node.columns =
      lookup-map_set node.table_name node.table_name node.columns w.ctx.untyped_tables
      ∙ rw (text_eq_refl node.table_name) refl in
    let (ctx1, coded, h1) =
      >>=-eq-done (initialize_column_encoding_map is_silent_mode ctx0 node.table_name) _ h in
    let (ctx2, indexed, h2) =
      >>=-eq-done
        (recalculate_indices is_silent_mode ctx1 node.table_name
          (table_bytes node.table_name (ensure_table_file_exists node.table_name w.disk)))
        _ h1 in
    let (tables1, counters1) =
      encoding_keeps is_silent_mode ctx0 ctx1 node.table_name node.columns known coded in
    let (tables2, _, counters2) =
      recalculate_keeps is_silent_mode ctx1 ctx2 node.table_name _ indexed in
    let same = sym (done_inj h2) in
    (
      ap (λ (v : World). lookup node.table_name v.ctx.untyped_tables) same
          ∙ (ap (λ m. lookup node.table_name m) (tables2 ∙ tables1) ∙ known),
      ap (λ (v : World). v.ctx.delete_counter_per_table) same ∙ (counters2 ∙ counters1),
      ap (λ (v : World). table_bytes node.table_name v.disk) same
          ∙ (table_bytes-found node.table_name (write_header db_header) _ (
                lookup-map_insert_fresh node.table_name (write_header db_header) w.disk.tables
                  fresh)
              ∙ sym (append-nil (write_header db_header))),
    )

empty-IsTable : (n : ℕ) → IsTable n []
unfolding table_file write_header records_bytes le_bytes
empty-IsTable n = record { shapes = tt; size = omega arith }

-- The scan of an empty table ends at once.
loop_at_end :
    (doubles : Doubles) (is_silent_mode : Bool) (table_name : Text) (before : List ℕ) (fuel : ℕ)
    (ctx : ExecutionContext)
    → 0 < fuel
    → delete_loop doubles is_silent_mode table_name none fuel ctx
        (good (before ++ []) (length before))
      ≡ done (ctx, bad (before ++ []) (length before))
unfolding delete_loop
loop_at_end doubles is_silent_mode table_name before zero ctx some_fuel =
    absurd (omega (arith, some_fuel))
loop_at_end doubles is_silent_mode table_name before (suc fuel) ctx some_fuel =
    rw (delete_end 0 doubles is_silent_mode table_name [] 0 none before ctx) refl

delete_loop-empty :
    (doubles : Doubles) (is_silent_mode : Bool) (table_name : Text) (ctx : ExecutionContext)
    → delete_loop doubles is_silent_mode table_name none
        (scan_fuel (table_file []))
        ctx
        (good (table_file []) 32)
      ≡ done (ctx, bad (table_file []) 32)
unfolding table_file records_bytes
delete_loop-empty doubles is_silent_mode table_name ctx =
    let header = write_header db_header in
    let size : length header ≡ 32 = unfold write_header le_bytes in refl in
    subst
      (λ n.
        delete_loop doubles is_silent_mode table_name none (scan_fuel (header ++ [])) ctx
          (good (header ++ []) n)
        ≡ done (ctx, bad (header ++ []) n))
      size
      (loop_at_end doubles is_silent_mode table_name header (scan_fuel (header ++ [])) ctx
        (omega arith))

get_delete_count-missing :
    (ctx : ExecutionContext) (table_name : Text)
    → lookup table_name ctx.delete_counter_per_table ≡ none
    → get_delete_count false ctx table_name ≡ exited table_not_found_in_delete_count_map
unfolding get_delete_count handle_fatal_error
get_delete_count-missing ctx table_name missing = rw (missing, get_delete_count) refl

delete_uncounted :
    (doubles : Doubles) (is_above_threshold : ℕ → ℕ → Bool) (table_name primary_key : Text)
    (schema : Schema) (n : ℕ) (w : World)
    → lookup table_name w.ctx.untyped_tables ≡ some schema
    → extract_primary_key_column schema ≡ done primary_key
    → length schema ≡ n + 1
    → n < 2 ^ 63
    → table_bytes table_name w.disk ≡ table_file []
    → lookup table_name w.ctx.delete_counter_per_table ≡ none
    → delete_data doubles is_above_threshold false
        (record { table_name = table_name; opt_where_node = none })
        w
      ≡ exited table_not_found_in_delete_count_map
unfolding delete_data delete_branches delete_by_scan compact_if_needed
delete_uncounted doubles is_above_threshold table_name primary_key schema n w known key columns
      small bytes missing =
    let (ctx', index, run, indexed, _) =
      recalculated_index false w.ctx table_name primary_key schema n [] known key columns small
        (empty-IsTable n) in
    let (_, _, counters) = recalculate_keeps false w.ctx ctx' table_name (table_file []) run in
    let missing' : lookup table_name ctx'.delete_counter_per_table ≡ none =
      ap (λ m. lookup table_name m) counters ∙ missing in
    rw
      (
        bytes,
        check_fstream_validity_lem false [],
        at_key-found table_name schema w.ctx.untyped_tables known,
        key,
        delete_loop-empty doubles false table_name w.ctx,
        run,
        indexed,
        get_delete_count-missing ctx' table_name missing',
      )
      refl

-- A table that CREATE TABLE made, where neither a file nor a delete counter of that name was there, cannot be
-- deleted from in the same session: outside of silent mode a DELETE without a clause ends the program with
-- the error for a table that has no delete counter.
pub created_then_delete_exits :
    (doubles : Doubles) (is_above_threshold : ℕ → ℕ → Bool) (node : CreateUntypedTableNode)
    (primary_key : Text) (n : ℕ) (w w' : World)
    → extract_primary_key_column node.columns ≡ done primary_key
    → length node.columns ≡ n + 1
    → n < 2 ^ 63
    → lookup node.table_name w.disk.tables ≡ none
    → lookup node.table_name w.ctx.delete_counter_per_table ≡ none
    → create_new_table false node w ≡ done w'
    → delete_data doubles is_above_threshold false
        (record { table_name = node.table_name; opt_where_node = none })
        w'
      ≡ exited table_not_found_in_delete_count_map
created_then_delete_exits doubles is_above_threshold node primary_key n w w' key columns small fresh
      missing made =
    let (known, counters, bytes) = created false node w w' fresh made in
    delete_uncounted doubles is_above_threshold node.table_name primary_key node.columns n w' known
      key columns small bytes (ap (λ m. lookup node.table_name m) counters ∙ missing)
