-- ===== src/Delete/Handler.antt =====
-- deleteData of DBEngine/filehandler/handlers/delete.cpp as a whole.
use bsc_thesis.Base.{ℕ, Bool, List, Option, none, some, Text, if◌then◌else◌}
use bsc_thesis.Status.{Outcome, done, ◌>>=◌}
use bsc_thesis.Ast.{WhereNode, DeleteNode}
use bsc_thesis.Utils.Columns.{extract_primary_key_column}
use bsc_thesis.Condition.{Doubles}
use bsc_thesis.Stream.{Stream, open_stream}
use bsc_thesis.Storage.Scan.{check_fstream_validity}
use bsc_thesis.Storage.Table.{scan_fuel}
use bsc_thesis.Context.{ExecutionContext, at_key, recalculate_indices}
use bsc_thesis.Strategy.{is_unique_equality_lookup}
use bsc_thesis.Handlers.{World, table_bytes, with_table, compact_if_needed}
use bsc_thesis.Marking.{count_delete}
use bsc_thesis.Delete.{delete_by_index_lookup, delete_loop}

-- The sequential branch: the context and the bytes of the file.
unfoldable pub delete_by_scan :
    Doubles
    → Bool
    → Text
    → Option WhereNode
    → ExecutionContext
    → ℕ
    → Stream
    → Outcome (ExecutionContext × List ℕ)
delete_by_scan doubles is_silent_mode table_name clause ctx fuel s =
    delete_loop doubles is_silent_mode table_name clause fuel ctx s >>= λ (ctx1, s').
    recalculate_indices is_silent_mode ctx1 table_name s'.bytes >>= λ ctx2. done (ctx2, s'.bytes)

-- The branch of the index.
unfoldable pub delete_by_index :
    Bool → Text → WhereNode → ExecutionContext → Stream → Outcome (ExecutionContext × List ℕ)
delete_by_index is_silent_mode table_name clause ctx s =
    delete_by_index_lookup is_silent_mode clause table_name ctx s >>= λ (ctx1, s').
    count_delete is_silent_mode ctx1 table_name >>= λ ctx2. done (ctx2, s'.bytes)

-- The choice between them.
unfoldable pub delete_branches :
    Doubles
    → Bool
    → Text
    → Option WhereNode
    → Text
    → ExecutionContext
    → ℕ
    → Stream
    → Outcome (ExecutionContext × List ℕ)
delete_branches doubles is_silent_mode table_name none primary_key_column ctx fuel s =
    delete_by_scan doubles is_silent_mode table_name none ctx fuel s
delete_branches doubles is_silent_mode table_name (some clause) primary_key_column ctx fuel s =
    if is_unique_equality_lookup (some clause) primary_key_column
    then delete_by_index is_silent_mode table_name clause ctx s
    else delete_by_scan doubles is_silent_mode table_name (some clause) ctx fuel s

-- deleteData, on a normalized node.
unfoldable pub delete_data : Doubles → (ℕ → ℕ → Bool) → Bool → DeleteNode → World → Outcome World
delete_data doubles is_above_threshold is_silent_mode node w =
    let table_name = node.table_name in
    let file = table_bytes table_name w.disk in
    check_fstream_validity is_silent_mode (open_stream file) >>= λ s.
    at_key table_name w.ctx.untyped_tables >>= λ table_cols.
    extract_primary_key_column table_cols >>= λ primary_key_column.
    delete_branches doubles is_silent_mode table_name node.opt_where_node primary_key_column w.ctx
      (scan_fuel file) s
    >>= λ (ctx', marked).
        compact_if_needed is_silent_mode table_name is_above_threshold primary_key_column
          (record { ctx = ctx'; disk = with_table table_name marked w.disk })
