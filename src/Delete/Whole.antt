-- ===== src/Delete/Whole.antt =====
-- deleteData (DBEngine/filehandler/handlers/delete.cpp) on a table of the session, where it scans the file.
use bsc_thesis.Base.{
  ℕ, ◌+◌, ◌^◌, ◌<◌, ◌≡◌, refl, ap, ◌∙◌, Bool, false, List, Option, none, some, Text, length, All,
  arith, lookup,
}
use bsc_thesis.Status.{done}
use bsc_thesis.Ast.{WhereNode, DeleteNode}
use bsc_thesis.Utils.Columns.{Schema}
use bsc_thesis.Condition.{Doubles}
use bsc_thesis.Strategy.{is_unique_equality_lookup}
use bsc_thesis.Stream.{Stream}
use bsc_thesis.Stream.Bytes.{le_bytes}
use bsc_thesis.Stream.Reading.{good}
use bsc_thesis.Storage.{TableRecord, table_file, write_header, db_header}
use bsc_thesis.Storage.Scan.Select.{Decided}
use bsc_thesis.Storage.Table.{scan_fuel, length-table_file, check_fstream_validity_lem, enough_fuel}
use bsc_thesis.Context.{ExecutionContext}
use bsc_thesis.Context.Keys.{at_key-found}
use bsc_thesis.Marking.WholeFile.{marked_records}
use bsc_thesis.Marking.Effects.{marked-IsTable}
use bsc_thesis.Handlers.{World, with_table}
use bsc_thesis.Handlers.Rows.{rows, remaining, rows-marked}
use bsc_thesis.Handlers.Stored.{IsStored, reindexed-IsStored, table_bytes-with_table}
use bsc_thesis.Handlers.Compaction.{compact_if_needed_lem}
use bsc_thesis.Delete.Handler.{delete_by_scan, delete_branches, delete_data}
use bsc_thesis.Delete.Step.{Found}
use bsc_thesis.Delete.Scan.{deleted_count, delete_loop_lem}

branches_scan :
    (doubles : Doubles) (is_silent_mode : Bool) (table_name : Text) (clause : Option WhereNode)
    (primary_key : Text) (ctx : ExecutionContext) (fuel : ℕ) (s : Stream)
    → is_unique_equality_lookup clause primary_key ≡ false
    → delete_branches doubles is_silent_mode table_name clause primary_key ctx fuel s
      ≡ delete_by_scan doubles is_silent_mode table_name clause ctx fuel s
unfolding delete_branches
branches_scan doubles is_silent_mode table_name none primary_key ctx fuel s other = refl
branches_scan doubles is_silent_mode table_name (some clause) primary_key ctx fuel s other =
    rw other refl

-- A DELETE that is no lookup of a key, on a stored table whose delete counter does not overflow, ends in
-- both modes and whatever the comparison with the threshold says, when its comparison throws on no live record
-- (std::stod does on a number out of range), and when, if it has a clause, the context has the schema,
-- with fewer than 2^60 columns besides the key, and a code for the clause's column, and the column is either the primary key,
-- as the first column of the schema, or another one at whose code the column offsets of every record lead to
-- the cell at the index that the clause was resolved to. Then the table is stored again, and its rows
-- are those of before that do not meet the clause, in their order.
pub delete_data_refines :
    (doubles : Doubles) (is_above_threshold : ℕ → ℕ → Bool) (is_silent_mode : Bool)
    (node : DeleteNode) (schema : Schema) (primary_key : Text) (colcode n : ℕ) (w : World)
    (rs : List TableRecord) (stored : IsStored node.table_name schema primary_key n w rs)
    → is_unique_equality_lookup node.opt_where_node primary_key ≡ false
    → All (Found w.ctx node.table_name primary_key colcode n node.opt_where_node) rs
    → All (Decided doubles node.opt_where_node) rs
    → stored.count + length rs < 2 ^ 64
    → (w' : World) × (rs' : List TableRecord) × (delete_data doubles is_above_threshold
          is_silent_mode node w
        ≡ done w')
      × IsStored node.table_name schema primary_key n w' rs'
      × (rows rs' ≡ remaining doubles node.opt_where_node (rows rs))
unfolding delete_data delete_by_scan table_file
delete_data_refines doubles is_above_threshold is_silent_mode node schema primary_key colcode n w rs
      stored other found decided small =
    let table_name = node.table_name in
    let clause = node.opt_where_node in
    let header = write_header db_header in
    let size : length header ≡ 32 = unfold write_header le_bytes in refl in
    let marked = marked_records doubles clause rs in
    let (ctx1, q, run, counter, tables) =
      delete_loop_lem n doubles is_silent_mode table_name primary_key colcode clause rs
        (scan_fuel (table_file rs)) header w.ctx stored.count stored.wf.shapes found decided
        (omega (arith, size, length-table_file rs, stored.wf.size)) (enough_fuel rs) stored.counted
        small in
    let disk = with_table table_name (table_file marked) w.disk in
    let (ctx2, again, stored2) =
      reindexed-IsStored is_silent_mode table_name primary_key schema n
        (stored.count + deleted_count doubles clause rs) ctx1 disk marked
        (ap (λ m. lookup table_name m) tables ∙ stored.known) stored.key stored.columns stored.small
        counter (table_bytes-with_table table_name (table_file marked) w.disk) stored.fresh
        (marked-IsTable doubles clause n rs stored.wf) in
    let (w', rs', ended, stored', same) =
      compact_if_needed_lem is_silent_mode table_name primary_key schema n
        (record { ctx = ctx2; disk = disk }) marked stored2 is_above_threshold in
    (
      w',
      rs',
      rw
          (
            stored.bytes,
            check_fstream_validity_lem is_silent_mode rs,
            at_key-found table_name schema w.ctx.untyped_tables stored.known,
            stored.key,
            branches_scan doubles is_silent_mode table_name clause primary_key w.ctx
                (scan_fuel (table_file rs)) (good (table_file rs) 32) other,
            rw size at run,
            again,
          )
          ended,
      stored',
      same ∙ rows-marked doubles clause rs,
    )
