-- ===== src/Handlers/Insert.antt =====
-- insertData (DBEngine/filehandler/handlers/insert.cpp) on a table of the session.
use bsc_thesis.Base.{
  ℕ, ◌^◌, ◌<◌, ◌≡◌, refl, ap, ◌∙◌, Bool, true, List, ◌++◌, Option, some, Text, length, map, lookup,
}
use bsc_thesis.Status.{done}
use bsc_thesis.Utils.Columns.{Schema}
use bsc_thesis.Storage.{RecordType, TableRecord, table_file}
use bsc_thesis.Storage.Serializer.{Colcodes}
use bsc_thesis.Storage.Serializer.Contents.{cell_text, all_true, key_first}
use bsc_thesis.Context.Keys.{at_key-found}
use bsc_thesis.Handlers.{World, with_table, is_indexed, insert_data}
use bsc_thesis.Handlers.Rows.{rows, rows-append}
use bsc_thesis.Handlers.Stored.{IsStored, table_bytes-with_table}
use bsc_thesis.Handlers.NewRows.{Fresh, Row, HasKey, Ready, records_of, nodes_of}
use bsc_thesis.Handlers.Append.{append_all_lem, rows-records_of}

inserts : is_indexed RecordType.insert ≡ true
unfolding is_indexed
inserts = refl

-- An INSERT of rows that name every column and leave none empty, with new keys and into a stored table of
-- at most 256 columns whose file stays below 2^63 bytes, ends; the table is stored again, its index with
-- it, and has the rows of before and behind them the new ones in their order, each without the quotes
-- round its literals and with the key's cell first.
pub insert_data_refines :
    (is_silent_mode : Bool) (table_name primary_key : Text) (schema : Schema) (colcodes : Colcodes)
    (k n : ℕ) (w : World) (rs : List TableRecord) (new_rows : List (Row schema colcodes))
    (columns : Option (List Text)) (key : HasKey schema primary_key k n)
    (stored : IsStored table_name schema primary_key n w rs)
    → lookup table_name w.ctx.table_colcodes ≡ some colcodes
    → Fresh RecordType.insert rs new_rows
    → length (table_file (rs ++ records_of RecordType.insert new_rows)) < 2 ^ 63
    → (w' : World) × (rs' : List TableRecord) × (insert_data is_silent_mode
          (record {
            table_name = table_name;
            columns = columns;
            records = nodes_of new_rows;
            projection_mask = all_true (length schema);
            is_normalized = true;
          })
          w
        ≡ done w')
      × IsStored table_name schema primary_key n w' rs'
      × (rows rs' ≡ rows rs ++ map (λ row. key_first k (map cell_text row.lits)) new_rows)
unfolding insert_data
insert_data_refines is_silent_mode table_name primary_key schema colcodes k n w rs new_rows columns
      key stored coded fresh size =
    let ready : Ready table_name primary_key schema colcodes w.ctx = record {
      table = at_key-found table_name schema w.ctx.untyped_tables stored.known;
      codes = at_key-found table_name colcodes w.ctx.table_colcodes coded;
      index = stored.index;
      index_there = stored.indexed;
    } in
    let (ctx', run, wf', ready', tables, counters, agreeing) =
      append_all_lem is_silent_mode table_name primary_key schema colcodes k n RecordType.insert
        inserts key new_rows w.ctx ready rs stored.wf size in
    let file = table_file (rs ++ records_of RecordType.insert new_rows) in
    (
      record { ctx = ctx'; disk = with_table table_name file w.disk },
      rs ++ records_of RecordType.insert new_rows,
      rw (stored.bytes, run) refl,
      record {
        known = ap (λ m. lookup table_name m) tables ∙ stored.known;
        key = stored.key;
        columns = stored.columns;
        small = stored.small;
        count = stored.count;
        counted = ap (λ m. lookup table_name m) counters ∙ stored.counted;
        bytes = table_bytes-with_table table_name file w.disk;
        fresh = stored.fresh;
        wf = wf';
        index = ready'.index;
        indexed = ready'.index_there;
        agrees = agreeing refl fresh stored.agrees;
      },
      rows-append rs _
          ∙ ap (λ new. rows rs ++ new)
              (rows-records_of is_silent_mode table_name primary_key schema colcodes k n
                RecordType.insert inserts key refl new_rows),
    )
