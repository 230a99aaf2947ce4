-- ===== src/Update/Whole.antt =====
-- updateData (DBEngine/filehandler/handlers/update.cpp) on a table of the session.
use bsc_thesis.Base.{
  subst, ℕ, ◌+◌, ◌^◌, ◌<◌, ◌≡◌, refl, sym, ap, ap₂, ◌∙◌, Bool, true, List, [], ◌∷◌, ◌++◌, Option,
  some, Text, length, All, arith, length-append, map, lookup, Bool-cases, inl, inr,
}
use bsc_thesis.Status.{done, ◌>>=◌}
use bsc_thesis.Ast.{WhereNode, UpdateNode}
use bsc_thesis.Utils.Columns.{Schema}
use bsc_thesis.Condition.{Doubles}
use bsc_thesis.Stream.Reading.{good}
use bsc_thesis.Storage.{RecordType, is_tombstone, TableRecord, records_bytes, table_file, IsRecord}
use bsc_thesis.Storage.Reads.{stored_values}
use bsc_thesis.Storage.Serializer.{Colcodes}
use bsc_thesis.Storage.Serializer.Contents.{cell_text, all_true, key_first}
use bsc_thesis.Storage.Serializer.Total.{HasCode}
use bsc_thesis.Storage.Scan.Select.{Decided, meets, select_rows}
use bsc_thesis.Storage.Table.{scan_fuel, length-table_file, check_fstream_validity_lem}
use bsc_thesis.Storage.Table.RoundTrip.{project-all_true, records_bytes-append}
use bsc_thesis.Context.{ExecutionContext, at_key, index_at}
use bsc_thesis.Context.Keys.{at_key-found}
use bsc_thesis.Marking.{mark_loop, mark_table}
use bsc_thesis.Marking.WholeFile.{marked_records, mark_table_keeps}
use bsc_thesis.Marking.Effects.{marked-IsTable, length-marked}
use bsc_thesis.Handlers.{World, with_table, is_indexed}
use bsc_thesis.Handlers.Rows.{
  rows, matching, remaining, projected, rows-append, rows-marked, select_rows-rows,
}
use bsc_thesis.Handlers.Stored.{IsStored, reindexed-IsStored, table_bytes-with_table}
use bsc_thesis.Handlers.Compaction.{compact_if_needed_lem}
use bsc_thesis.Handlers.NewRows.{Row, HasKey, Ready, records_of}
use bsc_thesis.Handlers.Append.{append_all_lem, rows-records_of}
use bsc_thesis.Update.{update_data}
use bsc_thesis.Update.Rows.{Covers, updated, new_records_lem}
use bsc_thesis.Update.Sizes.{rows_size, records_size}

updates : is_indexed RecordType.update ≡ true
unfolding is_indexed
updates = refl

abbrev HasWidth : ℕ → List Text → Type 0
HasWidth width row = length row ≡ width

rows-widths :
    (n : ℕ) (rs : List TableRecord) → All (IsRecord n) rs → All (HasWidth (n + 1)) (rows rs)
unfolding rows
rows-widths n [] shapes = tt
rows-widths n (r ∷ rs) shapes = elim (Bool-cases (is_tombstone r.record_type)) [
  | inl dies ↦ rw dies (rows-widths n rs shapes.1)
  | inr lives ↦
      let width : length (stored_values r) ≡ n + 1 = omega (arith, shapes.0.payload_count) in
      rw lives (width, rows-widths n rs shapes.1)
]

matching-widths :
    (doubles : Doubles) (clause : Option WhereNode) (width : ℕ) (table : List (List Text))
    → All (HasWidth width) table
    → All (HasWidth width) (matching doubles clause table)
unfolding matching
matching-widths doubles clause width [] widths = tt
matching-widths doubles clause width (row ∷ table) widths =
    let later = matching-widths doubles clause width table widths.1 in
    elim (Bool-cases (meets doubles clause row)) [
      | inl holds ↦ rw holds (widths.0, later)
      | inr fails ↦ rw fails later
    ]

projected-all_true :
    (width : ℕ) (table : List (List Text))
    → All (HasWidth width) table
    → projected (all_true width) table ≡ table
unfolding projected
projected-all_true width [] widths = refl
projected-all_true width (row ∷ table) widths =
    ap₂ (λ x xs. x ∷ xs) (project-all_true width 0 row (omega (arith, widths.0)))
      (projected-all_true width table widths.1)

map-key_first :
    {schema : Schema} {colcodes : Colcodes} (k : ℕ) (new_rows : List (Row schema colcodes))
    → map (λ row. key_first k (map cell_text row.lits)) new_rows
      ≡ map (key_first k) (map (λ row. map cell_text row.lits) new_rows)
map-key_first k [] = refl
map-key_first k (row ∷ new_rows) =
    ap (λ rest. key_first k (map cell_text row.lits) ∷ rest) (map-key_first k new_rows)

-- The table's columns have codes, and the statement has a literal for each column that it assigns.
pub record IsUpdate (schema : Schema) (colcodes : Colcodes) (node : UpdateNode) : Type 0 where
  pub coded : All (HasCode colcodes) schema
  pub width : length node.inverse_proj_mask ≡ length schema
  pub covers : Covers node.inverse_proj_mask node.schema_index_to_literal_map 0

module _ (doubles : Doubles) (is_silent_mode : Bool) (schema : Schema) (colcodes : Colcodes)
    (primary_key : Text) (k n : ℕ) (node : UpdateNode) (w : World) (rs : List TableRecord)
    (stored : IsStored node.table_name schema primary_key n w rs)
    (key : HasKey schema primary_key k n) (inside : k < length schema)
    (sound : IsUpdate schema colcodes node) where
  -- The old records, and the rows that take their place.
  abbrev pub old_rows : List (List Text)
  old_rows = matching doubles node.opt_where_node (rows rs)

  abbrev pub new_cells : List (List Text)
  new_cells = map (key_first k) (
      map
        (updated schema colcodes k key.found inside sound.coded node.inverse_proj_mask
          node.schema_index_to_literal_map sound.width sound.covers)
        old_rows)

  old_widths : All (HasWidth (length schema)) old_rows
  old_widths =
      subst (λ width. All (HasWidth width) old_rows) (sym key.columns)
        (matching-widths doubles node.opt_where_node (n + 1) (rows rs)
          (rows-widths n rs stored.wf.shapes))

  selected : select_rows doubles (all_true (length schema)) node.opt_where_node rs ≡ old_rows
  selected =
      select_rows-rows doubles (all_true (length schema)) node.opt_where_node rs
      ∙ projected-all_true (length schema) old_rows old_widths

  marking :
      All (Decided doubles node.opt_where_node) rs
      → stored.count + length rs < 2 ^ 64
      → (ctx1 : ExecutionContext) × (count : ℕ) × (mark_loop doubles is_silent_mode node.table_name
            schema node.opt_where_node
            (scan_fuel (table_file rs))
            (good (table_file rs) 32)
            w.ctx
            []
          ≡ done (ctx1, table_file (marked_records doubles node.opt_where_node rs), old_rows))
        × (lookup node.table_name ctx1.delete_counter_per_table ≡ some count)
        × (ctx1.untyped_tables ≡ w.ctx.untyped_tables)
        × (ctx1.table_colcodes ≡ w.ctx.table_colcodes)
        × (ctx1.indices ≡ w.ctx.indices)
  unfolding mark_table
  marking decided small =
      let (ctx1, run, counter, same) =
        mark_table_keeps n doubles is_silent_mode node.table_name schema node.opt_where_node rs
          w.ctx stored.count key.columns stored.wf decided stored.counted small in
      (
        ctx1,
        _,
        rw (check_fstream_validity_lem is_silent_mode rs, selected) at run,
        counter,
        same.0,
        same.1,
        same.2,
      )

  -- An UPDATE of a stored table of at most 256 columns, each of which has a code, with a literal for every
  -- column that it assigns, ends, whatever the comparison with the threshold says, when the comparison of its
  -- clause throws on no live record (std::stod does on a number out of range), the delete counter does not
  -- overflow and the file stays below 2^63 bytes. The table is stored again, and its rows are those of
  -- before that do not meet the clause, and behind them a new row for each of the others. A new row is what
  -- key_first makes of the cells of the old row, with the assigned values at their positions in the schema and
  -- quotes round texts taken off. An old row has its key first, as the file has it: where the primary key is the
  -- first column of the schema, the new row is the old one with the assigned values in place; where it is
  -- not, cells that are kept move to other columns.
  pub update_data_refines :
      (is_above_threshold : ℕ → ℕ → Bool)
      → lookup node.table_name w.ctx.table_colcodes ≡ some colcodes
      → All (Decided doubles node.opt_where_node) rs
      → stored.count + length rs < 2 ^ 64
      → length (table_file rs) + rows_size n new_cells < 2 ^ 63
      → (w' : World) × (rs' : List TableRecord) × (update_data doubles is_above_threshold
            is_silent_mode node w
          ≡ done w')
        × IsStored node.table_name schema primary_key n w' rs'
        × (rows rs' ≡ remaining doubles node.opt_where_node (rows rs) ++ new_cells)
  unfolding update_data index_at
  update_data_refines is_above_threshold coded decided small size =
      let table_name = node.table_name in
      let clause = node.opt_where_node in
      let marked = marked_records doubles clause rs in
      let (ctx1, count, run, counter, tables, codes, indices) = marking decided small in
      let (new_rows, made, images) =
        new_records_lem schema colcodes k key.found inside sound.coded node.inverse_proj_mask
          node.schema_index_to_literal_map sound.width sound.covers old_rows old_widths in
      let cells : map (λ (row : Row schema colcodes). key_first k (map cell_text row.lits)) new_rows
          ≡ new_cells =
        map-key_first k new_rows ∙ ap (map (key_first k)) images in
      let ready : Ready table_name primary_key schema colcodes ctx1 = record {
        table =
            at_key-found table_name schema ctx1.untyped_tables
              (ap (λ m. lookup table_name m) tables ∙ stored.known);
        codes =
            at_key-found table_name colcodes ctx1.table_colcodes
              (ap (λ m. lookup table_name m) codes ∙ coded);
        index = stored.index;
        index_there =
            ap (λ m. at_key table_name m >>= λ columns. at_key primary_key columns) indices
            ∙ stored.indexed;
      } in
      let fits : length (table_file (marked ++ records_of RecordType.update new_rows)) < 2 ^ 63 =
        omega (
          arith,
          size,
          length-table_file rs,
          length-table_file (marked ++ records_of RecordType.update new_rows),
          length-marked doubles clause rs,
          ap length (records_bytes-append marked (records_of RecordType.update new_rows)),
          length-append {0} (records_bytes marked)
              (records_bytes (records_of RecordType.update new_rows)),
          records_size schema colcodes primary_key k n RecordType.update key new_rows,
          ap (rows_size n) cells,
        ) in
      let (ctx2, appended, wf2, _, tables2, counters2, _) =
        append_all_lem is_silent_mode table_name primary_key schema colcodes k n RecordType.update
          updates key new_rows ctx1 ready marked (marked-IsTable doubles clause n rs stored.wf)
          fits in
      let rs2 = marked ++ records_of RecordType.update new_rows in
      let disk = with_table table_name (table_file rs2) w.disk in
      let (ctx3, again, stored3) =
        reindexed-IsStored is_silent_mode table_name primary_key schema n count ctx2 disk rs2
          (ap (λ m. lookup table_name m) tables2
            ∙ (ap (λ m. lookup table_name m) tables ∙ stored.known))
          stored.key stored.columns stored.small (ap (λ m. lookup table_name m) counters2 ∙ counter)
          (table_bytes-with_table table_name (table_file rs2) w.disk) stored.fresh wf2 in
      let (w', rs', ended, stored', same) =
        compact_if_needed_lem is_silent_mode table_name primary_key schema n
          (record { ctx = ctx3; disk = disk }) rs2 stored3 is_above_threshold in
      (
        w',
        rs',
        rw
            (
              stored.bytes,
              check_fstream_validity_lem is_silent_mode rs,
              at_key-found table_name schema w.ctx.untyped_tables stored.known,
              run,
              made,
              appended,
              again,
              stored.key,
            )
            ended,
        stored',
        same
            ∙ (rows-append marked (records_of RecordType.update new_rows)
                ∙ ap₂ (λ a b. a ++ b) (rows-marked doubles clause rs)
                    (rows-records_of is_silent_mode table_name primary_key schema colcodes k n
                        RecordType.update updates key refl new_rows
                      ∙ cells)),
      )
