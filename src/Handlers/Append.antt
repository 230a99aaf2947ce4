-- ===== src/Handlers/Append.antt =====
-- Rows that serializeNormalizedRecord (DBEngine/filehandler/serialization/normalized-record.cpp) appends
-- to a table file, one after the other, with their entries in the index.
use bsc_thesis.Base.{
  ℕ, ◌+◌, ◌-◌, ◌^◌, ◌<◌, ◌≤◌, ◌≡◌, refl, sym, ap, ap₂, ◌∙◌, Bool, true, false, List, [], ◌∷◌, ◌++◌,
  some, Text, length, arith, length-append, append-nil, append_assoc, length-map, map, lookup,
  map_set, lookup-map_set,
}
use bsc_thesis.Status.{done, done_inj}
use bsc_thesis.Utils.Columns.{Schema}
use bsc_thesis.Storage.{
  RecordType, is_tombstone, type_byte, TableRecord, record_body, record_bytes, records_bytes,
  table_file,
}
use bsc_thesis.Storage.Serializer.{Colcodes, serialized_bytes}
use bsc_thesis.Storage.Serializer.Lengths.{serialized_bytes-IsRecord}
use bsc_thesis.Storage.Serializer.Contents.{cell_text, all_true, key_first, serialized_row}
use bsc_thesis.Storage.Scan.Index.{find_live}
use bsc_thesis.Select.Indexed.{live_keys}
use bsc_thesis.Utils.Columns.{contains}
use bsc_thesis.Storage.Table.{IsTable, length-table_file}
use bsc_thesis.Storage.Table.RoundTrip.{records_bytes-append, table_file_snoc, shapes_snoc}
use bsc_thesis.Context.{ExecutionContext, with_index, upsert_primary_key_index}
use bsc_thesis.Context.Keys.{index_at-with_index}
use bsc_thesis.Storage.Layout.{length-record_bytes}
use bsc_thesis.Handlers.Rows.{rows}
use bsc_thesis.Handlers.{
  write_record, is_indexed, index_record, serialize_normalized_record, serialize_records,
}
use bsc_thesis.Handlers.NewRows.{
  Row, HasKey, record_of, records_of, nodes_of, Ready, Fresh, find_live_snoc,
}

module _ (is_silent_mode : Bool) (table_name primary_key : Text) (schema : Schema)
    (colcodes : Colcodes) (k n : ℕ) (type : RecordType) (indexed : is_indexed type ≡ true)
    (key : HasKey schema primary_key k n) where
  abbrev indexed_ctx :
      (ctx : ExecutionContext)
      → Ready table_name primary_key schema colcodes ctx
      → Row schema colcodes
      → ℕ
      → ExecutionContext
  indexed_ctx ctx ready row offset =
      with_index ctx table_name primary_key (map_set row.written.pk_literal offset ready.index)

  index_record_lem :
      (ctx : ExecutionContext) (ready : Ready table_name primary_key schema colcodes ctx)
      (row : Row schema colcodes) (file : List ℕ)
      → index_record table_name schema row.written type ctx file
        ≡ done (indexed_ctx ctx ready row (length file + 8))
  unfolding index_record upsert_primary_key_index
  index_record_lem ctx ready row file =
      let (found, _) =
        serialized_row schema colcodes row.lits row.written type row.sizes row.given row.run in
      let same : k ≡ row.written.pk_idx = done_inj (sym key.found ∙ found) in
      rw (indexed, ← same, key.there, key.named, ready.index_there) refl

  -- One row, behind the records of a table.
  append_lem :
      (ctx : ExecutionContext) (ready : Ready table_name primary_key schema colcodes ctx)
      (row : Row schema colcodes) (rs : List TableRecord)
      → IsTable n rs
      → length (table_file (rs ++ (record_of type row ∷ []))) < 2 ^ 63
      → (serialize_normalized_record is_silent_mode table_name
            (map some row.lits)
            (all_true (length schema))
            type
            ctx
            (table_file rs)
          ≡ done (
            indexed_ctx ctx ready row (length (table_file rs) + 8),
            table_file (rs ++ (record_of type row ∷ [])),
          ))
        × IsTable n (rs ++ (record_of type row ∷ []))
  unfolding serialize_normalized_record records_bytes write_record
  append_lem ctx ready row rs wf size =
      let r = record_of type row in
      let short : length (record_body r) < 2 ^ 63 = omega (
        arith,
        size,
        length-table_file (rs ++ (r ∷ [])),
        ap length (records_bytes-append rs (r ∷ [])),
        length-append {0} (records_bytes rs) (record_bytes r ++ []),
        length-append {0} (record_bytes r) [],
        length-record_bytes r,
      ) in
      let (written, shape, _) =
        serialized_bytes-IsRecord schema colcodes (map some row.lits) (all_true (length schema))
          row.written type (length-map some row.lits ∙ sym row.sizes) key.few row.run short in
      let others : length schema - 1 ≡ n = omega (arith, key.columns) in
      let whole : table_file rs ++ serialized_bytes row.written type ≡ table_file (rs ++ (r ∷ [])) =
        ap (λ bytes. table_file rs ++ bytes) written ∙ table_file_snoc rs r in
      (
        rw
            (
              ready.table,
              ready.codes,
              row.run,
              index_record_lem ctx ready row (table_file rs),
              whole,
            )
            refl,
        record { shapes = shapes_snoc n rs r wf.shapes (rw others at shape); size = size },
      )

  abbrev indexed-Ready :
      (ctx : ExecutionContext) (ready : Ready table_name primary_key schema colcodes ctx)
      (row : Row schema colcodes) (offset : ℕ)
      → Ready table_name primary_key schema colcodes (indexed_ctx ctx ready row offset)
  unfolding with_index
  indexed-Ready ctx ready row offset = record {
    table = ready.table;
    codes = ready.codes;
    index = map_set row.written.pk_literal offset ready.index;
    index_there =
        index_at-with_index ctx table_name primary_key
          (map_set row.written.pk_literal offset ready.index);
  }

  length-prefix :
      (rs : List TableRecord) (r : TableRecord) (ss : List TableRecord)
      → length (table_file (rs ++ (r ∷ []))) ≤ length (table_file (rs ++ (r ∷ ss)))
  unfolding records_bytes
  length-prefix rs r ss = omega (
    arith,
    length-table_file (rs ++ (r ∷ [])),
    length-table_file (rs ++ (r ∷ ss)),
    ap length (records_bytes-append rs (r ∷ [])),
    ap length (records_bytes-append rs (r ∷ ss)),
    length-append {0} (records_bytes rs) (record_bytes r ++ []),
    length-append {0} (records_bytes rs) (record_bytes r ++ records_bytes ss),
    length-append {0} (record_bytes r) [],
    length-append {0} (record_bytes r) (records_bytes ss),
  )

  appended_agrees :
      (is_live : is_tombstone (type_byte type) ≡ false) (ctx : ExecutionContext)
      (ready : Ready table_name primary_key schema colcodes ctx) (row : Row schema colcodes)
      (rs : List TableRecord)
      → ((x : Text) → lookup x ready.index ≡ find_live x 32 rs)
      → contains row.written.pk_literal (live_keys rs) ≡ false
      → (x : Text)
      → lookup x (map_set row.written.pk_literal (length (table_file rs) + 8) ready.index)
        ≡ find_live x 32 (rs ++ (record_of type row ∷ []))
  appended_agrees is_live ctx ready row rs agrees absent x =
      let place : length (table_file rs) + 8 ≡ 32 + length (records_bytes rs) + 8 =
        omega (arith, length-table_file rs) in
      lookup-map_set x row.written.pk_literal (length (table_file rs) + 8) ready.index
      ∙ (rw (agrees x, place) refl
          ∙ sym (find_live_snoc x 32 rs (record_of type row) is_live absent))

  -- All the rows: the file, the context and its index afterwards.
  pub append_all_lem :
      (rows : List (Row schema colcodes)) (ctx : ExecutionContext)
      (ready : Ready table_name primary_key schema colcodes ctx) (rs : List TableRecord)
      → IsTable n rs
      → length (table_file (rs ++ records_of type rows)) < 2 ^ 63
      → (ctx' : ExecutionContext) × (serialize_records is_silent_mode table_name
            (all_true (length schema))
            type
            (nodes_of rows)
            ctx
            (table_file rs)
          ≡ done (ctx', table_file (rs ++ records_of type rows)))
        × IsTable n (rs ++ records_of type rows)
        × (ready' : Ready table_name primary_key schema colcodes ctx') × (ctx'.untyped_tables
            ≡ ctx.untyped_tables)
        × (ctx'.delete_counter_per_table ≡ ctx.delete_counter_per_table)
        × (is_tombstone (type_byte type) ≡ false
            → Fresh type rs rows
            → ((x : Text) → lookup x ready.index ≡ find_live x 32 rs)
            → (x : Text) → lookup x ready'.index ≡ find_live x 32 (rs ++ records_of type rows))
  unfolding serialize_records with_index
  append_all_lem [] ctx ready rs wf size = (
    ctx,
    rw append-nil refl,
    rw append-nil wf,
    ready,
    refl,
    refl,
    λ live fresh agrees x. rw append-nil (agrees x),
  )
  append_all_lem (row ∷ rows) ctx ready rs wf size =
      let r = record_of type row in
      let joined = append_assoc rs (r ∷ []) (records_of type rows) in
      let fits : length (table_file (rs ++ (r ∷ []))) < 2 ^ 63 =
        omega (arith, size, length-prefix rs r (records_of type rows)) in
      let (now, wf1) = append_lem ctx ready row rs wf fits in
      let offset = length (table_file rs) + 8 in
      let (ctx', run, wf', ready', tables, counters, agreeing) =
        append_all_lem rows (indexed_ctx ctx ready row offset) (indexed-Ready ctx ready row offset)
          (rs ++ (r ∷ [])) wf1 (rw joined size) in
      (
        ctx',
        rw now (rw joined at run),
        rw joined at wf',
        ready',
        tables,
        counters,
        λ live fresh agrees x.
            agreeing live fresh.1 (appended_agrees live ctx ready row rs agrees fresh.0) x
            ∙ ap (λ records. find_live x 32 records) joined,
      )

  -- The rows of what was appended.
  pub rows-records_of :
      (is_live : is_tombstone (type_byte type) ≡ false) (rs : List (Row schema colcodes))
      → rows (records_of type rs) ≡ map (λ row. key_first k (map cell_text row.lits)) rs
  unfolding rows
  rows-records_of is_live [] = refl
  rows-records_of is_live (row ∷ rs) =
      let (found, stored) =
        serialized_row schema colcodes row.lits row.written type row.sizes row.given row.run in
      let same : row.written.pk_idx ≡ k = done_inj (sym found ∙ key.found) in
      rw is_live (
        ap₂ (λ x xs. x ∷ xs) (stored ∙ ap (λ i. key_first i (map cell_text row.lits)) same)
          (rows-records_of is_live rs))
