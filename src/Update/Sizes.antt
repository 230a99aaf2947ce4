-- ===== src/Update/Sizes.antt =====
-- How many bytes the new records of updateData (DBEngine/filehandler/handlers/update.cpp) take in the file.
use bsc_thesis.Base.{
  ℕ, ◌+◌, ◌*◌, ◌≡◌, refl, sym, ap, ◌∙◌, List, [], ◌∷◌, ◌++◌, some, Text, length, arith,
  length-append, length-map, map,
}
use bsc_thesis.Status.{done_inj}
use bsc_thesis.Utils.Columns.{Schema}
use bsc_thesis.Storage.{
  RecordType, write_column_offsets, write_string, write_strings, record_bytes, records_bytes,
}
use bsc_thesis.Storage.Layout.{length-record_body, length-record_bytes, length-write_column_offsets}
use bsc_thesis.Storage.Reads.{stored_values}
use bsc_thesis.Storage.Serializer.{Colcodes}
use bsc_thesis.Storage.Serializer.Contents.{all_true, cell_text, key_first, serialized_row}
use bsc_thesis.Storage.Serializer.Lengths.{
  Located-length, Located-paddings, normalized_record-IsNormalized,
}
use bsc_thesis.Handlers.NewRows.{Row, HasKey, record_of, records_of}

-- The bytes of the records of these rows: length, type, column offsets and values.
unfoldable pub rows_size : ℕ → List (List Text) → ℕ
rows_size n [] = 0
rows_size n (row ∷ rows) = 9 + 16 * n + length (write_strings row) + rows_size n rows

module _ (schema : Schema) (colcodes : Colcodes) (primary_key : Text) (k n : ℕ) (type : RecordType)
    (key : HasKey schema primary_key k n) where
  record_size :
      (row : Row schema colcodes)
      → length (record_bytes (record_of type row))
        ≡ 9 + 16 * n + length (write_strings (stored_values (record_of type row)))
  unfolding write_strings
  record_size row =
      let r = record_of type row in
      let ok =
        normalized_record-IsNormalized schema colcodes (map some row.lits)
          (all_true (length schema)) row.written (length-map some row.lits ∙ sym row.sizes)
          row.run in
      let strings = write_string r.primary_key ++ write_strings r.payload in
      omega (
        arith,
        key.columns,
        ok.count,
        length-record_bytes r,
        length-record_body r,
        length-append {0} (write_column_offsets r.column_offset_map) strings,
        length-write_column_offsets r.column_offset_map (
            Located-paddings 0 row.written.columns.offsets row.written.columns.literals ok.located),
        Located-length 0 row.written.columns.offsets row.written.columns.literals ok.located,
      )

  pub records_size :
      (rows : List (Row schema colcodes))
      → length (records_bytes (records_of type rows))
        ≡ rows_size n (map (λ row. key_first k (map cell_text row.lits)) rows)
  unfolding records_bytes rows_size
  records_size [] = refl
  records_size (row ∷ rows) =
      let r = record_of type row in
      let (found, stored) =
        serialized_row schema colcodes row.lits row.written type row.sizes row.given row.run in
      let same : row.written.pk_idx ≡ k = done_inj (sym found ∙ key.found) in
      let cells : length (write_strings (stored_values r))
          ≡ length (write_strings (key_first k (map cell_text row.lits))) =
        ap (λ values. length (write_strings values))
          (stored ∙ ap (λ i. key_first i (map cell_text row.lits)) same) in
      omega (
        arith,
        cells,
        records_size rows,
        record_size row,
        length-append {0} (record_bytes r) (records_bytes (records_of type rows)),
      )
