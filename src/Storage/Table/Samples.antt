-- ===== src/Storage/Table/Samples.antt =====
-- Runs on the users table, and the theorems about table files at it.
use bsc_thesis.Base.{
  lookup, ◌≡◌, refl, false, [], ◌∷◌, ◌++◌, ◌-◌, replicate, none, some, Text, codes, text_eq, map,
  arith,
}
use bsc_thesis.Status.{done}
use bsc_thesis.Utils.Strings.{remove_outer_quotes, trim, find}
use bsc_thesis.Utils.Inserts.{mentions_default, get_modifiers, get_default_value}
use bsc_thesis.Utils.Columns.{is_primary_key}
use bsc_thesis.Condition.Integers.{integers}
use bsc_thesis.Stream.Bytes.{le_bytes}
use bsc_thesis.Storage.{
  RecordType, write_header, write_column_offset, write_column_offsets, write_string, write_strings,
  record_body, record_bytes, records_bytes, table_file, IsRecord,
}
use bsc_thesis.Storage.Reads.{stored_values}
use bsc_thesis.Storage.Serializer.{
  Normalized, colcode_at, pk_loop, find_pk_idx, is_empty_literal, final_literal, column_step,
  serialize_columns, with_key, normalized_record, serialized_bytes, normalized_table_record,
}
use bsc_thesis.Storage.Serializer.Lengths.{Located, serialized_bytes-IsRecord}
use bsc_thesis.Storage.Serializer.Contents.{all_true, key_first, cell_text, serialized_row}
use bsc_thesis.Storage.Serializer.Total.{normalized_record_total}
use bsc_thesis.Storage.Scan.{Index, compact_table}
use bsc_thesis.Storage.Scan.Select.{select_rows}
use bsc_thesis.Storage.Scan.Index.{find_live}
use bsc_thesis.Storage.Scan.Compact.{live_records}
use bsc_thesis.Storage.Table.{scan_fuel, select_table, index_table}
use bsc_thesis.Storage.Table.Contents.{select_table_lem, index_table_lem, compact_table_lem}
use bsc_thesis.Storage.Table.RoundTrip.{insert_then_select}
use bsc_thesis.Fixtures.{
  users-IsTable, users-Decided, users_schema, users_colcodes, users, new_user, aged_41,
}

select_table_lem_example :
    select_table integers false (table_file users) users_schema (all_true 3) (some aged_41)
    ≡ done (select_rows integers (all_true 3) (some aged_41) users)
select_table_lem_example =
    select_table_lem integers false 2 users users_schema (all_true 3) (some aged_41) users-IsTable
      users-Decided refl

index_table_lem_example :
    (index : Index) × (index_table false (table_file users) 2 ≡ done index)
    × ((key : Text) → lookup key index ≡ find_live key 32 users)
index_table_lem_example = index_table_lem false 2 users users-IsTable

compact_table_lem_example :
    compact_table false (scan_fuel (table_file users)) (table_file users) none 2
    ≡ done (table_file (live_records users))
compact_table_lem_example = compact_table_lem false 2 users users-IsTable

-- What the serializer computes for (4, 'Di', 22).
abbrev di : Normalized
di = record {
  pk_idx = 0;
  pk_literal = codes "4";
  record_length = 62;
  columns = record {
    offsets =
        record { offset = 0; col_id = 1; padding = replicate 7 0 }
        ∷ record { offset = 10; col_id = 2; padding = replicate 7 0 }
        ∷ [];
    literals = codes "Di" ∷ codes "22" ∷ [];
    running = 20;
  };
}

normalized_di :
    normalized_record users_schema users_colcodes (map some new_user) (all_true 3) ≡ done di
unfolding normalized_record with_key serialize_columns column_step final_literal is_empty_literal
    find_pk_idx pk_loop is_primary_key get_modifiers mentions_default trim find text_eq colcode_at
    remove_outer_quotes get_default_value
normalized_di = refl

normalized_record_total_example :
    (b : Normalized) × (normalized_record users_schema users_colcodes
        (map some new_user)
        (all_true 3)
      ≡ done b)
unfolding find_pk_idx pk_loop is_primary_key get_modifiers mentions_default trim find text_eq
    colcode_at is_empty_literal
normalized_record_total_example =
    normalized_record_total users_schema users_colcodes new_user 0 refl (omega arith) refl
      (refl, (refl, (refl, tt))) ((0, refl), ((1, refl), ((2, refl), tt)))

serialized_bytes-IsRecord_example :
    (serialized_bytes di RecordType.insert
      ≡ record_bytes (normalized_table_record di RecordType.insert))
    × IsRecord (3 - 1) (normalized_table_record di RecordType.insert)
    × Located 0 di.columns.offsets di.columns.literals
unfolding record_body write_column_offsets write_column_offset write_strings write_string le_bytes
serialized_bytes-IsRecord_example =
    serialized_bytes-IsRecord users_schema users_colcodes (map some new_user) (all_true 3) di
      RecordType.insert refl (omega arith) normalized_di (omega arith)

serialized_row_example :
    (find_pk_idx users_schema ≡ done 0)
    × (stored_values (normalized_table_record di RecordType.insert)
        ≡ key_first 0 (map cell_text new_user))
unfolding is_empty_literal
serialized_row_example =
    serialized_row users_schema users_colcodes new_user di RecordType.insert refl
      (refl, (refl, (refl, tt))) normalized_di

insert_then_select_example :
    select_table integers false
      (table_file users ++ serialized_bytes di RecordType.insert)
      users_schema
      (all_true 3)
      none
    ≡ done (
        select_rows integers (all_true 3) none users ++ (key_first 0 (map cell_text new_user) ∷ []))
unfolding is_empty_literal table_file write_header records_bytes record_bytes record_body
    write_column_offsets write_column_offset write_strings write_string le_bytes serialized_bytes
insert_then_select_example =
    insert_then_select integers false 2 users users_schema users_colcodes new_user di users-IsTable
      refl (omega arith) refl (refl, (refl, (refl, tt))) normalized_di (omega arith)
