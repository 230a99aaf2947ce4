-- ===== src/Select/Samples.antt =====
-- SELECT name FROM users WHERE id = 3
use bsc_thesis.Base.{◌≡◌, refl, true, false, [], ◌∷◌, some, codes, text_eq, lookup}
use bsc_thesis.Utils.Strings.{remove_outer_quotes, trim, find}
use bsc_thesis.Utils.Inserts.{get_modifiers, mentions_default}
use bsc_thesis.Utils.Columns.{contains, is_primary_key, extract_primary_key_column}
use bsc_thesis.Condition.Integers.{integers}
use bsc_thesis.Stream.Bytes.{le_bytes}
use bsc_thesis.Storage.{
  write_column_offset, write_column_offsets, write_string, write_strings, record_body, table_file,
}
use bsc_thesis.Storage.Scan.Index.{find_live}
use bsc_thesis.Storage.Table.{select_table}
use bsc_thesis.Context.{at_key, index_at}
use bsc_thesis.Fixtures.{users, users_schema, users-IsTable, session, with_id_3}
use bsc_thesis.Select.{select_data}
use bsc_thesis.Select.Indexed.{live_keys, IsKeyLookup, select_data_agrees}

by_3 : IsKeyLookup with_id_3 (codes "3")
unfolding remove_outer_quotes
by_3 = record { resolved = refl; equality = refl; literal = refl }

select_data_agrees_example :
    select_data integers false session
      (codes "users")
      (false ∷ true ∷ false ∷ [])
      (some with_id_3)
      (table_file users)
    ≡ select_table integers false
        (table_file users)
        users_schema
        (false ∷ true ∷ false ∷ [])
        (some with_id_3)
unfolding lookup text_eq contains index_at at_key live_keys find_live record_body
    write_column_offset write_column_offsets write_string write_strings le_bytes
    extract_primary_key_column is_primary_key get_modifiers mentions_default trim find
select_data_agrees_example =
    select_data_agrees integers with_id_3 (codes "3") by_3 false session (codes "users")
      users_schema (false ∷ true ∷ false ∷ []) ((codes "1", 40) ∷ (codes "3", 182) ∷ []) 2 182 users
      refl refl refl users-IsTable (refl, (refl, tt)) refl refl refl
