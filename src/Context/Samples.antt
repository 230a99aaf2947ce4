-- ===== src/Context/Samples.antt =====
-- A session with the users table, and the theorems about the execution context at it.
use bsc_thesis.Base.{
  ℕ, ◌≡◌, refl, false, List, [], ◌∷◌, some, Text, codes, text_eq, lookup, replicate, arith,
}
use bsc_thesis.Status.{
  done, exited, table_not_found_in_delete_count_map, col_offset_region_has_more_cols_than_allowed,
  handle_fatal_error,
}
use bsc_thesis.Utils.Strings.{trim, find}
use bsc_thesis.Utils.Inserts.{get_modifiers, mentions_default}
use bsc_thesis.Utils.Columns.{
  Schema, column_names, contains, index_of, is_primary_key, extract_primary_key_column,
}
use bsc_thesis.Storage.{table_file}
use bsc_thesis.Storage.Scan.{Index}
use bsc_thesis.Storage.Scan.Index.{find_live}
use bsc_thesis.Fixtures.{users_schema, users, users-IsTable, session}
use bsc_thesis.Context.{
  ExecutionContext, at_key, index_at, get_delete_count, set_untyped_table,
  initialize_column_encoding_map, recalculate_indices,
}
use bsc_thesis.Context.Keys.{recalculated_index}
use bsc_thesis.Context.Colcodes.{colcode_is_position, too_many_columns}

-- The index of the users table: Ann's record stands at 32, Cy's behind Bob's.
abbrev users_index : Index
users_index = (codes "1", 40) ∷ (codes "3", 182) ∷ []

session_index : index_at session (codes "users") (codes "id") ≡ done users_index
unfolding index_at at_key lookup text_eq
session_index = refl

users_key : extract_primary_key_column users_schema ≡ done (codes "id")
unfolding extract_primary_key_column is_primary_key get_modifiers mentions_default trim find text_eq
users_key = refl

recalculated_index_example :
    (ctx' : ExecutionContext) × (index : Index) × (recalculate_indices false session
        (codes "users")
        (table_file users)
      ≡ done ctx')
    × (index_at ctx' (codes "users") (codes "id") ≡ done index)
    × ((key : Text) → lookup key index ≡ find_live key 32 users)
unfolding lookup text_eq
recalculated_index_example =
    recalculated_index false session (codes "users") (codes "id") users_schema 2 users refl
      users_key refl (omega arith) users-IsTable

colcode_is_position_example :
    (ctx' : ExecutionContext) × (colcodes : List (Text × ℕ)) × (initialize_column_encoding_map false
        session
        (codes "users")
      ≡ done ctx')
    × (lookup (codes "users") ctx'.table_colcodes ≡ some colcodes)
    × ((name : Text) → lookup name colcodes ≡ index_of name (column_names users_schema))
unfolding lookup text_eq contains
colcode_is_position_example =
    colcode_is_position false session (codes "users") users_schema refl (omega arith)
      (refl, (refl, (refl, tt)))

abbrev wide_schema : Schema
wide_schema = replicate 256 (record { name = codes "c"; modifiers = [] })

abbrev wide_session : ExecutionContext
wide_session = record session { untyped_tables = (codes "wide", wide_schema) ∷ [] }

too_many_columns_example :
    initialize_column_encoding_map false wide_session (codes "wide")
    ≡ exited col_offset_region_has_more_cols_than_allowed
unfolding lookup text_eq
too_many_columns_example =
    too_many_columns wide_session (codes "wide") wide_schema refl (omega arith)

-- A table that was created in this session has no delete counter: a DELETE ends the program.
missing_counter :
    get_delete_count false (set_untyped_table session (codes "fresh") users_schema) (codes "fresh")
    ≡ exited table_not_found_in_delete_count_map
unfolding get_delete_count set_untyped_table lookup text_eq handle_fatal_error
missing_counter = refl
