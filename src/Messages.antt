-- ===== src/Messages.antt =====
-- The message templates of DBEngine/services/logger/std_logger/message-templates: injectContext, and the texts of
-- the error, fatal error and warning codes.
pub mod Filled
mod Samples
use bsc_thesis.Base.{ℕ, ◌+◌, Option, none, some, List, [], ◌∷◌, ◌++◌, Text, codes, take, drop}
use bsc_thesis.Utils.Strings.{find}
use bsc_thesis.Status.{
  ErrorCode, FatalErrorCode, WarningCode, file_was_made_with_different_db_version,
  csv_import_row_has_more_columns_than_table, col_offset_region_has_more_cols_than_allowed,
  colcode_table_does_not_exist, column_does_not_exist_in_table,
  compact_error_while_deleting_old_file, compact_error_while_renaming_new_file,
  compact_unknown_error_during_copying, could_not_create_metadata_file_for_table,
  could_not_create_table_file, create_table_already_exists, csv_import_cannot_open_file,
  csv_import_unknown_exception, delete_column_not_found_due_to_corruption,
  delete_generic_invalid_statement, describe_generic_invalid_statement,
  drop_generic_invalid_statement, drop_unknown_file_system_error, generic_file_io_failure,
  hash_index_nullptr, insert_column_does_not_exist_in_table, insert_duplicate_primary_keys,
  insert_generic_invalid_statement, insert_more_columns_in_col_list_than_in_table,
  insert_more_values_than_columns_in_col_list, insert_more_values_than_columns_in_table,
  insert_not_null_no_default_violation, insert_primary_key_cannot_be_empty,
  metadata_directory_does_not_exist, primary_key_does_not_exist,
  primary_key_hash_map_initialization_failure, select_generic_invalid_statement,
  table_does_not_exist, table_metadata_directory_does_not_exist,
  table_not_found_in_delete_count_map, unknown_exception_while_creating_table_file,
  unknown_io_error_during_deserialization, unknown_table_file_format,
  update_generic_invalid_statement, update_tried_updating_the_primary_key,
  update_tried_updating_the_same_column, where_empty_literal_is_not_comparable,
  where_eq_not_eq_violation, where_is_is_not_violation, where_like_not_like_violation,
  where_math_violation,
}

-- std::string::replace of `n` bytes at a position
unfoldable pub replace : Text → ℕ → ℕ → Text → Text
replace t pos n value = take pos t ++ (value ++ drop (pos + n) t)

abbrev pub placeholder : Text
placeholder = 123 ∷ 125 ∷ []

-- injectContext: each value takes the place of the first placeholder; without one the loop stops.
unfoldable pub inject_context : Text → List Text → Text
inject_context message_template [] = message_template
inject_context message_template (context_value ∷ values) =
    elim (find message_template placeholder) [
      | none ↦ message_template
      | some pos ↦ inject_context (replace message_template pos 2 context_value) values
    ]

-- The values of the context, where there is one.
abbrev pub resolved_context : Option (List Text) → List Text
resolved_context none = []
resolved_context (some values) = values

unfoldable pub resolve_error_message_template : ErrorCode → Option (List Text) → Text
resolve_error_message_template table_does_not_exist context =
    inject_context (codes "Table '{}' does not exist.") (resolved_context context)
resolve_error_message_template insert_more_values_than_columns_in_col_list context =
    inject_context
      (codes "Column list only specifies {} columns, but you tried to insert {} values in a row.")
      (resolved_context context)
resolve_error_message_template insert_more_values_than_columns_in_table context =
    inject_context
      (codes "Table '{}' Only has {} columns, but you tried to insert {} values in a row.")
      (resolved_context context)
resolve_error_message_template insert_column_does_not_exist_in_table context =
    inject_context (codes "Column '{}' Does not exist in table '{}'") (resolved_context context)
resolve_error_message_template insert_more_columns_in_col_list_than_in_table context =
    inject_context
      (codes
        "Table '{}' only has {} columns, but you specified {} columns in the column list of the insert statement.")
      (resolved_context context)
resolve_error_message_template column_does_not_exist_in_table context =
    inject_context (codes "Column '{}' does not exist in table '{}'!") (resolved_context context)
resolve_error_message_template insert_primary_key_cannot_be_empty context =
    codes "You've tried to insert an empty primary key value, but the Primary Key cannot be empty."
resolve_error_message_template insert_not_null_no_default_violation context =
    codes
      "Cannot insert empty literal into column marked as NOT NULL without explicit DEFAULT value"
resolve_error_message_template create_table_already_exists context =
    inject_context (codes "Cannot create table '{}', because it already exists.")
      (resolved_context context)
resolve_error_message_template where_empty_literal_is_not_comparable context =
    codes "Literal in WHERE condition cannot be empty literal!"
resolve_error_message_template where_is_is_not_violation context =
    codes
      "Comparators 'IS' and 'IS NOT' must be followed by either a 'NULL' or a boolean (TRUE or FALSE) literal!"
resolve_error_message_template where_like_not_like_violation context =
    codes "Comparators 'LIKE' and 'NOT LIKE' must be followed by a string literal!"
resolve_error_message_template where_eq_not_eq_violation context =
    codes "Comparators '=' and '!=' can only be used with string or numeric literals"
resolve_error_message_template where_math_violation context =
    codes "Mathematical comparators must be followed by a numeric literal!"
resolve_error_message_template insert_generic_invalid_statement context =
    codes
      "Insert statement is semantically invalid! The engine will not perform any file operations."
resolve_error_message_template select_generic_invalid_statement context =
    codes
      "Select statement is semantically invalid! The engine will not perform any file operations."
resolve_error_message_template update_generic_invalid_statement context =
    codes
      "Update statement is semantically invalid! The engine will not perform any file operations."
resolve_error_message_template delete_generic_invalid_statement context =
    codes
      "Delete statement is semantically invalid! The engine will not perform any file operations."
resolve_error_message_template insert_duplicate_primary_keys context =
    inject_context (codes "Primary key '{}' already exists in table '{}'!")
      (resolved_context context)
resolve_error_message_template update_tried_updating_the_same_column context =
    inject_context
      (codes "Update command contains column '{}' multiple times, which is not allowed.")
      (resolved_context context)
resolve_error_message_template update_tried_updating_the_primary_key context =
    inject_context
      (codes
        "You've tried to update the primary key (column '{}'), which is not allowed because it's a bad practice.")
      (resolved_context context)
resolve_error_message_template drop_generic_invalid_statement context =
    codes "Drop statement is semantically invalid! The engine will not perform any file operations."
resolve_error_message_template describe_generic_invalid_statement context =
    codes
      "Describe statement is semantically invalid! The engine will not perform any file operations."
resolve_error_message_template primary_key_does_not_exist context =
    inject_context (codes "Primary key '{}' does not exist in table '{}'!")
      (resolved_context context)

unfoldable pub resolve_fatal_error_message_template : FatalErrorCode → Option (List Text) → Text
resolve_fatal_error_message_template generic_file_io_failure context =
    inject_context (codes "An unknown IO error occured. Error message: {}")
      (resolved_context context)
resolve_fatal_error_message_template csv_import_cannot_open_file context =
    codes "Could not open the given CSV file. Check your file path."
resolve_fatal_error_message_template col_offset_region_has_more_cols_than_allowed context =
    inject_context (codes "Table '{}' Has more than 256 columns on the disk, which is illegal.")
      (resolved_context context)
resolve_fatal_error_message_template table_not_found_in_delete_count_map context =
    inject_context
      (codes "Cannot find table '{}' in the execution context's per-table-delete-counter.")
      (resolved_context context)
resolve_fatal_error_message_template csv_import_unknown_exception context =
    inject_context (codes "Unknown exception while parsing the CSV file. Error message: '{}'")
      (resolved_context context)
resolve_fatal_error_message_template primary_key_hash_map_initialization_failure context =
    codes "One of the pointers responsible for primary key indexing was nullptr."
resolve_fatal_error_message_template unknown_table_file_format context =
    inject_context (codes "Unknown table file format for table '{}'.") (resolved_context context)
resolve_fatal_error_message_template metadata_directory_does_not_exist context =
    inject_context (codes "Metadata directory does not exist. The supposed location was: '{}' ")
      (resolved_context context)
resolve_fatal_error_message_template could_not_create_metadata_file_for_table context =
    inject_context (codes "Could not create metadata file for table '{}'!")
      (resolved_context context)
resolve_fatal_error_message_template table_metadata_directory_does_not_exist context =
    inject_context (codes "Metadata directory for table '{}' does not exist.")
      (resolved_context context)
resolve_fatal_error_message_template drop_unknown_file_system_error context =
    inject_context
      (codes "Unknown filesystem error while attempting to drop table '{}'. Error message: '{}'")
      (resolved_context context)
resolve_fatal_error_message_template compact_error_while_deleting_old_file context =
    inject_context
      (codes
        "Unknown filesystem error while attempting to compact table '{}'. Occured while trying to delete the old file. Error message: '{}'")
      (resolved_context context)
resolve_fatal_error_message_template compact_error_while_renaming_new_file context =
    inject_context
      (codes
        "Unknown filesystem error while attempting to compact table '{}'. Occured while trying to rename the new file. Error message: '{}'")
      (resolved_context context)
resolve_fatal_error_message_template could_not_create_table_file context =
    inject_context (codes "Could not create binary file for table '{}'!") (resolved_context context)
resolve_fatal_error_message_template unknown_exception_while_creating_table_file context =
    inject_context
      (codes "Unknown exception while creating binary file for table '{}'. Error message: '{}'")
      (resolved_context context)
resolve_fatal_error_message_template compact_unknown_error_during_copying context =
    codes "Unknown IOERROR while copying live records to new file"
resolve_fatal_error_message_template hash_index_nullptr context =
    codes "Could not operate on the in-memory hash-map index due to nullptr error"
resolve_fatal_error_message_template unknown_io_error_during_deserialization context =
    codes "Unknown IOError during binary file handling"
resolve_fatal_error_message_template delete_column_not_found_due_to_corruption context =
    codes
      "Could not deserialize column offset region during delete process, possibly due to file corruption or misalignment"
resolve_fatal_error_message_template colcode_table_does_not_exist context =
    inject_context (codes "Could not find table '{}' while trying to calculate its column codes.")
      (resolved_context context)

unfoldable pub resolve_warning_message_template : WarningCode → Option (List Text) → Text
resolve_warning_message_template file_was_made_with_different_db_version context =
    inject_context
      (codes
        "Table file for table '{}' was created with a different version of the DB engine. Expect undefined behavior. Use at your own risk!")
      (resolved_context context)
resolve_warning_message_template csv_import_row_has_more_columns_than_table context =
    inject_context
      (codes
        "Found a row with '{}' columns on line '{}' of the csv file. This is more than the number of columns in table '{}' (which is '{}'). The system is skipping this row, and will continue trying to import other rows.")
      (resolved_context context)
