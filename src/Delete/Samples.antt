-- ===== src/Delete/Samples.antt =====
-- DELETE FROM users WHERE id = 3, and WHERE age = 41
use bsc_thesis.Base.{
  ℕ, ◌+◌, ◌*◌, ◌^◌, ◌<◌, ◌≡◌, refl, false, leb, length, inr, List, [], ◌∷◌, none, some, Text, codes,
  text_eq, if◌then◌else◌, lookup, arith,
}
use bsc_thesis.Status.{done}
use bsc_thesis.Utils.Strings.{remove_outer_quotes}
use bsc_thesis.Utils.Strings.{trim, find}
use bsc_thesis.Utils.Inserts.{get_modifiers, mentions_default}
use bsc_thesis.Utils.Columns.{contains, is_primary_key, extract_primary_key_column}
use bsc_thesis.Condition.Integers.{integers}
use bsc_thesis.Strategy.{is_eq, is_unique_equality_lookup}
use bsc_thesis.Select.Indexed.{live_keys, IsKeyLookup}
use bsc_thesis.Delete.Uncounted.{created_then_delete_exits}
use bsc_thesis.Handlers.Tables.{metadata_text, create_new_table}
use bsc_thesis.Handlers.{ensure_table_file_exists}
use bsc_thesis.Status.{exited, table_not_found_in_delete_count_map}
use bsc_thesis.Ast.{CreateUntypedTableNode}
use bsc_thesis.Storage.{write_header, db_header}
use bsc_thesis.Context.{
  set_untyped_table, initialize_column_encoding_map, colcode_loop, recalculate_indices,
  initialize_primary_key_indices, erase_indices_for_table,
}
use bsc_thesis.Base.{map_set, map_insert, map_erase}
use bsc_thesis.Storage.Scan.{check_file_validity, extract_primary_keys_index, index_loop}
use bsc_thesis.Stream.{read}
use bsc_thesis.Handlers.{table_bytes}
use bsc_thesis.Stream.Bytes.{le_value}
use bsc_thesis.Storage.Deserializer.{deserialize_next_primary_key, record_head}
use bsc_thesis.Utils.Inserts.{add_modifier, modifiers_loop}
use bsc_thesis.Utils.Strings.{is_whitespace, starts_with, trim_left}
use bsc_thesis.Fixtures.Session.{users_world, users_stored}
use bsc_thesis.Handlers.{World}
use bsc_thesis.Handlers.Rows.{rows, remaining}
use bsc_thesis.Handlers.Stored.{IsStored}
use bsc_thesis.Delete.Offsets.{offset_of}
use bsc_thesis.Delete.Literals.{IsPlaced, Knows}
use bsc_thesis.Delete.Lookup.{delete_key_refines}
use bsc_thesis.Delete.Whole.{delete_data_refines}
use bsc_thesis.Stream.Bytes.{le_bytes}
use bsc_thesis.Stream.Reading.{good}
use bsc_thesis.Storage.{
  TableRecord, write_column_offset, write_column_offsets, write_string, write_strings, record_body,
  table_file,
}
use bsc_thesis.Storage.Scan.{Index}
use bsc_thesis.Storage.Scan.Index.{find_live}
use bsc_thesis.Context.{ExecutionContext, at_key, index_at}
use bsc_thesis.Fixtures.{
  with_id_3, aged_41, users-Decided, user, users_schema, users_colcodes, users, users-IsTable,
  session,
}
use bsc_thesis.Delete.{delete_by_index_lookup}
use bsc_thesis.Delete.Handler.{delete_data}
use bsc_thesis.Delete.ByKey.{without_key, delete_by_key}

abbrev ids : Index
ids = (codes "1", 40) ∷ (codes "3", 182) ∷ []

delete_by_key_example :
    (ctx' : ExecutionContext) × (index' : Index) × (delete_by_index_lookup false with_id_3
        (codes "users")
        session
        (good (table_file users) 32)
      ≡ done (ctx', good (table_file (without_key (codes "3") users)) (182 + 1)))
    × (index_at ctx' (codes "users") (codes "id") ≡ done index')
    × ((other : Text)
        → lookup other index' ≡ (if text_eq (codes "3") other then none else lookup other ids))
unfolding lookup text_eq index_at at_key remove_outer_quotes find_live record_body
    write_column_offset write_column_offsets write_string write_strings le_bytes
delete_by_key_example =
    delete_by_key false with_id_3 (codes "users") (codes "3") session ids 182 2 users refl refl refl
      refl (omega arith) users-IsTable

by_3 : IsKeyLookup with_id_3 (codes "3")
unfolding remove_outer_quotes
by_3 = record { resolved = refl; equality = refl; literal = refl }

delete_key_refines_example :
    (w' : World) × (rs' : List TableRecord) × (delete_data integers
        (λ a b. leb (3 * b) (10 * a))
        false
        (record { table_name = codes "users"; opt_where_node = some with_id_3 })
        users_world
      ≡ done w')
    × IsStored (codes "users") users_schema (codes "id") 2 w' rs'
    × (rows rs' ≡ remaining integers (some with_id_3) (rows users))
unfolding is_unique_equality_lookup is_eq text_eq contains live_keys find_live users_stored
    record_body write_column_offset write_column_offsets write_string write_strings le_bytes
delete_key_refines_example =
    delete_key_refines integers (λ a b. leb (3 * b) (10 * a)) false (codes "users") with_id_3
      users_schema (codes "id") (codes "3") 182 2 users_world users users_stored refl refl by_3
      (refl, (refl, tt)) refl (omega arith)

-- The age of a user stands behind the name.
age_of :
    (type : ℕ) (id name age : Text) (offset : ℕ)
    → offset ≡ length (write_strings (name ∷ []))
    → offset < 2 ^ 64
    → IsPlaced aged_41 (codes "id") 2 (user type id name age offset)
unfolding text_eq offset_of
age_of type id name age offset at_age small = inr (record {
  other = refl;
  front = name ∷ [];
  value = age;
  back = [];
  split = refl;
  resolved = refl;
  located = at_age;
  offsets = (omega arith, (small, tt));
})

known_age : Knows session (codes "users") (codes "age") (codes "id") 2 2
unfolding at_key lookup text_eq extract_primary_key_column is_primary_key get_modifiers
    mentions_default trim find
known_age = record {
  schema = users_schema;
  colcodes = users_colcodes;
  table = refl;
  columns = refl;
  short = omega arith;
  key = refl;
  codes = refl;
  code = refl;
}

delete_data_refines_example :
    (w' : World) × (rs' : List TableRecord) × (delete_data integers
        (λ a b. leb (3 * b) (10 * a))
        false
        (record { table_name = codes "users"; opt_where_node = some aged_41 })
        users_world
      ≡ done w')
    × IsStored (codes "users") users_schema (codes "id") 2 w' rs'
    × (rows rs' ≡ remaining integers (some aged_41) (rows users))
unfolding is_unique_equality_lookup text_eq users_stored write_strings write_string le_bytes
delete_data_refines_example =
    delete_data_refines integers (λ a b. leb (3 * b) (10 * a)) false
      (record { table_name = codes "users"; opt_where_node = some aged_41 }) users_schema
      (codes "id") 2 2 users_world users users_stored refl
      (
        (known_age, age_of 0 (codes "1") (codes "Ann") (codes "30") 11 refl (omega arith)),
        (
          (known_age, age_of 1 (codes "2") (codes "Bob") (codes "41") 11 refl (omega arith)),
          ((known_age, age_of 2 (codes "3") (codes "Cy") (codes "41") 10 refl (omega arith)), tt),
        ),
      )
      users-Decided (omega arith)

abbrev log_table : CreateUntypedTableNode
log_table = record {
  table_name = codes "log";
  columns = record { name = codes "id"; modifiers = codes "PRIMARY KEY" ∷ [] } ∷ [];
}

abbrev empty_world : World
empty_world = record {
  ctx = record {
    untyped_tables = [];
    table_colcodes = [];
    indices = [];
    delete_counter_per_table = [];
  };
  disk = record { tables = []; leftovers = []; metadata = [] };
}

abbrev log_world : World
log_world = record {
  ctx = record {
    untyped_tables = (codes "log", log_table.columns) ∷ [];
    table_colcodes = (codes "log", (codes "id", 0) ∷ []) ∷ [];
    indices = (codes "log", (codes "id", []) ∷ []) ∷ [];
    delete_counter_per_table = [];
  };
  disk = record {
    tables = (codes "log", write_header db_header) ∷ [];
    leftovers = [];
    metadata = (codes "log", metadata_text log_table.columns) ∷ [];
  };
}

created_then_delete_exits_example :
    delete_data integers
      (λ a b. leb b a)
      false
      (record { table_name = codes "log"; opt_where_node = none })
      log_world
    ≡ exited table_not_found_in_delete_count_map
unfolding create_new_table extract_primary_key_column lookup initialize_column_encoding_map
    set_untyped_table map_set colcode_loop recalculate_indices initialize_primary_key_indices
    check_file_validity read table_bytes ensure_table_file_exists map_insert write_header le_bytes
    le_value at_key map_erase text_eq erase_indices_for_table deserialize_next_primary_key
    record_head extract_primary_keys_index index_loop is_primary_key add_modifier get_modifiers
    mentions_default modifiers_loop find is_whitespace starts_with trim trim_left
created_then_delete_exits_example =
    created_then_delete_exits integers (λ a b. leb b a) log_table (codes "id") 0 empty_world
      log_world refl refl (omega arith) refl refl refl
