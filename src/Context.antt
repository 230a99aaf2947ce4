-- ===== src/Context.antt =====
-- DBEngine/execution_context: the state that the statements of a session share. The singleton, its
-- mutex and the destruction of the schemas are not modelled. The pointers inside `indices` are
-- never null: each is made by std::make_unique where it is inserted.
pub mod Keys
pub mod Metadata
pub mod Colcodes
mod Samples
use bsc_thesis.Base.{
  ℕ, ◌+◌, ◌%◌, ◌^◌, Bool, List, [], ◌∷◌, Option, none, some, Text, ◌==◌, if◌then◌else◌, length,
  lookup, map_insert, map_set, map_erase, map,
}
use bsc_thesis.Status.{
  Outcome, done, threw, undefined, ◌>>=◌, ◌>>◌, handle_fatal_error, hash_index_nullptr,
  colcode_table_does_not_exist, col_offset_region_has_more_cols_than_allowed,
  table_not_found_in_delete_count_map,
}
use bsc_thesis.Utils.Columns.{Schema, extract_primary_key_column}
use bsc_thesis.Stream.{open_stream}
use bsc_thesis.Storage.{u64_sub}
use bsc_thesis.Storage.Scan.{Index, check_file_validity, extract_primary_keys_index}
use bsc_thesis.Storage.Table.{scan_fuel}

pub record ExecutionContext : Type 0 where
  pub untyped_tables : List (Text × Schema)
  pub table_colcodes : List (Text × List (Text × ℕ))
  pub indices : List (Text × List (Text × Index))
  pub delete_counter_per_table : List (Text × ℕ)

-- std::unordered_map::at
unfoldable pub at_key {ℓ} : {A : Type ℓ} → Text → List (Text × A) → Outcome A
at_key key m = elim (lookup key m) [ none ↦ threw | some a ↦ done a ]

-- getHashmapIndices()->at(table_name)->at(col_name)
unfoldable pub index_at : ExecutionContext → Text → Text → Outcome Index
index_at ctx table_name col_name =
    at_key table_name ctx.indices >>= λ columns. at_key col_name columns

-- The context with another index at that place, both keys being there.
unfoldable pub with_index : ExecutionContext → Text → Text → Index → ExecutionContext
with_index ctx table_name col_name index =
    let columns = elim (lookup table_name ctx.indices) as (λ _. List (Text × Index)) [
      | none ↦ []
      | some columns ↦ columns
    ] in
    record ctx { indices = map_set table_name (map_set col_name index columns) ctx.indices }

-- getDeleteCountForTable; where handleFatalError returns, the end iterator is dereferenced.
unfoldable pub get_delete_count : Bool → ExecutionContext → Text → Outcome ℕ
get_delete_count is_silent_mode ctx table_name =
    elim (lookup table_name ctx.delete_counter_per_table) [
      | none ↦ handle_fatal_error is_silent_mode table_not_found_in_delete_count_map >> undefined
      | some count ↦ done count
    ]

-- setDeleteCountForTable
unfoldable pub set_delete_count : ExecutionContext → Text → ℕ → ExecutionContext
set_delete_count ctx table_name new_delete_count = record ctx {
  delete_counter_per_table = map_set table_name new_delete_count ctx.delete_counter_per_table;
}

-- setUntypedTable
unfoldable pub set_untyped_table : ExecutionContext → Text → Schema → ExecutionContext
set_untyped_table ctx table_name coldefs = record ctx {
  untyped_tables = map_set table_name coldefs ctx.untyped_tables;
}

-- eraseTable
unfoldable pub erase_table : ExecutionContext → Text → ExecutionContext
erase_table ctx table_name = record ctx { untyped_tables = map_erase table_name ctx.untyped_tables }

-- eraseInMemoryHashMapIndicesForTable
unfoldable pub erase_indices_for_table : ExecutionContext → Text → ExecutionContext
erase_indices_for_table ctx table_name = record ctx { indices = map_erase table_name ctx.indices }

-- eraseKeyFromIndex; an offset of 0 counts as a missing index.
unfoldable pub erase_key_from_index :
    Bool → ExecutionContext → Text → Text → Text → Outcome ExecutionContext
erase_key_from_index is_silent_mode ctx table_name col_name key_value =
    index_at ctx table_name col_name >>= λ index. at_key key_value index >>= λ offset.
    if offset == 0
    then handle_fatal_error is_silent_mode hash_index_nullptr >> done ctx
    else done (with_index ctx table_name col_name (map_erase key_value index))

-- upsertPrimaryKeyIndex
unfoldable pub upsert_primary_key_index :
    ExecutionContext → Text → Text → Text → ℕ → Outcome ExecutionContext
upsert_primary_key_index ctx table_name pk_col_name pk_literal offset =
    index_at ctx table_name pk_col_name >>= λ index.
    done (with_index ctx table_name pk_col_name (map_set pk_literal offset index))

-- The loop of initializeColumnEncodingMapForTable: col_code is a std::uint8_t, and the error for a
-- code that has wrapped around comes before the next column takes it.
unfoldable pub colcode_loop : Bool → Schema → ℕ → List (Text × ℕ) → Outcome (List (Text × ℕ))
colcode_loop is_silent_mode [] col_code colcodes = done colcodes
colcode_loop is_silent_mode (col ∷ cols) col_code colcodes =
    let next_code = (col_code + 1) % 2 ^ 8 in
    let rest = colcode_loop is_silent_mode cols next_code (map_set col.name col_code colcodes) in
    if next_code == 0
    then handle_fatal_error is_silent_mode col_offset_region_has_more_cols_than_allowed >> rest
    else rest

-- initializeColumnEncodingMapForTable
unfoldable pub initialize_column_encoding_map :
    Bool → ExecutionContext → Text → Outcome ExecutionContext
initialize_column_encoding_map is_silent_mode ctx table_name =
    elim (lookup table_name ctx.untyped_tables) [
      | none ↦ handle_fatal_error is_silent_mode colcode_table_does_not_exist >> undefined
      | some schema ↦ colcode_loop is_silent_mode schema 0 [] >>= λ colcodes.
          done (record ctx { table_colcodes = map_set table_name colcodes ctx.table_colcodes })
    ]

-- initializePrimaryKeyIndicesForTable, on what the table file holds. The file is there and can be
-- opened: ensureTableFileExists has been called.
unfoldable pub initialize_primary_key_indices :
    Bool → ExecutionContext → Text → List ℕ → Outcome ExecutionContext
initialize_primary_key_indices is_silent_mode ctx table_name file =
    let ctx1 = record ctx { indices = map_insert table_name [] ctx.indices } in
    check_file_validity is_silent_mode (open_stream file) >>= λ s.
    at_key table_name ctx1.untyped_tables >>= λ schema.
    extract_primary_key_column schema >>= λ pk_col_name.
    at_key table_name ctx1.indices >>= λ columns.
    extract_primary_keys_index (scan_fuel file) (u64_sub (length schema) 1) s >>= λ index.
    done (record ctx1 {
      indices = map_set table_name (map_insert pk_col_name index columns) ctx1.indices;
    })

-- recalculateIndicesForTable
unfoldable pub recalculate_indices :
    Bool → ExecutionContext → Text → List ℕ → Outcome ExecutionContext
recalculate_indices is_silent_mode ctx table_name file =
    initialize_primary_key_indices is_silent_mode (erase_indices_for_table ctx table_name)
      table_name file

-- initializeDeleteCounters
unfoldable pub initialize_delete_counters : ExecutionContext → ExecutionContext
initialize_delete_counters ctx = record ctx {
  delete_counter_per_table = map (λ table. (table.0, 0)) ctx.untyped_tables;
}
