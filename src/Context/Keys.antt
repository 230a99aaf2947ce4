-- ===== src/Context/Keys.antt =====
-- The in-memory primary key index: upsertPrimaryKeyIndex, eraseKeyFromIndex and
-- recalculateIndicesForTable of DBEngine/execution_context.
use bsc_thesis.Base.{
  ℕ, ◌+◌, ◌^◌, ◌<◌, ◌≡◌, refl, ◌∙◌, Bool, false, List, [], none, some, Text, text_eq, text_eq_refl,
  ◌==◌, if◌then◌else◌, length, lookup, map_insert, map_set, map_erase, lookup-map_set,
  lookup-map_erase, lookup-map_insert_fresh, arith,
}
use bsc_thesis.Status.{done, ◌>>=◌, >>=-eq-done}
use bsc_thesis.Utils.Columns.{Schema, extract_primary_key_column}
use bsc_thesis.Stream.{open_stream}
use bsc_thesis.Storage.{TableRecord, table_file, u64_sub}
use bsc_thesis.Storage.Scan.{Index, check_file_validity, extract_primary_keys_index}
use bsc_thesis.Storage.Scan.Index.{find_live}
use bsc_thesis.Storage.Table.{scan_fuel, index_table, IsTable}
use bsc_thesis.Storage.Table.Contents.{index_table_lem}
use bsc_thesis.Context.{
  ExecutionContext, at_key, index_at, with_index, upsert_primary_key_index, erase_key_from_index,
  recalculate_indices, initialize_primary_key_indices, erase_indices_for_table,
}

pub at_key-found :
    {A : Type 0} (k : Text) (a : A) (m : List (Text × A))
    → lookup k m ≡ some a
    → at_key k m ≡ done a
unfolding at_key
at_key-found k a m h = rw (h, at_key) refl

at_key-map_set :
    {A : Type 0} (k : Text) (a : A) (m : List (Text × A)) → at_key k (map_set k a m) ≡ done a
at_key-map_set k a m =
    at_key-found k a (map_set k a m) (lookup-map_set k k a m ∙ rw (text_eq_refl k) refl)

pub index_at-with_index :
    (ctx : ExecutionContext) (table_name col_name : Text) (index : Index)
    → index_at (with_index ctx table_name col_name index) table_name col_name ≡ done index
unfolding index_at with_index
index_at-with_index ctx table_name col_name index =
    rw (at_key-map_set table_name, at_key-map_set col_name index) refl

-- Writing a key into an index that is there ends; from then on the index gives the new offset for
-- that key and what it gave before for every other.
upsert_then_find :
    (ctx : ExecutionContext) (table_name col_name key : Text) (offset : ℕ) (index : Index)
    → index_at ctx table_name col_name ≡ done index
    → (ctx' : ExecutionContext) × (index' : Index) × (upsert_primary_key_index ctx table_name
          col_name key offset
        ≡ done ctx')
      × (index_at ctx' table_name col_name ≡ done index')
      × ((other : Text)
          → lookup other index' ≡ (if text_eq key other then some offset else lookup other index))
unfolding upsert_primary_key_index
upsert_then_find ctx table_name col_name key offset index h = (
  with_index ctx table_name col_name (map_set key offset index),
  map_set key offset index,
  rw h refl,
  index_at-with_index ctx table_name col_name (map_set key offset index),
  λ other. lookup-map_set other key offset index,
)

-- Erasing a key that the index has, at an offset other than 0, ends; from then on the index misses
-- that key and gives what it gave before for every other.
pub erase_then_find :
    (is_silent_mode : Bool) (ctx : ExecutionContext) (table_name col_name key : Text) (offset : ℕ)
    (index : Index)
    → index_at ctx table_name col_name ≡ done index
    → lookup key index ≡ some offset
    → 0 < offset
    → (ctx' : ExecutionContext) × (index' : Index) × (erase_key_from_index is_silent_mode ctx
          table_name col_name key
        ≡ done ctx')
      × (index_at ctx' table_name col_name ≡ done index')
      × ((other : Text)
          → lookup other index' ≡ (if text_eq key other then none else lookup other index))
unfolding erase_key_from_index
erase_then_find is_silent_mode ctx table_name col_name key offset index h found positive =
    let nonzero : (offset == 0) ≡ false = ground arith in
    (
      with_index ctx table_name col_name (map_erase key index),
      map_erase key index,
      rw (h, at_key-found key offset index found, nonzero) refl,
      index_at-with_index ctx table_name col_name (map_erase key index),
      λ other. lookup-map_erase other key index,
    )

-- Recalculating the indices of a table whose file is well formed and whose schema has a primary key
-- ends with an index that has a key exactly where a live record of the file has it, at the first
-- such record.
pub recalculated_index :
    (is_silent_mode : Bool) (ctx : ExecutionContext) (table_name pk_col_name : Text)
    (schema : Schema) (n : ℕ) (rs : List TableRecord)
    → lookup table_name ctx.untyped_tables ≡ some schema
    → extract_primary_key_column schema ≡ done pk_col_name
    → length schema ≡ n + 1
    → n < 2 ^ 63
    → IsTable n rs
    → (ctx' : ExecutionContext) × (index : Index) × (recalculate_indices is_silent_mode ctx
          table_name
          (table_file rs)
        ≡ done ctx')
      × (index_at ctx' table_name pk_col_name ≡ done index)
      × ((key : Text) → lookup key index ≡ find_live key 32 rs)
unfolding recalculate_indices initialize_primary_key_indices erase_indices_for_table index_at
recalculated_index is_silent_mode ctx table_name pk_col_name schema n rs known pk columns small wf =
    let (index, ends, agrees) = index_table_lem is_silent_mode n rs wf in
    let ends' : (check_file_validity is_silent_mode (open_stream (table_file rs)) >>= λ s.
    extract_primary_keys_index (scan_fuel (table_file rs)) n s)
        ≡ done index =
      unfold index_table in ends in
    let (s, checks, extracts) =
      >>=-eq-done (check_file_validity is_silent_mode (open_stream (table_file rs)))
        (λ s. extract_primary_keys_index (scan_fuel (table_file rs)) n s) ends' in
    let count : u64_sub (length schema) 1 ≡ n = omega (arith, columns) in
    let no_columns : List (Text × Index) = [] in
    let emptied : at_key table_name
          (map_insert table_name no_columns (map_erase table_name ctx.indices))
        ≡ done no_columns =
      at_key-found table_name [] _ (
        lookup-map_insert_fresh table_name [] _ (
          lookup-map_erase table_name table_name ctx.indices
          ∙ rw (text_eq_refl table_name) refl)) in
    let columns' : List (Text × Index) = map_insert pk_col_name index no_columns in
    let rebuilt : List (Text × List (Text × Index)) =
      map_insert table_name no_columns (map_erase table_name ctx.indices) in
    (
      record ctx { indices = map_set table_name columns' rebuilt },
      index,
      rw (checks, at_key-found table_name schema _ known, pk, emptied, count, extracts) refl,
      rw (at_key-map_set table_name columns' rebuilt) (
          at_key-found pk_col_name index _
            (lookup-map_insert_fresh pk_col_name index [] (unfold lookup in refl))),
      agrees,
    )
