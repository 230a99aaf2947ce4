-- ===== src/Handlers/Stored.antt =====
-- A table of the session: what the context (DBEngine/execution_context) and the data directory hold of
-- it between two statements.
use bsc_thesis.Base.{
  ℕ, ◌+◌, ◌^◌, ◌<◌, ◌≡◌, refl, sym, ap, ◌∙◌, Bool, List, [], none, some, Text, length, arith,
  map_insert, map_erase, lookup, text_eq_refl, lookup-map_set,
}
use bsc_thesis.Status.{done, >>=-eq-done, done_inj}
use bsc_thesis.Utils.Columns.{Schema, extract_primary_key_column}
use bsc_thesis.Stream.{open_stream}
use bsc_thesis.Storage.{u64_sub, TableRecord, table_file}
use bsc_thesis.Storage.Scan.{Index, check_file_validity, extract_primary_keys_index}
use bsc_thesis.Storage.Scan.Index.{find_live}
use bsc_thesis.Storage.Table.{IsTable, scan_fuel}
use bsc_thesis.Context.{
  ExecutionContext, at_key, index_at, recalculate_indices, initialize_primary_key_indices,
  erase_indices_for_table,
}
use bsc_thesis.Context.Keys.{recalculated_index}
use bsc_thesis.Handlers.{Disk, World, table_bytes, with_table}

-- The context knows the table's schema, key and delete counter; the table file holds the records `rs`;
-- no compaction left a file; the index has the keys of the live records.
pub record IsStored (table_name : Text) (schema : Schema) (primary_key : Text) (n : ℕ) (w : World)
    (rs : List TableRecord) : Type 0 where
  pub known : lookup table_name w.ctx.untyped_tables ≡ some schema
  pub key : extract_primary_key_column schema ≡ done primary_key
  pub columns : length schema ≡ n + 1
  pub small : n < 2 ^ 60
  pub count : ℕ
  pub counted : lookup table_name w.ctx.delete_counter_per_table ≡ some count
  pub bytes : table_bytes table_name w.disk ≡ table_file rs
  pub fresh : lookup table_name w.disk.leftovers ≡ none
  pub wf : IsTable n rs
  pub index : Index
  pub indexed : index_at w.ctx table_name primary_key ≡ done index
  pub agrees : (k : Text) → lookup k index ≡ find_live k 32 rs

-- Reading the index again changes nothing else of the context.
pub recalculate_keeps :
    (is_silent_mode : Bool) (ctx ctx' : ExecutionContext) (table_name : Text) (file : List ℕ)
    → recalculate_indices is_silent_mode ctx table_name file ≡ done ctx'
    → (ctx'.untyped_tables ≡ ctx.untyped_tables)
      × (ctx'.table_colcodes ≡ ctx.table_colcodes)
      × (ctx'.delete_counter_per_table ≡ ctx.delete_counter_per_table)
unfolding recalculate_indices initialize_primary_key_indices erase_indices_for_table
recalculate_keeps is_silent_mode ctx ctx' table_name file h =
    let no_columns : List (Text × Index) = [] in
    let (s, _, h1) = >>=-eq-done (check_file_validity is_silent_mode (open_stream file)) _ h in
    let (schema, _, h2) = >>=-eq-done (at_key table_name ctx.untyped_tables) _ h1 in
    let (key, _, h3) = >>=-eq-done (extract_primary_key_column schema) _ h2 in
    let (columns, _, h4) =
      >>=-eq-done
        (at_key table_name (map_insert table_name no_columns (map_erase table_name ctx.indices))) _
        h3 in
    let (index, _, h5) =
      >>=-eq-done (extract_primary_keys_index (scan_fuel file) (u64_sub (length schema) 1) s) _
        h4 in
    let same = sym (done_inj h5) in
    (
      ap (λ c. c.untyped_tables) same,
      ap (λ c. c.table_colcodes) same,
      ap (λ c. c.delete_counter_per_table) same,
    )

pub table_bytes-found :
    (table_name : Text) (bytes : List ℕ) (disk : Disk)
    → lookup table_name disk.tables ≡ some bytes
    → table_bytes table_name disk ≡ bytes
unfolding table_bytes
table_bytes-found table_name bytes disk h = rw (h, table_bytes) refl

pub table_bytes-with_table :
    (table_name : Text) (bytes : List ℕ) (disk : Disk)
    → table_bytes table_name (with_table table_name bytes disk) ≡ bytes
table_bytes-with_table table_name bytes disk =
    table_bytes-found table_name bytes (with_table table_name bytes disk)
      (lookup-map_set table_name table_name bytes disk.tables ∙ rw (text_eq_refl table_name) refl)

-- The table is stored once its index was read again.
pub reindexed-IsStored :
    (is_silent_mode : Bool) (table_name primary_key : Text) (schema : Schema) (n count : ℕ)
    (ctx : ExecutionContext) (disk : Disk) (rs : List TableRecord)
    → lookup table_name ctx.untyped_tables ≡ some schema
    → extract_primary_key_column schema ≡ done primary_key
    → length schema ≡ n + 1
    → n < 2 ^ 60
    → lookup table_name ctx.delete_counter_per_table ≡ some count
    → table_bytes table_name disk ≡ table_file rs
    → lookup table_name disk.leftovers ≡ none
    → IsTable n rs
    → (ctx' : ExecutionContext) × (recalculate_indices is_silent_mode ctx table_name (table_file rs)
        ≡ done ctx')
      × IsStored table_name schema primary_key n (record { ctx = ctx'; disk = disk }) rs
reindexed-IsStored is_silent_mode table_name primary_key schema n count ctx disk rs known key
      columns small counted bytes fresh wf =
    let (ctx', index, run, indexed, agrees) =
      recalculated_index is_silent_mode ctx table_name primary_key schema n rs known key columns
        (omega (arith, small)) wf in
    let (tables, _, counters) =
      recalculate_keeps is_silent_mode ctx ctx' table_name (table_file rs) run in
    (
      ctx',
      run,
      record {
        known = ap (λ m. lookup table_name m) tables ∙ known;
        key = key;
        columns = columns;
        small = small;
        count = count;
        counted = ap (λ m. lookup table_name m) counters ∙ counted;
        bytes = bytes;
        fresh = fresh;
        wf = wf;
        index = index;
        indexed = indexed;
        agrees = agrees;
      },
    )
