-- ===== src/Delete/Lookup.antt =====
-- deleteData (DBEngine/filehandler/handlers/delete.cpp) on a table of the session, where it looks a key up.
use bsc_thesis.Base.{
  ℕ, ◌+◌, ◌^◌, ◌<◌, ◌≡◌, sym, ap, ◌∙◌, Bool, true, false, List, none, some, Text, text_eq, arith,
  if◌then◌else◌, Bool-cases, inl, inr, lookup, ◌==◌,
}
use bsc_thesis.Status.{done, ◌>>◌, handle_fatal_error, hash_index_nullptr, >>=-eq-done, done_inj}
use bsc_thesis.Utils.Strings.{remove_outer_quotes}
use bsc_thesis.Stream.{Stream}
use bsc_thesis.Ast.{WhereNode}
use bsc_thesis.Utils.Columns.{Schema, Distinct}
use bsc_thesis.Condition.{Doubles}
use bsc_thesis.Strategy.{is_unique_equality_lookup}
use bsc_thesis.Stream.Reading.{good}
use bsc_thesis.Storage.{u64, TableRecord, table_file}
use bsc_thesis.Storage.Scan.Index.{find_live}
use bsc_thesis.Storage.Table.{check_fstream_validity_lem}
use bsc_thesis.Context.{
  ExecutionContext, with_index, set_delete_count, index_at, at_key, erase_key_from_index,
}
use bsc_thesis.Context.Keys.{at_key-found}
use bsc_thesis.Marking.WholeFile.{get_count, count_after}
use bsc_thesis.Select.Indexed.{live_keys, IsKeyLookup}
use bsc_thesis.Handlers.Rows.{rows, remaining}
use bsc_thesis.Delete.{delete_by_index_lookup}
use bsc_thesis.Delete.ByKey.{without_key, delete_by_key}
use bsc_thesis.Handlers.{World, with_table}
use bsc_thesis.Handlers.Stored.{IsStored, table_bytes-with_table}
use bsc_thesis.Handlers.Compaction.{compact_if_needed_lem}
use bsc_thesis.Delete.Handler.{delete_by_index, delete_branches, delete_data}
use bsc_thesis.Delete.Keyed.{
  without_key-IsTable, find_live-positive, find_live-without_key, rows-without_key,
}

-- Erasing a key from the index changes nothing else of the context.
abbrev Keeps : ExecutionContext → ExecutionContext → Type 0
Keeps ctx ctx' =
    (ctx'.untyped_tables ≡ ctx.untyped_tables)
    × (ctx'.delete_counter_per_table ≡ ctx.delete_counter_per_table)

same-Keeps : (ctx ctx' : ExecutionContext) → ctx ≡ ctx' → Keeps ctx ctx'
same-Keeps ctx ctx' e =
    (sym (ap (λ c. c.untyped_tables) e), sym (ap (λ c. c.delete_counter_per_table) e))

nullptr-Keeps :
    (is_silent_mode : Bool) (ctx ctx' : ExecutionContext)
    → (handle_fatal_error is_silent_mode hash_index_nullptr >> done ctx) ≡ done ctx'
    → Keeps ctx ctx'
unfolding handle_fatal_error
nullptr-Keeps true ctx ctx' h = same-Keeps ctx ctx' (done_inj h)
nullptr-Keeps false ctx ctx' h = absurd cc

erase-Keeps :
    (is_silent_mode : Bool) (ctx ctx' : ExecutionContext) (table_name col_name key : Text)
    → erase_key_from_index is_silent_mode ctx table_name col_name key ≡ done ctx'
    → Keeps ctx ctx'
unfolding erase_key_from_index with_index
erase-Keeps is_silent_mode ctx ctx' table_name col_name key h =
    let (index, _, h1) = >>=-eq-done (index_at ctx table_name col_name) _ h in
    let (offset, _, h2) = >>=-eq-done (at_key key index) _ h1 in
    elim (Bool-cases (offset == 0)) [
      | inl null ↦ nullptr-Keeps is_silent_mode ctx ctx' (rw null at h2)
      | inr there ↦
          let e = done_inj (rw there at h2) in
          (sym (ap (λ c. c.untyped_tables) e), sym (ap (λ c. c.delete_counter_per_table) e))
    ]

lookup-Keeps :
    (is_silent_mode : Bool) (clause : WhereNode) (table_name : Text) (ctx ctx' : ExecutionContext)
    (s s' : Stream)
    → delete_by_index_lookup is_silent_mode clause table_name ctx s ≡ done (ctx', s')
    → Keeps ctx ctx'
unfolding delete_by_index_lookup
lookup-Keeps is_silent_mode clause table_name ctx ctx' s s' h =
    let key = remove_outer_quotes clause.condition.literal_value.value in
    let col_name = clause.condition.col_name in
    let (index, _, h1) = >>=-eq-done (index_at ctx table_name col_name) _ h in
    let (offset, _, h2) = >>=-eq-done (at_key key index) _ h1 in
    let (ctx1, erased, h3) =
      >>=-eq-done (erase_key_from_index is_silent_mode ctx table_name col_name key) _ h2 in
    let same : ctx1 ≡ ctx' = ap (λ p. p.0) (done_inj h3) in
    rw same at (erase-Keeps is_silent_mode ctx ctx1 table_name col_name key erased)

-- A DELETE of a key that a live record has, on a stored table whose primary key stands first in the file's
-- rows, without two live records of one key and with a delete counter that does not overflow, ends in both
-- modes; the table is stored again, its index with it, and its rows are those of before without this key.
pub delete_key_refines :
    (doubles : Doubles) (is_above_threshold : ℕ → ℕ → Bool) (is_silent_mode : Bool)
    (table_name : Text) (clause : WhereNode) (schema : Schema) (primary_key key : Text)
    (offset n : ℕ) (w : World) (rs : List TableRecord)
    (stored : IsStored table_name schema primary_key n w rs)
    → is_unique_equality_lookup (some clause) primary_key ≡ true
    → clause.condition.col_name ≡ primary_key
    → IsKeyLookup clause key
    → Distinct (live_keys rs)
    → find_live key 32 rs ≡ some offset
    → stored.count + 1 < 2 ^ 64
    → (w' : World) × (rs' : List TableRecord) × (delete_data doubles is_above_threshold
          is_silent_mode
          (record { table_name = table_name; opt_where_node = some clause })
          w
        ≡ done w')
      × IsStored table_name schema primary_key n w' rs'
      × (rows rs' ≡ remaining doubles (some clause) (rows rs))
unfolding delete_data delete_branches delete_by_index set_delete_count index_at
delete_key_refines doubles is_above_threshold is_silent_mode table_name clause schema primary_key
      key offset n w rs stored unique column keyed distinct found small =
    let rs1 = without_key key rs in
    let (ctx1, index1, looked_up, indexed1, others) =
      delete_by_key is_silent_mode clause table_name key w.ctx stored.index offset n rs
        keyed.literal (rw column stored.indexed) (stored.agrees key ∙ found) found
        (omega (arith, find_live-positive key 32 rs offset found)) stored.wf in
    let (tables, counters) =
      lookup-Keeps is_silent_mode clause table_name w.ctx ctx1 (good (table_file rs) 32)
        (good (table_file rs1) (offset + 1)) looked_up in
    let counted1 : lookup table_name ctx1.delete_counter_per_table ≡ some stored.count =
      ap (λ m. lookup table_name m) counters ∙ stored.counted in
    let ctx2 = set_delete_count ctx1 table_name (u64 (stored.count + 1)) in
    let disk = with_table table_name (table_file rs1) w.disk in
    let stored2 : IsStored table_name schema primary_key n (record { ctx = ctx2; disk = disk })
        rs1 =
      record {
        known = ap (λ m. lookup table_name m) tables ∙ stored.known;
        key = stored.key;
        columns = stored.columns;
        small = stored.small;
        count = stored.count + 1;
        counted = count_after ctx1 table_name stored.count small;
        bytes = table_bytes-with_table table_name (table_file rs1) w.disk;
        fresh = stored.fresh;
        wf = without_key-IsTable key n rs stored.wf;
        index = index1;
        indexed = rw column at indexed1;
        agrees = λ k.
            others k
            ∙ (ap (λ found. if text_eq key k then none else found) (stored.agrees k)
                ∙ sym (find_live-without_key key k 32 rs distinct));
      } in
    let (w', rs', ended, stored', same) =
      compact_if_needed_lem is_silent_mode table_name primary_key schema n
        (record { ctx = ctx2; disk = disk }) rs1 stored2 is_above_threshold in
    (
      w',
      rs',
      rw
          (
            stored.bytes,
            check_fstream_validity_lem is_silent_mode rs,
            at_key-found table_name schema w.ctx.untyped_tables stored.known,
            stored.key,
            unique,
            looked_up,
            get_count is_silent_mode ctx1 table_name stored.count counted1,
          )
          ended,
      stored',
      same ∙ rows-without_key doubles clause key keyed rs distinct,
    )
