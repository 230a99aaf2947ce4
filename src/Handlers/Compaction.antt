-- ===== src/Handlers/Compaction.antt =====
-- The end of updateData and deleteData (DBEngine/filehandler/handlers): a compaction where it is due.
use bsc_thesis.Base.{
  ℕ, ◌+◌, ◌≡◌, refl, ◌∙◌, Bool, List, some, Text, length, arith, Bool-cases, inl, inr, lookup,
  map_set, map_erase, text_eq_refl, lookup-map_set, lookup-map_erase,
}
use bsc_thesis.Status.{done}
use bsc_thesis.Utils.Columns.{Schema}
use bsc_thesis.Storage.{u64, u64_sub, TableRecord, table_file}
use bsc_thesis.Storage.Scan.Count.{tombstone_count}
use bsc_thesis.Storage.Scan.Compact.{live_records}
use bsc_thesis.Storage.Table.{count_table}
use bsc_thesis.Storage.Table.Contents.{compact_table_lem, count_table_lem, live_records-IsTable}
use bsc_thesis.Context.{ExecutionContext, get_delete_count, set_delete_count}
use bsc_thesis.Context.Keys.{at_key-found}
use bsc_thesis.Handlers.{Disk, World, table_bytes, compact_and_reset, compact_if_needed}
use bsc_thesis.Handlers.Rows.{rows, rows-live}
use bsc_thesis.Handlers.Stored.{IsStored, reindexed-IsStored, table_bytes-found}

get_delete_count-found :
    (is_silent_mode : Bool) (ctx : ExecutionContext) (table_name : Text) (count : ℕ)
    → lookup table_name ctx.delete_counter_per_table ≡ some count
    → get_delete_count is_silent_mode ctx table_name ≡ done count
unfolding get_delete_count
get_delete_count-found is_silent_mode ctx table_name count h = rw (h, get_delete_count) refl

module _ (is_silent_mode : Bool) (table_name primary_key : Text) (schema : Schema) (n : ℕ)
    (w : World) (rs : List TableRecord)
    (stored : IsStored table_name schema primary_key n w rs) where
  abbrev reset : ExecutionContext
  reset = set_delete_count w.ctx table_name 0

  abbrev compacted_disk : Disk
  compacted_disk = record w.disk {
    tables = map_set table_name (table_file (live_records rs)) w.disk.tables;
    leftovers = map_erase table_name w.disk.leftovers;
  }

  compacted_bytes : table_bytes table_name compacted_disk ≡ table_file (live_records rs)
  compacted_bytes =
      table_bytes-found table_name (table_file (live_records rs)) compacted_disk
        (lookup-map_set table_name table_name _ w.disk.tables ∙ rw (text_eq_refl table_name) refl)

  reset_count : lookup table_name reset.delete_counter_per_table ≡ some 0
  unfolding set_delete_count
  reset_count =
      lookup-map_set table_name table_name 0 w.ctx.delete_counter_per_table
      ∙ rw (text_eq_refl table_name) refl

  reset_known : lookup table_name reset.untyped_tables ≡ some schema
  unfolding set_delete_count
  reset_known = stored.known

  compacted :
      (w' : World) × (compact_and_reset is_silent_mode table_name w ≡ done w')
      × IsStored table_name schema primary_key n w' (live_records rs)
  unfolding compact_and_reset
  compacted =
      let others : u64_sub (length schema) 1 ≡ n = omega (arith, stored.columns, stored.small) in
      let (ctx', run, stored') =
        reindexed-IsStored is_silent_mode table_name primary_key schema n 0 reset compacted_disk
          (live_records rs) reset_known stored.key stored.columns stored.small reset_count
          compacted_bytes
          (lookup-map_erase table_name table_name w.disk.leftovers
            ∙ rw (text_eq_refl table_name) refl)
          (live_records-IsTable n rs stored.wf) in
      (
        record { ctx = ctx'; disk = compacted_disk },
        rw
            (
              at_key-found table_name schema w.ctx.untyped_tables stored.known,
              stored.bytes,
              stored.fresh,
              others,
              compact_table_lem is_silent_mode n rs stored.wf,
              run,
            )
            refl,
        stored',
      )

  -- Whatever the comparison with the threshold says, a compaction check of a stored table ends, the table
  -- is stored again, and its rows are the same.
  pub compact_if_needed_lem :
      (is_above_threshold : ℕ → ℕ → Bool)
      → (w' : World) × (rs' : List TableRecord) × (compact_if_needed is_silent_mode table_name
            is_above_threshold primary_key w
          ≡ done w')
        × IsStored table_name schema primary_key n w' rs'
        × (rows rs' ≡ rows rs)
  unfolding compact_if_needed
  compact_if_needed_lem is_above_threshold =
      let deletes =
        get_delete_count-found is_silent_mode w.ctx table_name stored.count stored.counted in
      let counts : count_table is_silent_mode (table_bytes table_name w.disk)
          ≡ done (tombstone_count rs, length rs) =
        rw stored.bytes (count_table_lem is_silent_mode n rs stored.wf) in
      elim (Bool-cases
        (is_above_threshold stored.count (u64 (1 + length stored.index + stored.count)))) [
          | inl likely ↦ elim (Bool-cases (is_above_threshold (tombstone_count rs) (length rs))) [
            | inl due ↦ (
              compacted.0,
              live_records rs,
              rw (stored.indexed, deletes, likely, counts, due) compacted.1,
              compacted.2,
              rows-live rs,
            )
            | inr few ↦
                (w, rs, rw (stored.indexed, deletes, likely, counts, few) refl, stored, refl)
          ]
          | inr unlikely ↦ (w, rs, rw (stored.indexed, deletes, unlikely) refl, stored, refl)
        ]
