-- ===== src/Handlers/Samples.antt =====
-- The handlers on the users table.
use bsc_thesis.Base.{
  ℕ, ◌≡◌, refl, false, true, Bool, List, [], ◌∷◌, ◌++◌, none, codes, text_eq, map, lookup, arith,
  leb, ◌*◌,
}
use bsc_thesis.Status.{done}
use bsc_thesis.Utils.Strings.{remove_outer_quotes, trim, find}
use bsc_thesis.Utils.Inserts.{get_modifiers, mentions_default, get_default_value}
use bsc_thesis.Utils.Columns.{contains, is_primary_key}
use bsc_thesis.Stream.Bytes.{le_bytes}
use bsc_thesis.Storage.{
  TableRecord, write_header, write_column_offset, write_column_offsets, write_string, write_strings,
  record_body, record_bytes, records_bytes, table_file,
}
use bsc_thesis.Storage.Serializer.{
  colcode_at, pk_loop, find_pk_idx, is_empty_literal, final_literal, column_step, serialize_columns,
  with_key, normalized_record,
}
use bsc_thesis.Storage.Serializer.Contents.{cell_text, all_true, key_first}
use bsc_thesis.Select.Indexed.{live_keys}
use bsc_thesis.Fixtures.{users, users_schema, users_colcodes, new_user}
use bsc_thesis.Fixtures.Session.{users_world, users_stored, users-HasKey}
use bsc_thesis.Handlers.{World, insert_data, compact_if_needed}
use bsc_thesis.Handlers.Rows.{rows}
use bsc_thesis.Handlers.Stored.{IsStored}
use bsc_thesis.Handlers.NewRows.{Row, nodes_of}
use bsc_thesis.Handlers.Insert.{insert_data_refines}
use bsc_thesis.Handlers.Compaction.{compact_if_needed_lem}

-- tombstones / total >= 0.3
abbrev at_least_three_tenths : ℕ → ℕ → Bool
at_least_three_tenths a b = leb (3 * b) (10 * a)

compact_if_needed_lem_example :
    (w' : World) × (rs' : List TableRecord) × (compact_if_needed false
        (codes "users")
        at_least_three_tenths
        (codes "id")
        users_world
      ≡ done w')
    × IsStored (codes "users") users_schema (codes "id") 2 w' rs'
    × (rows rs' ≡ rows users)
compact_if_needed_lem_example =
    compact_if_needed_lem false (codes "users") (codes "id") users_schema 2 users_world users
      users_stored at_least_three_tenths

-- (4, 'Di', 22)
di : Row users_schema users_colcodes
unfolding normalized_record with_key serialize_columns column_step final_literal is_empty_literal
    find_pk_idx pk_loop is_primary_key get_modifiers mentions_default trim find text_eq colcode_at
    remove_outer_quotes get_default_value
di = record {
  lits = new_user;
  written = record {
    pk_idx = 0;
    pk_literal = codes "4";
    record_length = 62;
    columns = record {
      offsets =
          record { offset = 0; col_id = 1; padding = 0 ∷ 0 ∷ 0 ∷ 0 ∷ 0 ∷ 0 ∷ 0 ∷ [] }
          ∷ record { offset = 10; col_id = 2; padding = 0 ∷ 0 ∷ 0 ∷ 0 ∷ 0 ∷ 0 ∷ 0 ∷ [] }
          ∷ [];
      literals = codes "Di" ∷ codes "22" ∷ [];
      running = 20;
    };
  };
  sizes = refl;
  given = (refl, (refl, (refl, tt)));
  run = refl;
}

insert_data_refines_example :
    (w' : World) × (rs' : List TableRecord) × (insert_data false
        (record {
          table_name = codes "users";
          columns = none;
          records = nodes_of (di ∷ []);
          projection_mask = all_true 3;
          is_normalized = true;
        })
        users_world
      ≡ done w')
    × IsStored (codes "users") users_schema (codes "id") 2 w' rs'
    × (rows rs' ≡ rows users ++ (key_first 0 (map cell_text new_user) ∷ []))
unfolding di lookup text_eq contains live_keys table_file write_header records_bytes record_bytes
    record_body write_column_offset write_column_offsets write_string write_strings le_bytes
insert_data_refines_example =
    insert_data_refines false (codes "users") (codes "id") users_schema users_colcodes 0 2
      users_world users (di ∷ []) none users-HasKey users_stored refl (refl, tt) (omega arith)
