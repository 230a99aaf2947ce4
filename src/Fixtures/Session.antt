-- ===== src/Fixtures/Session.antt =====
-- The session and the data directory with the users table, between two statements.
use bsc_thesis.Base.{refl, [], ◌∷◌, codes, text_eq, lookup, arith}
use bsc_thesis.Utils.Strings.{trim, find}
use bsc_thesis.Utils.Inserts.{get_modifiers, mentions_default}
use bsc_thesis.Utils.Columns.{is_primary_key, extract_primary_key_column}
use bsc_thesis.Stream.Bytes.{le_bytes}
use bsc_thesis.Storage.{
  write_column_offset, write_column_offsets, write_string, write_strings, record_body, table_file,
}
use bsc_thesis.Storage.Scan.Index.{find_live}
use bsc_thesis.Storage.Serializer.{find_pk_idx, pk_loop}
use bsc_thesis.Context.{at_key, index_at}
use bsc_thesis.Handlers.{World, table_bytes}
use bsc_thesis.Handlers.Stored.{IsStored}
use bsc_thesis.Handlers.NewRows.{HasKey}
use bsc_thesis.Fixtures.{users_schema, users, users-IsTable, session}

abbrev pub users_world : World
users_world = record {
  ctx = session;
  disk = record {
    tables = (codes "users", table_file users) ∷ [];
    leftovers = [];
    metadata = (codes "users", []) ∷ [];
  };
}

unfoldable pub users_stored : IsStored (codes "users") users_schema (codes "id") 2 users_world users
unfolding lookup text_eq index_at at_key table_bytes find_live record_body write_column_offset
    write_column_offsets write_string write_strings le_bytes extract_primary_key_column
    is_primary_key get_modifiers mentions_default trim find
users_stored = record {
  known = refl;
  key = refl;
  columns = refl;
  small = omega arith;
  count = 0;
  counted = refl;
  bytes = refl;
  fresh = refl;
  wf = users-IsTable;
  index = (codes "1", 40) ∷ (codes "3", 182) ∷ [];
  indexed = refl;
  agrees = λ k. refl;
}

pub users-HasKey : HasKey users_schema (codes "id") 0 2
unfolding find_pk_idx pk_loop is_primary_key get_modifiers mentions_default trim find text_eq
users-HasKey = record {
  column = record { name = codes "id"; modifiers = codes "PRIMARY KEY" ∷ [] };
  found = refl;
  there = refl;
  named = refl;
  columns = refl;
  few = omega arith;
}
