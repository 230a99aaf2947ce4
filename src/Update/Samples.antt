-- ===== src/Update/Samples.antt =====
-- UPDATE users SET age = '42' WHERE age = 41, once normalized
use bsc_thesis.Base.{
  ◌≡◌, refl, false, true, List, [], ◌∷◌, ◌++◌, some, codes, text_eq, lookup, arith, leb, ◌*◌,
}
use bsc_thesis.Status.{done}
use bsc_thesis.Ast.{UpdateNode}
use bsc_thesis.Utils.Strings.{remove_outer_quotes}
use bsc_thesis.Condition.Integers.{integers}
use bsc_thesis.Condition.{evaluate_comparator, evaluate, classify, is_numeric, same_type}
use bsc_thesis.Stream.Bytes.{le_bytes}
use bsc_thesis.Storage.{
  TableRecord, write_header, write_column_offset, write_column_offsets, write_string, write_strings,
  record_body, record_bytes, records_bytes, table_file,
}
use bsc_thesis.Storage.Serializer.{colcode_at}
use bsc_thesis.Storage.Scan.Select.{meets, decide}
use bsc_thesis.Fixtures.{
  users-Decided, users, users_schema, users_colcodes, aged_41, string_literal,
}
use bsc_thesis.Fixtures.Session.{users_world, users_stored, users-HasKey}
use bsc_thesis.Handlers.{World}
use bsc_thesis.Handlers.Rows.{rows, remaining, matching}
use bsc_thesis.Handlers.Stored.{IsStored}
use bsc_thesis.Update.{literal_at, update_data}
use bsc_thesis.Update.Rows.{assign, assigned_value}
use bsc_thesis.Update.Sizes.{rows_size}
use bsc_thesis.Update.Whole.{IsUpdate, new_cells, update_data_refines}

abbrev to_42 : UpdateNode
to_42 = record {
  table_name = codes "users";
  assignments = record { col_name = codes "age"; literal_node = string_literal (codes "42") } ∷ [];
  opt_where_node = some aged_41;
  inverse_proj_mask = true ∷ true ∷ false ∷ [];
  is_normalized = true;
  schema_index_to_literal_map = (2, codes "42") ∷ [];
}

to_42-IsUpdate : IsUpdate users_schema users_colcodes to_42
unfolding colcode_at text_eq literal_at
to_42-IsUpdate = record {
  coded = ((0, refl), ((1, refl), ((2, refl), tt)));
  width = refl;
  covers = ((codes "42", refl), tt);
}

update_data_refines_example :
    (w' : World) × (rs' : List TableRecord) × (update_data integers
        (λ a b. leb (3 * b) (10 * a))
        false
        to_42
        users_world
      ≡ done w')
    × IsStored (codes "users") users_schema (codes "id") 2 w' rs'
    × (rows rs'
        ≡ remaining integers (some aged_41) (rows users)
          ++ new_cells integers false users_schema users_colcodes
              (codes "id")
              0
              2
              to_42
              users_world
              users
              users_stored
              users-HasKey
              (omega arith)
              to_42-IsUpdate)
unfolding lookup text_eq table_file write_header records_bytes record_bytes record_body
    write_column_offset write_column_offsets write_string write_strings le_bytes rows matching meets
    decide assign assigned_value rows_size remove_outer_quotes users_stored evaluate_comparator
    evaluate classify is_numeric same_type
update_data_refines_example =
    update_data_refines integers false users_schema users_colcodes (codes "id") 0 2 to_42
      users_world users users_stored users-HasKey (omega arith) to_42-IsUpdate
      (λ a b. leb (3 * b) (10 * a)) refl users-Decided (omega arith) (omega arith)
