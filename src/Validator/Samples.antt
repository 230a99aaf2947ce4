-- ===== src/Validator/Samples.antt =====
-- Statements on the users table, validated.
use bsc_thesis.Base.{
  ◌≡◌, refl, true, false, [], ◌∷◌, none, some, codes, text_eq, All, map, lookup, arith,
}
use bsc_thesis.Status.{done, undefined}
use bsc_thesis.Ast.{WhereNode, InsertNode, AssignmentNode, UpdateNode}
use bsc_thesis.Utils.Strings.{trim, find}
use bsc_thesis.Utils.Inserts.{get_modifiers, mentions_default, empty_literal_rule_violation}
use bsc_thesis.Utils.Columns.{
  column_names, contains, index_of, is_primary_key, extract_primary_key_column, Distinct,
}
use bsc_thesis.Storage.Scan.{Index}
use bsc_thesis.Context.{at_key, index_at}
use bsc_thesis.Fixtures.{
  users, users_schema, session, number_literal, aged_41, unknown_column_insert,
}
use bsc_thesis.Normalizer.{
  set_at, mask_loop, fill_row, rows_loop, normalize_insert, normalize_where,
}
use bsc_thesis.Normalizer.Conditions.{IsResolved, unresolved}
use bsc_thesis.Validator.{
  is_empty_type, is_empty_value, key_check, value_check, values_loop, records_loop, validate_insert,
  assignments_check, comparator_violation, condition_violation, conditions_check, validate_where,
  validate_update,
}
use bsc_thesis.Validator.Inserts.{statement_keys}
use bsc_thesis.Validator.Unique.{NewKey, accepted_keys_are_new}
use bsc_thesis.Fixtures.Session.{users_world, users_stored}
use bsc_thesis.Validator.Updates.{IsAssignable, accepted_assignments}
use bsc_thesis.Validator.Clauses.{accepted_where_resolves}

abbrev id_index : Index
id_index = (codes "1", 40) ∷ (codes "3", 182) ∷ []

-- (4, 'Di') and (5), in schema order.
abbrev two_users : InsertNode
two_users = record {
  table_name = codes "users";
  columns = some (column_names users_schema);
  records =
      record {
        values =
            some (number_literal (codes "4")) ∷ some (number_literal (codes "'Di'")) ∷ none ∷ [];
      }
      ∷ record {
        values =
            some (number_literal (codes "5")) ∷ some (number_literal (codes "'Ed'")) ∷ none ∷ [];
      }
      ∷ [];
  projection_mask = true ∷ true ∷ false ∷ [];
  is_normalized = true;
}

users_key : extract_primary_key_column users_schema ≡ done (codes "id")
unfolding extract_primary_key_column is_primary_key get_modifiers mentions_default trim find text_eq
users_key = refl

accepted_keys_are_new_example :
    Distinct (statement_keys users_schema two_users.records)
    × All (NewKey users) (statement_keys users_schema two_users.records)
unfolding validate_insert records_loop values_loop value_check key_check is_empty_value
    is_empty_type empty_literal_rule_violation contains lookup index_at at_key
    extract_primary_key_column is_primary_key get_modifiers mentions_default trim find text_eq
accepted_keys_are_new_example =
    accepted_keys_are_new two_users users_schema (codes "id") 2 users_world users
      (codes "5" ∷ codes "4" ∷ []) users_stored refl

-- An INSERT with a column that the table does not have, and fewer values than the table has
-- columns, is read out of bounds by its validator.
unknown_column :
    validate_insert (normalize_insert unknown_column_insert session).1 session ≡ undefined
unfolding normalize_insert mask_loop rows_loop fill_row set_at index_of validate_insert records_loop
    values_loop value_check key_check is_empty_value is_empty_type empty_literal_rule_violation
    contains lookup index_at at_key extract_primary_key_column is_primary_key get_modifiers
    mentions_default trim find text_eq
unknown_column = refl

-- UPDATE users SET age = 19, name = 5 WHERE age = 41
abbrev birthday : UpdateNode
birthday = record {
  table_name = codes "users";
  assignments =
      record { col_name = codes "age"; literal_node = number_literal (codes "19") }
      ∷ record { col_name = codes "name"; literal_node = number_literal (codes "5") }
      ∷ [];
  opt_where_node = some aged_41;
  inverse_proj_mask = [];
  is_normalized = false;
  schema_index_to_literal_map = [];
}

accepted_assignments_example :
    Distinct (map (λ (a : AssignmentNode). a.col_name) birthday.assignments)
    × All
        (λ (a : AssignmentNode). IsAssignable (column_names users_schema) (codes "id") a.col_name)
        birthday.assignments
unfolding validate_update assignments_check validate_where conditions_check condition_violation
    comparator_violation is_empty_type contains lookup extract_primary_key_column is_primary_key
    get_modifiers mentions_default trim find text_eq
accepted_assignments_example =
    accepted_assignments birthday session users_schema (codes "id") refl users_key refl

accepted_where_resolves_example :
    (clause' : WhereNode) × (normalize_where (some aged_41) users_schema ≡ (true, some clause'))
    × All (IsResolved (column_names users_schema)) (clause'.condition ∷ clause'.others)
    × (map unresolved (clause'.condition ∷ clause'.others)
        ≡ map unresolved (aged_41.condition ∷ aged_41.others))
unfolding validate_where conditions_check condition_violation comparator_violation is_empty_type
    contains text_eq
accepted_where_resolves_example = accepted_where_resolves users_schema aged_41 (omega arith) refl
