-- ===== src/Normalizer/Samples.antt =====
-- Statements on the users table, normalized.
use bsc_thesis.Base.{◌≡◌, refl, true, [], ◌∷◌, none, some, codes, text_eq, All, map, lookup, arith}
use bsc_thesis.Ast.{WhereNode}
use bsc_thesis.Utils.Columns.{column_names, contains, index_of}
use bsc_thesis.Fixtures.{
  users_schema, session, number_literal, string_literal, aged_41, partial_insert,
}
use bsc_thesis.Normalizer.{
  set_at, mask_loop, fill_row, rows_loop, normalize_insert, normalize_where,
}
use bsc_thesis.Normalizer.Rows.{in_schema_order, normalized_insert}
use bsc_thesis.Normalizer.Conditions.{IsResolved, unresolved, normalize_where_lem}

normalized_insert_example : (normalize_insert partial_insert session).1 ≡ record partial_insert {
  columns = some (column_names users_schema);
  records =
      map
        (in_schema_order (column_names users_schema) (codes "name" ∷ codes "id" ∷ []))
        partial_insert.records;
  projection_mask =
      map (λ x. contains x (codes "name" ∷ codes "id" ∷ [])) (column_names users_schema);
  is_normalized = true;
}
unfolding normalize_insert mask_loop rows_loop fill_row set_at index_of lookup contains text_eq
normalized_insert_example =
    normalized_insert partial_insert session users_schema refl (refl, (refl, (refl, tt)))
      (refl, (refl, tt)) refl

-- name goes to the second place, id to the first, and age is not there.
partial_insert_rows :
    (normalize_insert partial_insert session).1.records
    ≡ record {
      values = some (number_literal (codes "4")) ∷ some (string_literal (codes "'Di'")) ∷ none ∷ [];
    }
      ∷ []
unfolding normalize_insert mask_loop rows_loop fill_row set_at index_of lookup contains text_eq
partial_insert_rows = refl

normalize_where_lem_example :
    (clause' : WhereNode) × (normalize_where (some aged_41) users_schema ≡ (true, some clause'))
    × All (IsResolved (column_names users_schema)) (clause'.condition ∷ clause'.others)
    × (map unresolved (clause'.condition ∷ clause'.others)
        ≡ map unresolved (aged_41.condition ∷ aged_41.others))
unfolding contains text_eq
normalize_where_lem_example = normalize_where_lem users_schema aged_41 (omega arith) (refl, tt)
