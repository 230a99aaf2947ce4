-- ===== src/Validator/Updates.antt =====
-- The assignments of an UPDATE: validateUpdateSemantics of DBEngine/services/semantic_validator.
use bsc_thesis.Base.{
  ◌≡◌, refl, true, false, List, [], ◌∷◌, some, Text, All, text_eq, text_eq_iff, map, lookup, arith,
}
use bsc_thesis.Status.{done}
use bsc_thesis.Ast.{AssignmentNode, UpdateNode}
use bsc_thesis.Utils.Columns.{Schema, column_names, contains, extract_primary_key_column, Distinct}
use bsc_thesis.Context.{ExecutionContext}
use bsc_thesis.Validator.{passed, assignments_check, validate_update}
use bsc_thesis.Validator.Inserts.{passed_parts, done-passed}

-- A column that an UPDATE may assign: it is in the table and not the primary key.
abbrev pub IsAssignable : List Text → Text → Text → Type 0
IsAssignable table_cols primary_key_column name =
    (contains name table_cols ≡ true) × (text_eq primary_key_column name ≡ false)

assignments_check_step :
    (table_cols : List Text) (primary_key_column : Text) (assigned : List Text) (a : AssignmentNode)
    (rest : List AssignmentNode)
    → assignments_check table_cols primary_key_column assigned (a ∷ rest) ≡ passed tt
    → IsAssignable table_cols primary_key_column a.col_name
      × (contains a.col_name assigned ≡ false)
      × (assignments_check table_cols primary_key_column (a.col_name ∷ assigned) rest ≡ passed tt)
unfolding assignments_check
assignments_check_step table_cols primary_key_column assigned a rest h = ground arith

assignments_unassigned :
    (table_cols : List Text) (primary_key_column : Text) (assigned : List Text)
    (assignments : List AssignmentNode) (name : Text)
    → assignments_check table_cols primary_key_column assigned assignments ≡ passed tt
    → contains name assigned ≡ true
    → contains name (map (λ (a : AssignmentNode). a.col_name) assignments) ≡ false
unfolding contains
assignments_unassigned table_cols primary_key_column assigned [] name h known = refl
assignments_unassigned table_cols primary_key_column assigned (a ∷ rest) name h known =
    let (_, fresh, later) =
      assignments_check_step table_cols primary_key_column assigned a rest h in
    let behind =
      assignments_unassigned table_cols primary_key_column (a.col_name ∷ assigned) rest name later
        (ground (arith, known)) in
    ground (arith, text_eq_iff a.col_name name, behind, fresh)

assignments_check_lem :
    (table_cols : List Text) (primary_key_column : Text) (assigned : List Text)
    (assignments : List AssignmentNode)
    → assignments_check table_cols primary_key_column assigned assignments ≡ passed tt
    → Distinct (map (λ (a : AssignmentNode). a.col_name) assignments)
      × All
          (λ (a : AssignmentNode). IsAssignable table_cols primary_key_column a.col_name)
          assignments
assignments_check_lem table_cols primary_key_column assigned [] h = (tt, tt)
assignments_check_lem table_cols primary_key_column assigned (a ∷ rest) h =
    let (allowed, fresh, later) =
      assignments_check_step table_cols primary_key_column assigned a rest h in
    let (distinct, all_allowed) =
      assignments_check_lem table_cols primary_key_column (a.col_name ∷ assigned) rest later in
    (
      (
        assignments_unassigned table_cols primary_key_column (a.col_name ∷ assigned) rest a.col_name
            later (unfold contains in ground (arith, text_eq_iff a.col_name a.col_name)),
        distinct,
      ),
      (allowed, all_allowed),
    )

-- The assignments of an UPDATE that validateUpdateSemantics accepts name pairwise different columns
-- of the table, none of which is the primary key.
pub accepted_assignments :
    (node : UpdateNode) (ctx : ExecutionContext) (schema : Schema) (pk_col : Text)
    → lookup node.table_name ctx.untyped_tables ≡ some schema
    → extract_primary_key_column schema ≡ done pk_col
    → validate_update node ctx ≡ done (passed tt)
    → Distinct (map (λ (a : AssignmentNode). a.col_name) node.assignments)
      × All
          (λ (a : AssignmentNode). IsAssignable (column_names schema) pk_col a.col_name)
          node.assignments
unfolding validate_update
accepted_assignments node ctx schema pk_col known pk h =
    let (_, checked, _) = passed_parts _ _ (rw (known, validate_update, pk) at h) in
    assignments_check_lem (column_names schema) pk_col [] node.assignments (done-passed _ _ checked)
