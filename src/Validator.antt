-- ===== src/Validator.antt =====
-- DBEngine/services/semantic_validator. A validator that returns false has printed one error: the
-- model gives that error. The validators look at nodes that the normalizer has been over.
pub mod Inserts
pub mod Unique
pub mod Updates
pub mod Clauses
mod Samples
use bsc_thesis.Base.{
  ℕ, Bool, true, false, not, ◌&&◌, ◌||◌, List, [], ◌∷◌, Option, none, some, Text, text_eq, ltb,
  if◌then◌else◌, length, lookup,
}
use bsc_thesis.Status.{ErrorCode, Outcome, done, undefined, ◌>>=◌}
use bsc_thesis.Ast.{
  UntypedColumnDefNode, LiteralType, LiteralNode, ComparatorType, ConditionNode, WhereNode,
  ValueRecordNode, InsertNode, SelectNode, DeleteNode, AssignmentNode, UpdateNode, DescribeNode,
  DropTableNode,
}
use bsc_thesis.Utils.Inserts.{ColModifiers, get_modifiers, empty_literal_rule_violation}
use bsc_thesis.Utils.Columns.{
  Schema, column_names, contains, missing_column, extract_primary_key_column,
}
use bsc_thesis.Storage.Scan.{Index}
use bsc_thesis.Strategy.{is_eq}
use bsc_thesis.Context.{ExecutionContext, at_key, index_at}

-- What a check comes to: an error, or what the code behind it goes on with.
pub data Check {ℓ} (A : Type ℓ) : Type ℓ where
  rejected : ErrorCode → Check A
  passed : A → Check A

-- The code behind a check that returns false where the check fails.
abbrev pub then_check {ℓ κ} :
    {A : Type ℓ} {B : Type κ} → Outcome (Check A) → (A → Outcome (Check B)) → Outcome (Check B)
then_check (done (rejected e)) k = done (rejected e)
then_check (done (passed a)) k = k a
then_check (Outcome.exited e) k = Outcome.exited e
then_check Outcome.threw k = Outcome.threw
then_check undefined k = undefined
then_check Outcome.out_of_fuel k = Outcome.out_of_fuel

-- checkIfTableExists
unfoldable pub check_if_table_exists : Text → ExecutionContext → Check (Unit {0})
check_if_table_exists table_name ctx = elim (lookup table_name ctx.untyped_tables) [
  | none ↦ rejected ErrorCode.table_does_not_exist
  | some _ ↦ passed tt
]

-- The switch of validateWhereClauseSemantics: the error for a literal's type under a comparator.
unfoldable pub comparator_violation : ComparatorType → LiteralType → Option ErrorCode
comparator_violation ComparatorType.is LiteralType.number = some ErrorCode.where_is_is_not_violation
comparator_violation ComparatorType.is LiteralType.string = some ErrorCode.where_is_is_not_violation
comparator_violation ComparatorType.is _ = none
comparator_violation ComparatorType.is_not LiteralType.number =
    some ErrorCode.where_is_is_not_violation
comparator_violation ComparatorType.is_not LiteralType.string =
    some ErrorCode.where_is_is_not_violation
comparator_violation ComparatorType.is_not _ = none
comparator_violation ComparatorType.like LiteralType.string = none
comparator_violation ComparatorType.like _ = some ErrorCode.where_like_not_like_violation
comparator_violation ComparatorType.not_like LiteralType.string = none
comparator_violation ComparatorType.not_like _ = some ErrorCode.where_like_not_like_violation
comparator_violation ComparatorType.eq LiteralType.number = none
comparator_violation ComparatorType.eq LiteralType.string = none
comparator_violation ComparatorType.eq _ = some ErrorCode.where_eq_not_eq_violation
comparator_violation ComparatorType.ne LiteralType.number = none
comparator_violation ComparatorType.ne LiteralType.string = none
comparator_violation ComparatorType.ne _ = some ErrorCode.where_eq_not_eq_violation
comparator_violation _ LiteralType.number = none
comparator_violation _ _ = some ErrorCode.where_math_violation

unfoldable pub is_empty_type : LiteralType → Bool
is_empty_type LiteralType.empty = true
is_empty_type _ = false

-- One round of the loop of validateWhereClauseSemantics.
unfoldable pub condition_violation : List Text → ConditionNode → Option ErrorCode
condition_violation colnames cond =
    if contains cond.col_name colnames
    then (if is_empty_type cond.literal_value.type
        then some ErrorCode.where_empty_literal_is_not_comparable
        else comparator_violation cond.cmp cond.literal_value.type)
    else some ErrorCode.column_does_not_exist_in_table

unfoldable pub conditions_check : List Text → List ConditionNode → Check (Unit {0})
conditions_check colnames [] = passed tt
conditions_check colnames (cond ∷ conds) =
    let rest = conditions_check colnames conds in
    elim (condition_violation colnames cond) as (λ _. Check (Unit {0})) [
      | none ↦ rest
      | some e ↦ rejected e
    ]

-- validateWhereClauseSemantics
unfoldable pub validate_where : Schema → Option WhereNode → Check (Unit {0})
validate_where schema none = passed tt
validate_where schema (some clause) =
    conditions_check (column_names schema) (clause.condition ∷ clause.others)

-- The check of validateSelectSemantics and validateDeleteSemantics that a primary key that is
-- looked up by `=` is in the index.
unfoldable pub validate_key_lookup :
    ExecutionContext → Text → Schema → Option WhereNode → Outcome (Check (Unit {0}))
validate_key_lookup ctx table_name schema none = done (passed tt)
validate_key_lookup ctx table_name schema (some clause) =
    let cond = clause.condition in
    extract_primary_key_column schema >>= λ primary_key_column.
    index_at ctx table_name primary_key_column >>= λ pk_index.
    done (elim (lookup cond.literal_value.value pk_index) as (λ _. Check (Unit {0})) [
      | some _ ↦ passed tt
      | none ↦
          if text_eq cond.col_name primary_key_column && is_eq cond.cmp
          then rejected ErrorCode.primary_key_does_not_exist
          else passed tt
    ])

-- validateDescribeSemantics and validateDropSemantics
unfoldable pub validate_describe : DescribeNode → ExecutionContext → Check (Unit {0})
validate_describe node ctx = check_if_table_exists node.table_name ctx

unfoldable pub validate_drop : DropTableNode → ExecutionContext → Check (Unit {0})
validate_drop node ctx = check_if_table_exists node.table_name ctx

-- validateDeleteSemantics
unfoldable pub validate_delete : DeleteNode → ExecutionContext → Outcome (Check (Unit {0}))
validate_delete node ctx = elim (lookup node.table_name ctx.untyped_tables) [
  | none ↦ done (rejected ErrorCode.table_does_not_exist)
  | some schema ↦
      then_check (validate_key_lookup ctx node.table_name schema node.opt_where_node)
        (λ _. done (validate_where schema node.opt_where_node))
]

-- validateSelectSemantics
unfoldable pub validate_select : SelectNode → ExecutionContext → Outcome (Check (Unit {0}))
validate_select node ctx = elim (lookup node.table_name ctx.untyped_tables) [
  | none ↦ done (rejected ErrorCode.table_does_not_exist)
  | some schema ↦
      let missing = elim node.columns as (λ _. Option Text) [
        | none ↦ none
        | some columns ↦ missing_column columns schema
      ] in
      let rest =
        then_check (validate_key_lookup ctx node.table_name schema node.opt_where_node)
          (λ _. done (validate_where schema node.opt_where_node)) in
      elim missing as (λ _. Outcome (Check (Unit {0}))) [
        | none ↦ rest
        | some _ ↦ done (rejected ErrorCode.column_does_not_exist_in_table)
      ]
]

-- !lit || lit->type == LiteralNode::Type::EMPTY
unfoldable pub is_empty_value : Option LiteralNode → Bool
is_empty_value none = true
is_empty_value (some lit) = is_empty_type lit.type

-- The primary key check of one value: the keys seen so far and this one.
unfoldable pub key_check : ColModifiers → Index → Option LiteralNode → List Text → Check (List Text)
key_check modifiers pk_index none seen_keys = passed seen_keys
key_check modifiers pk_index (some lit) seen_keys =
    let indexed = elim (lookup lit.value pk_index) as (λ _. Bool) [
      | none ↦ false
      | some _ ↦ true
    ] in
    if not (is_empty_type lit.type) && modifiers.primary_key
    then (if contains lit.value seen_keys || indexed
        then rejected ErrorCode.insert_duplicate_primary_keys
        else passed (lit.value ∷ seen_keys))
    else passed seen_keys

-- The checks of one value: the empty literal rules, then the primary key.
unfoldable pub value_check :
    UntypedColumnDefNode → Index → Option LiteralNode → Bool → List Text → Check (List Text)
value_check col pk_index lit is_written seen_keys =
    let modifiers = get_modifiers col.modifiers in
    let key = key_check modifiers pk_index lit seen_keys in
    if not is_written || is_empty_value lit
    then elim (empty_literal_rule_violation modifiers) as (λ _. Check (List Text)) [
      | none ↦ key
      | some e ↦ rejected e
    ]
    else key

-- The loop over the columns; a record or a mask that is shorter than the schema is read out of
-- bounds.
unfoldable pub values_loop :
    Index → Schema → List (Option LiteralNode) → List Bool → List Text → Outcome (Check (List Text))
values_loop pk_index [] values mask seen_keys = done (passed seen_keys)
values_loop pk_index (col ∷ cols) [] mask seen_keys = undefined
values_loop pk_index (col ∷ cols) (lit ∷ values) [] seen_keys = undefined
values_loop pk_index (col ∷ cols) (lit ∷ values) (is_written ∷ mask) seen_keys =
    then_check (done (value_check col pk_index lit is_written seen_keys))
      (λ seen. values_loop pk_index cols values mask seen)

-- The loop over the records.
unfoldable pub records_loop :
    Index → Schema → List Bool → List ValueRecordNode → List Text → Outcome (Check (List Text))
records_loop pk_index schema mask [] seen_keys = done (passed seen_keys)
records_loop pk_index schema mask (r ∷ rs) seen_keys =
    let rest =
      then_check (values_loop pk_index schema r.values mask seen_keys)
        (λ seen. records_loop pk_index schema mask rs seen) in
    if ltb (length schema) (length r.values)
    then done (rejected ErrorCode.insert_more_values_than_columns_in_table)
    else rest

-- validateInsertSemantics
unfoldable pub validate_insert : InsertNode → ExecutionContext → Outcome (Check (List Text))
validate_insert node ctx = elim (lookup node.table_name ctx.untyped_tables) [
  | none ↦ done (rejected ErrorCode.table_does_not_exist)
  | some schema ↦ extract_primary_key_column schema >>= λ table_pk_col.
      index_at ctx node.table_name table_pk_col >>= λ pk_index.
      records_loop pk_index schema node.projection_mask node.records []
]

-- The loop over the assignments of validateUpdateSemantics.
unfoldable pub assignments_check :
    List Text → Text → List Text → List AssignmentNode → Check (Unit {0})
assignments_check table_cols primary_key_column assignment_cols [] = passed tt
assignments_check table_cols primary_key_column assignment_cols (a ∷ assignments) =
    let rest =
      assignments_check table_cols primary_key_column (a.col_name ∷ assignment_cols) assignments in
    if contains a.col_name table_cols
    then (if contains a.col_name assignment_cols
        then rejected ErrorCode.update_tried_updating_the_same_column
        else (if text_eq primary_key_column a.col_name
            then rejected ErrorCode.update_tried_updating_the_primary_key
            else rest))
    else rejected ErrorCode.column_does_not_exist_in_table

-- validateUpdateSemantics
unfoldable pub validate_update : UpdateNode → ExecutionContext → Outcome (Check (Unit {0}))
validate_update node ctx = elim (lookup node.table_name ctx.untyped_tables) [
  | none ↦ done (rejected ErrorCode.table_does_not_exist)
  | some schema ↦ extract_primary_key_column schema >>= λ primary_key_column.
      then_check
        (done (assignments_check (column_names schema) primary_key_column [] node.assignments))
        (λ _. done (validate_where schema node.opt_where_node))
]
