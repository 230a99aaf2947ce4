-- ===== src/Normalizer.antt =====
-- DBEngine/services/semantic_normalizer: the statements brought into schema order. Each function
-- gives the source's Boolean result and the node as it leaves it, since the validators look at
-- nodes whose normalization failed.
pub mod Masks
pub mod Rows
pub mod Conditions
mod Samples
use bsc_thesis.Base.{
  ℕ, ◌%◌, ◌^◌, Bool, true, false, List, [], ◌∷◌, ◌++◌, Option, none, some, Text, text_eq, ltb, ◌==◌,
  if◌then◌else◌, length, replicate, set, lookup, ◌&&◌,
}
use bsc_thesis.Status.{Outcome, done, ◌>>=◌}
use bsc_thesis.Ast.{
  LiteralType, LiteralNode, ConditionNode, WhereNode, ValueRecordNode, InsertNode, SelectNode,
  DeleteNode, AssignmentNode, UpdateNode,
}
use bsc_thesis.Utils.Strings.{remove_outer_quotes}
use bsc_thesis.Utils.Columns.{Schema, column_names, contains, index_of, extract_primary_key_column}
use bsc_thesis.Context.{ExecutionContext}

-- A write at the position that std::find gave.
unfoldable pub set_at {ℓ} : {A : Type ℓ} → Option ℕ → A → List A → List A
set_at none v xs = xs
set_at (some i) v xs = set xs i v

-- The loop that fills a projection mask; false where a column is not in the schema.
unfoldable pub mask_loop : List Text → List Text → List Bool → Bool × List Bool
mask_loop full_col_list [] mask = (true, mask)
mask_loop full_col_list (name ∷ names) mask =
    let found = index_of name full_col_list in
    let rest = mask_loop full_col_list names (set_at found true mask) in
    elim found as (λ _. Bool × List Bool) [ none ↦ (false, mask) | some i ↦ rest ]

-- new LiteralNode(LiteralNode::Type::EMPTY, "")
abbrev pub empty_literal : LiteralNode
empty_literal = record { type = LiteralType.empty; value = [] }

-- The loop over the listed columns that fills normalized_row.
unfoldable pub fill_row {ℓ} : {A : Type ℓ} → A → List Text → List Text → List A → List A → List A
fill_row implicit full_col_list [] values row = row
fill_row implicit full_col_list (name ∷ names) [] row =
    fill_row implicit full_col_list names [] (set_at (index_of name full_col_list) implicit row)
fill_row implicit full_col_list (name ∷ names) (value ∷ values) row =
    fill_row implicit full_col_list names values (set_at (index_of name full_col_list) value row)

-- The loop over the records; it stops at a record with more values than the table has columns.
unfoldable pub rows_loop :
    List Text → List Text → List ValueRecordNode → Bool × List ValueRecordNode
rows_loop full_col_list columns [] = (true, [])
rows_loop full_col_list columns (r ∷ rs) =
    let normalized_row =
      fill_row (some empty_literal) full_col_list columns r.values
        (replicate (length full_col_list) none) in
    let (ok, rest) = rows_loop full_col_list columns rs in
    if ltb (length full_col_list) (length r.values)
    then (false, r ∷ rs)
    else (ok, record { values = normalized_row } ∷ rest)

abbrev pub listed_or : Option (List Text) → List Text → List Text
listed_or none full_col_list = full_col_list
listed_or (some columns) full_col_list = columns

-- normalizeInsert
unfoldable pub normalize_insert : InsertNode → ExecutionContext → Bool × InsertNode
normalize_insert node ctx = elim (lookup node.table_name ctx.untyped_tables) [
  | none ↦ (false, node)
  | some schema ↦
      let full_col_list = column_names schema in
      let columns = listed_or node.columns full_col_list in
      let (known, mask) = mask_loop full_col_list columns (replicate (length schema) false) in
      let (fits, records) = rows_loop full_col_list columns node.records in
      let masked = record node { columns = some columns; projection_mask = mask } in
      if known
      then (if fits
          then (
            true,
            record masked { columns = some full_col_list; records = records; is_normalized = true },
          )
          else (false, record masked { records = records }))
      else (false, masked)
]

-- normalizeWhereClause on the conditions; schema_index is a std::uint8_t.
unfoldable pub conditions_loop : List Text → List ConditionNode → Bool × List ConditionNode
conditions_loop full_col_list [] = (true, [])
conditions_loop full_col_list (cond ∷ conds) =
    let (ok, rest) = conditions_loop full_col_list conds in
    elim (index_of cond.col_name full_col_list) as (λ _. Bool × List ConditionNode) [
      | none ↦ (false, cond ∷ conds)
      | some idx ↦ (ok, record cond { schema_index = idx % 2 ^ 8 } ∷ rest)
    ]

-- normalizeWhereClause
unfoldable pub normalize_where : Option WhereNode → Schema → Bool × Option WhereNode
normalize_where none schema = (true, none)
normalize_where (some clause) schema =
    let full_col_list = column_names schema in
    let cond = clause.condition in
    let (ok, others) = conditions_loop full_col_list clause.others in
    elim (index_of cond.col_name full_col_list) as (λ _. Bool × Option WhereNode) [
      | none ↦ (false, some clause)
      | some idx ↦ (
        ok,
        some (record { condition = record cond { schema_index = idx % 2 ^ 8 }; others = others }),
      )
    ]

-- normalizeSelect
unfoldable pub normalize_select : SelectNode → ExecutionContext → Bool × SelectNode
normalize_select node ctx = elim (lookup node.table_name ctx.untyped_tables) [
  | none ↦ (false, node)
  | some schema ↦
      let full_col_list = column_names schema in
      let columns = listed_or node.columns full_col_list in
      let (known, mask) = mask_loop full_col_list columns (replicate (length schema) false) in
      let (resolved, clause) = normalize_where node.opt_where_node schema in
      let masked = record node { columns = some columns; projection_mask = mask } in
      let expanded = record masked { columns = some full_col_list; opt_where_node = clause } in
      if known
      then (if resolved
          then (true, record expanded { is_normalized = true })
          else (false, expanded))
      else (false, masked)
]

-- normalizeDelete takes the quotes off the literal of the first condition.
unfoldable pub normalize_delete : DeleteNode → ExecutionContext → Bool × DeleteNode
normalize_delete node ctx = elim (lookup node.table_name ctx.untyped_tables) [
  | none ↦ (false, node)
  | some schema ↦ elim node.opt_where_node as (λ _. Bool × DeleteNode) [
    | none ↦ (true, node)
    | some clause ↦
        let cond = clause.condition in
        let literal = record cond.literal_value {
          value = remove_outer_quotes cond.literal_value.value;
        } in
        let (ok, clause') =
          normalize_where
            (some (record clause { condition = record cond { literal_value = literal } })) schema in
        (ok, record node { opt_where_node = clause' })
  ]
]

-- schema_index_to_literal_map.insert
unfoldable pub literal_insert : ℕ → Text → List (ℕ × Text) → List (ℕ × Text)
literal_insert i value [] = (i, value) ∷ []
literal_insert i value ((j, v) ∷ m) =
    let rest = literal_insert i value m in if j == i then (j, v) ∷ m else (j, v) ∷ rest

-- What the loop over the assignments leaves.
pub record Assigned : Type 0 where
  pub ok : Bool
  pub assignments : List AssignmentNode
  pub mask : List Bool
  pub literals : List (ℕ × Text)

-- The loop over the assignments of normalizeUpdate; `assigned_columns` are the columns so far.
unfoldable pub assignments_loop :
    List Text → Text → List Text → List AssignmentNode → List Bool → List (ℕ × Text) → Assigned
assignments_loop full_col_list primary_key_col assigned_columns [] mask literals = record {
  ok = true;
  assignments = [];
  mask = mask;
  literals = literals;
}
assignments_loop full_col_list primary_key_col assigned_columns (a ∷ assignments) mask literals =
    let value = remove_outer_quotes a.literal_node.value in
    let stripped = record a { literal_node = record a.literal_node { value = value } } in
    let found = index_of a.col_name full_col_list in
    let mask' = set_at found false mask in
    let literals' = elim found as (λ _. List (ℕ × Text)) [
      | none ↦ literals
      | some i ↦ literal_insert i value literals
    ] in
    let rest =
      assignments_loop full_col_list primary_key_col (a.col_name ∷ assigned_columns) assignments
        mask' literals' in
    let stopped : Assigned = record {
      ok = false;
      assignments = stripped ∷ assignments;
      mask = mask';
      literals = literals';
    } in
    elim found as (λ _. Assigned) [
      | none ↦ stopped
      | some i ↦
          if contains a.col_name assigned_columns
          then stopped
          else (if text_eq a.col_name primary_key_col
              then stopped
              else record rest { assignments = stripped ∷ rest.assignments })
    ]

-- normalizeUpdate; the literal of an assignment is never a null pointer.
unfoldable pub normalize_update : UpdateNode → ExecutionContext → Outcome (Bool × UpdateNode)
normalize_update node ctx = elim (lookup node.table_name ctx.untyped_tables) [
  | none ↦ done (false, node)
  | some schema ↦ extract_primary_key_column schema >>= λ primary_key_col.
      let result =
        assignments_loop (column_names schema) primary_key_col [] node.assignments
          (replicate (length schema) true) node.schema_index_to_literal_map in
      let (resolved, clause) = normalize_where node.opt_where_node schema in
      let assigned = record node {
        assignments = result.assignments;
        inverse_proj_mask = result.mask;
        schema_index_to_literal_map = result.literals;
      } in
      let normalized = record assigned { opt_where_node = clause } in
      elim node.assignments as (λ _. Outcome (Bool × UpdateNode)) [
        | [] ↦ done (false, node)
        | _ ∷ _ ↦
            if result.ok
            then (if resolved
                then done (true, record normalized { is_normalized = true })
                else done (false, normalized))
            else done (false, assigned)
      ]
]
