-- ===== src/Normalizer/Conditions.antt =====
-- The conditions of a WHERE clause: normalizeWhereClause of DBEngine/services/semantic_normalizer.
use bsc_thesis.Base.{
  ℕ, zero, suc, ◌%◌, ◌^◌, ◌<◌, ◌≤◌, ◌≡◌, refl, ap, true, List, [], ◌∷◌, some, Text, text_eq,
  text_eq_iff, length, length-map, get_elem?, map, All, arith, Bool-cases, inl, inr,
}
use bsc_thesis.Ast.{UntypedColumnDefNode, ConditionNode, WhereNode}
use bsc_thesis.Utils.Columns.{Schema, column_names, contains, index_of}
use bsc_thesis.Normalizer.{conditions_loop, normalize_where}

index_of-get_elem? :
    (name : Text) (xs : List Text) (i : ℕ) → index_of name xs ≡ some i → get_elem? xs i ≡ some name
unfolding index_of
index_of-get_elem? name [] i h = absurd cc
index_of-get_elem? name (x ∷ xs) zero h = ground (arith, text_eq_iff x name)
index_of-get_elem? name (x ∷ xs) (suc i) h = ground (arith, index_of-get_elem? name xs i)

index_of-lt : (name : Text) (xs : List Text) (i : ℕ) → index_of name xs ≡ some i → i < length xs
unfolding index_of
index_of-lt name [] i h = absurd cc
index_of-lt name (x ∷ xs) zero h = omega arith
index_of-lt name (x ∷ xs) (suc i) h = ground (arith, index_of-lt name xs i)

contains-index_of :
    (name : Text) (xs : List Text) → contains name xs ≡ true → (i : ℕ) × (index_of name xs ≡ some i)
unfolding contains index_of
contains-index_of name [] h = absurd cc
contains-index_of name (x ∷ xs) h = elim (Bool-cases (text_eq x name)) [
  | inl same ↦ (0, rw same refl)
  | inr differ ↦
      let (i, found) = contains-index_of name xs (rw differ at h) in
      (suc i, rw (differ, found) refl)
]

-- The index that a condition was resolved to is that of its column.
abbrev pub IsResolved : List Text → ConditionNode → Type 0
IsResolved names cond = get_elem? names cond.schema_index ≡ some cond.col_name

-- A condition but for what it is resolved to.
abbrev pub unresolved : ConditionNode → ConditionNode
unresolved cond = record cond { schema_index = 255 }

resolve :
    (names : List Text) (cond : ConditionNode)
    → length names ≤ 2 ^ 8
    → contains cond.col_name names ≡ true
    → (i : ℕ) × (index_of cond.col_name names ≡ some i)
      × IsResolved names (record cond { schema_index = i % 2 ^ 8 })
resolve names cond small known =
    let (i, found) = contains-index_of cond.col_name names known in
    let same : i % 2 ^ 8 ≡ i = omega (arith, index_of-lt cond.col_name names i found) in
    (i, found, rw same (index_of-get_elem? cond.col_name names i found))

conditions_loop_lem :
    (names : List Text) (conds : List ConditionNode)
    → length names ≤ 2 ^ 8
    → All (λ (cond : ConditionNode). contains cond.col_name names ≡ true) conds
    → (conds' : List ConditionNode) × (conditions_loop names conds ≡ (true, conds'))
      × All (IsResolved names) conds'
      × (map unresolved conds' ≡ map unresolved conds)
unfolding conditions_loop
conditions_loop_lem names [] small known = ([], refl, tt, refl)
conditions_loop_lem names (cond ∷ conds) small known =
    let (conds', ends, resolved, same) = conditions_loop_lem names conds small known.1 in
    let (i, found, here) = resolve names cond small known.0 in
    (
      record cond { schema_index = i % 2 ^ 8 } ∷ conds',
      rw (found, conditions_loop, ends) refl,
      (here, resolved),
      ap (λ t. unresolved cond ∷ t) same,
    )

-- In a table of at most 256 columns a WHERE clause whose columns all exist is normalized: each of
-- its conditions is resolved to the position of its column, and nothing else changes.
pub normalize_where_lem :
    (schema : Schema) (clause : WhereNode)
    → length schema ≤ 2 ^ 8
    → All
        (λ (cond : ConditionNode). contains cond.col_name (column_names schema) ≡ true)
        (clause.condition ∷ clause.others)
    → (clause' : WhereNode) × (normalize_where (some clause) schema ≡ (true, some clause'))
      × All (IsResolved (column_names schema)) (clause'.condition ∷ clause'.others)
      × (map unresolved (clause'.condition ∷ clause'.others)
          ≡ map unresolved (clause.condition ∷ clause.others))
unfolding normalize_where
normalize_where_lem schema clause small known =
    let names = column_names schema in
    let fits : length names ≤ 2 ^ 8 =
      omega (arith, length-map {0, 0} (λ (col : UntypedColumnDefNode). col.name) schema) in
    let (others, ends, resolved, same) = conditions_loop_lem names clause.others fits known.1 in
    let (i, found, here) = resolve names clause.condition fits known.0 in
    (
      record { condition = record clause.condition { schema_index = i % 2 ^ 8 }; others = others },
      rw (found, normalize_where, ends) refl,
      (here, resolved),
      ap (λ t. unresolved clause.condition ∷ t) same,
    )
