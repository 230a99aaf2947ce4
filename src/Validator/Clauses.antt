-- ===== src/Validator/Clauses.antt =====
-- WHERE clauses: validateWhereClauseSemantics of DBEngine/services/semantic_validator, and its
-- agreement with normalizeWhereClause of DBEngine/services/semantic_normalizer.
use bsc_thesis.Base.{◌^◌, ◌≤◌, ◌≡◌, true, List, [], ◌∷◌, some, Text, All, length, map, arith}
use bsc_thesis.Ast.{ConditionNode, WhereNode}
use bsc_thesis.Utils.Columns.{Schema, column_names, contains}
use bsc_thesis.Normalizer.{normalize_where}
use bsc_thesis.Normalizer.Conditions.{IsResolved, unresolved, normalize_where_lem}
use bsc_thesis.Validator.{passed, condition_violation, conditions_check, validate_where}

conditions_check_step :
    (names : List Text) (cond : ConditionNode) (conds : List ConditionNode)
    → conditions_check names (cond ∷ conds) ≡ passed tt
    → (contains cond.col_name names ≡ true) × (conditions_check names conds ≡ passed tt)
unfolding conditions_check condition_violation
conditions_check_step names cond conds h = ground arith

conditions_known :
    (names : List Text) (conds : List ConditionNode)
    → conditions_check names conds ≡ passed tt
    → All (λ (cond : ConditionNode). contains cond.col_name names ≡ true) conds
conditions_known names [] h = tt
conditions_known names (cond ∷ conds) h =
    let (here, later) = conditions_check_step names cond conds h in
    (here, conditions_known names conds later)

-- In a table of at most 256 columns, normalizeWhereClause resolves every clause that
-- validateWhereClauseSemantics accepts: each condition to the position of its column, with nothing
-- else changed.
pub accepted_where_resolves :
    (schema : Schema) (clause : WhereNode)
    → length schema ≤ 2 ^ 8
    → validate_where schema (some clause) ≡ passed tt
    → (clause' : WhereNode) × (normalize_where (some clause) schema ≡ (true, some clause'))
      × All (IsResolved (column_names schema)) (clause'.condition ∷ clause'.others)
      × (map unresolved (clause'.condition ∷ clause'.others)
          ≡ map unresolved (clause.condition ∷ clause.others))
unfolding validate_where
accepted_where_resolves schema clause small h =
    normalize_where_lem schema clause small
      (conditions_known (column_names schema) (clause.condition ∷ clause.others) h)
