-- ===== src/Strategy.antt =====
-- DBEngine/services/strategy-decider: whether a clause is a lookup by a unique column.
use bsc_thesis.Base.{Bool, true, false, ◌&&◌, Option, none, some, Text, text_eq}
use bsc_thesis.Ast.{ComparatorType, WhereNode}

-- cmp_node->type == ComparatorNode::Type::EQ
unfoldable pub is_eq : ComparatorType → Bool
is_eq ComparatorType.eq = true
is_eq _ = false

-- isUniqueEqualityLookup looks at the first condition only.
unfoldable pub is_unique_equality_lookup : Option WhereNode → Text → Bool
is_unique_equality_lookup none unique_col_name = false
is_unique_equality_lookup (some clause) unique_col_name =
    text_eq clause.condition.col_name unique_col_name && is_eq clause.condition.cmp
