-- ===== src/Condition.antt =====
-- DBEngine/services/condition-evaluator: the runtime types of cells and literals, and the
-- comparison of a cell with the literal of a WHERE clause.
pub mod Regex
pub mod Like
pub mod Agreement
pub mod Integers
mod Samples
use bsc_thesis.Base.{
  ℕ, Bool, true, false, not, ◌&&◌, ◌||◌, List, [], ◌∷◌, Text, codes, text_eq, ◌==◌, if◌then◌else◌,
  length, get_or,
}
use bsc_thesis.Status.{Outcome, done, threw, ◌>>=◌}
use bsc_thesis.Ast.{LiteralNode, ComparatorType}
use bsc_thesis.Utils.Strings.{remove_outer_quotes}
use bsc_thesis.Condition.Regex.{like_match}

-- The floating-point numbers of <cstdlib>, which the model does not compute with: how many bytes
-- of a text strtod takes, the number that it reads, whether it reads it without setting ERANGE, and
-- the orders on double.
pub record Doubles : Type 1 where
  pub Double : Type 0
  pub strtod_length : Text → ℕ
  pub strtod : Text → Double
  pub in_range : Text → Bool
  pub lt : Double → Double → Bool
  pub le : Double → Double → Bool

pub data RuntimeType : Type 0 where
  nulltype boolean number string : RuntimeType

-- ltype == rtype
unfoldable pub same_type : RuntimeType → RuntimeType → Bool
same_type nulltype nulltype = true
same_type boolean boolean = true
same_type number number = true
same_type string string = true
same_type _ _ = false

module _ (doubles : Doubles) where
  open doubles use {Double, strtod_length, strtod, in_range}

  -- isNumeric: strtod takes something, and stops at a NUL, which stands behind the text at the latest.
  unfoldable pub is_numeric : Text → Bool
  is_numeric s = not (strtod_length s == 0) && get_or s (strtod_length s) 0 == 0

  unfoldable pub classify : Text → RuntimeType
  classify s =
      if text_eq s [] || text_eq s (codes "NULL")
      then nulltype
      else (if text_eq s (codes "TRUE") || text_eq s (codes "FALSE")
          then boolean
          else (if is_numeric s then number else string))

  -- std::stod on a numeric text: std::out_of_range where strtod sets ERANGE.
  unfoldable pub stod : Text → Outcome Double
  stod s = if in_range s then done (strtod s) else threw

  unfoldable pub order_doubles : ComparatorType → Double → Double → Bool
  order_doubles ComparatorType.lt l r = doubles.lt l r
  order_doubles ComparatorType.le l r = doubles.le l r
  order_doubles ComparatorType.gt l r = doubles.lt r l
  order_doubles ComparatorType.ge l r = doubles.le r l
  order_doubles _ l r = false

  -- The four mathematical comparators, on two numeric texts.
  unfoldable pub compare_doubles : ComparatorType → Text → Text → Outcome Bool
  compare_doubles cmp lhs rhs = stod lhs >>= λ l. stod rhs >>= λ r. done (order_doubles cmp l r)

  -- The switch of evaluateComparator, on a literal without its quotes.
  unfoldable pub evaluate : Text → ComparatorType → Text → Outcome Bool
  unfolding same_type
  evaluate lhs ComparatorType.is rhs = done (
      if same_type (classify lhs) boolean && same_type (classify rhs) boolean
      then text_eq rhs lhs
      else same_type (classify lhs) nulltype)
  evaluate lhs ComparatorType.is_not rhs = done (
      if same_type (classify lhs) boolean && same_type (classify rhs) boolean
      then not (text_eq rhs lhs)
      else not (same_type (classify lhs) nulltype))
  evaluate lhs ComparatorType.like rhs =
      done (same_type (classify lhs) string && like_match lhs rhs)
  evaluate lhs ComparatorType.not_like rhs =
      done (same_type (classify lhs) string && not (like_match lhs rhs))
  evaluate lhs ComparatorType.eq rhs =
      done (same_type (classify lhs) (classify rhs) && text_eq lhs rhs)
  evaluate lhs ComparatorType.ne rhs =
      done (not (same_type (classify lhs) (classify rhs)) || not (text_eq lhs rhs))
  evaluate lhs cmp rhs =
      if same_type (classify lhs) number && same_type (classify rhs) number
      then compare_doubles cmp lhs rhs
      else done false

  -- evaluateComparator
  unfoldable pub evaluate_comparator : Text → ComparatorType → LiteralNode → Outcome Bool
  evaluate_comparator lhs cmp rhs_node = evaluate lhs cmp (remove_outer_quotes rhs_node.value)
