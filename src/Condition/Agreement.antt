-- ===== src/Condition/Agreement.antt =====
-- How the comparators of evaluateComparator relate to one another and to LIKE.
use bsc_thesis.Base.{◌≡◌, refl, ◌↔◌, true, false, not, Text, arith, text_eq_iff, text_eq_refl}
use bsc_thesis.Ast.{ComparatorType}
use bsc_thesis.Base.{Bool, ◌&&◌, text_eq, ap, Bool-cases, inl, inr}
use bsc_thesis.Status.{done, done_inj}
use bsc_thesis.Condition.Regex.{like_match}
use bsc_thesis.Condition.{Doubles, RuntimeType, string, classify, evaluate, same_type}
use bsc_thesis.Condition.Like.{Like, IsOneLine, like_match_iff}

module _ (doubles : Doubles) where
  -- IS, IS NOT, =, !=, LIKE and NOT LIKE answer on all texts. IS NOT is the negation of IS, and != of =, whatever
  -- the two sides are. NOT LIKE is the negation of LIKE exactly where the cell is a string; on any other
  -- cell both are false.
  pub negated_comparators :
      (lhs rhs : Text)
      → ((b : Bool) × (evaluate doubles lhs ComparatorType.is rhs ≡ done b)
          × (evaluate doubles lhs ComparatorType.is_not rhs ≡ done (not b)))
        × ((b : Bool) × (evaluate doubles lhs ComparatorType.eq rhs ≡ done b)
            × (evaluate doubles lhs ComparatorType.ne rhs ≡ done (not b)))
        × ((b : Bool) × (c : Bool) × (evaluate doubles lhs ComparatorType.like rhs ≡ done b)
            × (evaluate doubles lhs ComparatorType.not_like rhs ≡ done c)
            × (classify doubles lhs ≡ string → c ≡ not b)
            × (same_type (classify doubles lhs) string ≡ false → (b ≡ false) × (c ≡ false)))
  unfolding evaluate
  negated_comparators lhs rhs = (
    (_, refl, ap done (ground arith)),
    (_, refl, ap done (ground arith)),
    (_, _, refl, refl, (λ e. rw e), (λ e. (rw e, rw e))),
  )

  string_type : (t : RuntimeType) → same_type t string ≡ true → t ≡ string
  unfolding same_type
  string_type RuntimeType.nulltype h = absurd cc
  string_type RuntimeType.boolean h = absurd cc
  string_type RuntimeType.number h = absurd cc
  string_type string h = refl

  and_true : (a b : Bool) → (a && b) ≡ true → (a ≡ true) × (b ≡ true)
  and_true true true h = (refl, refl)
  and_true true false h = absurd cc
  and_true false b h = absurd cc

  -- On a cell of one line, LIKE answers true exactly when the cell is a string, so neither a number nor TRUE,
  -- FALSE or NULL nor empty, and is LIKE the literal.
  pub evaluate_like_iff :
      (lhs rhs : Text)
      → IsOneLine lhs
      → (evaluate doubles lhs ComparatorType.like rhs ≡ done true)
        ↔ ((classify doubles lhs ≡ string) × Like rhs lhs)
  unfolding evaluate
  evaluate_like_iff lhs rhs one = (
    (λ h.
        let parts =
          and_true (same_type (classify doubles lhs) string) (like_match lhs rhs) (done_inj h) in
        (string_type (classify doubles lhs) parts.0, (like_match_iff lhs rhs one).0 parts.1)),
    (λ h. rw h.0 (ap done ((like_match_iff lhs rhs one).1 h.1))),
  )

  same_type_refl : (t : RuntimeType) → same_type t t ≡ true
  unfolding same_type
  same_type_refl RuntimeType.nulltype = refl
  same_type_refl RuntimeType.boolean = refl
  same_type_refl RuntimeType.number = refl
  same_type_refl string = refl

  -- `=` answers true exactly when the two texts are the same, also between numbers.
  pub evaluate_eq_iff :
      (lhs rhs : Text) → (evaluate doubles lhs ComparatorType.eq rhs ≡ done true) ↔ (lhs ≡ rhs)
  unfolding evaluate
  evaluate_eq_iff lhs rhs = (
    λ h.
        let same =
          and_true (same_type (classify doubles lhs) (classify doubles rhs)) (text_eq lhs rhs)
            (done_inj h) in
        (text_eq_iff lhs rhs).0 same.1,
    λ e. rw (e, same_type_refl (classify doubles rhs)) (ap done (text_eq_refl rhs)),
  )

  -- The answer of `=` is the comparison of the texts.
  pub evaluate-eq :
      (lhs rhs : Text) → evaluate doubles lhs ComparatorType.eq rhs ≡ done (text_eq lhs rhs)
  unfolding evaluate
  evaluate-eq lhs rhs = elim (Bool-cases (text_eq lhs rhs)) [
    | inl same ↦ rw ((text_eq_iff lhs rhs).0 same, same_type_refl (classify doubles rhs)) refl
    | inr other ↦ rw other (ap done (ground arith))
  ]
