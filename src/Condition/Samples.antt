-- ===== src/Condition/Samples.antt =====
-- Runs of the condition evaluator, and its theorems at concrete cells.
use bsc_thesis.Base.{◌≡◌, refl, ◌↔◌, true, false, not, codes, text_eq}
use bsc_thesis.Ast.{ComparatorType}
use bsc_thesis.Base.{replicate, Bool}
use bsc_thesis.Status.{done, threw}
use bsc_thesis.Condition.{
  stod, order_doubles, string, same_type, is_numeric, classify, compare_doubles, evaluate,
}
use bsc_thesis.Condition.Integers.{integers}
use bsc_thesis.Condition.Regex.{
  is_special, regex_body, regex_of, compile, is_line_terminator, matches, like_match,
}
use bsc_thesis.Condition.Like.{Like, like_match_iff}
use bsc_thesis.Condition.Agreement.{negated_comparators, evaluate_like_iff, evaluate_eq_iff}

like_wildcards : like_match (codes "a.tt*") (codes "%.t_*") ≡ true
unfolding like_match regex_of regex_body compile matches is_special
like_wildcards = refl

-- `.` of an ECMAScript regular expression does not match a line feed, so `%` does not either.
like_line_feed : like_match (codes "a\nb") (codes "a%") ≡ false
unfolding like_match regex_of regex_body compile matches is_special
like_line_feed = refl

less_than : evaluate integers (codes "7") ComparatorType.lt (codes "12") ≡ done true
unfolding evaluate classify is_numeric text_eq compare_doubles stod order_doubles
less_than = refl

-- 1 <= 01 and 01 <= 1, and still 1 = 01 is false.
equal_numbers_differ : evaluate integers (codes "1") ComparatorType.eq (codes "01") ≡ done false
unfolding evaluate classify is_numeric text_eq compare_doubles stod order_doubles
equal_numbers_differ = refl

-- std::stod throws on a number beyond the range of double.
out_of_range : evaluate integers (replicate 400 57) ComparatorType.lt (codes "5") ≡ threw
unfolding evaluate classify is_numeric text_eq compare_doubles stod
out_of_range = refl

like_match_iff_example :
    (like_match (codes "abc") (codes "a%") ≡ true) ↔ Like (codes "a%") (codes "abc")
unfolding is_line_terminator
like_match_iff_example = like_match_iff (codes "abc") (codes "a%") (refl, (refl, (refl, tt)))

negated_comparators_example :
    ((b : Bool) × (evaluate integers (codes "TRUE") ComparatorType.is (codes "FALSE") ≡ done b)
      × (evaluate integers (codes "TRUE") ComparatorType.is_not (codes "FALSE") ≡ done (not b)))
    × ((b : Bool) × (evaluate integers (codes "TRUE") ComparatorType.eq (codes "FALSE") ≡ done b)
        × (evaluate integers (codes "TRUE") ComparatorType.ne (codes "FALSE") ≡ done (not b)))
    × ((b : Bool) × (c : Bool) × (evaluate integers
            (codes "TRUE")
            ComparatorType.like
            (codes "FALSE")
          ≡ done b)
        × (evaluate integers (codes "TRUE") ComparatorType.not_like (codes "FALSE") ≡ done c)
        × (classify integers (codes "TRUE") ≡ string → c ≡ not b)
        × (same_type (classify integers (codes "TRUE")) string ≡ false → (b ≡ false) × (c ≡ false)))
negated_comparators_example = negated_comparators integers (codes "TRUE") (codes "FALSE")

evaluate_like_iff_example :
    (evaluate integers (codes "ab") ComparatorType.like (codes "_b") ≡ done true)
    ↔ ((classify integers (codes "ab") ≡ string) × Like (codes "_b") (codes "ab"))
unfolding is_line_terminator
evaluate_like_iff_example = evaluate_like_iff integers (codes "ab") (codes "_b") (refl, (refl, tt))

evaluate_eq_iff_example :
    (evaluate integers (codes "1") ComparatorType.eq (codes "01") ≡ done true)
    ↔ (codes "1" ≡ codes "01")
evaluate_eq_iff_example = evaluate_eq_iff integers (codes "1") (codes "01")
