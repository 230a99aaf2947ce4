-- ===== src/Utils/Inserts.antt =====
-- auxiliary/utils/insert_utils.cpp: column modifiers and defaults.
use bsc_thesis.Base.{
  Bool, true, false, not, ◌&&◌, List, [], ◌∷◌, Option, none, some, Text, codes, text_eq, ltb,
  if◌then◌else◌, length, drop,
}
use bsc_thesis.Status.{ErrorCode, Outcome, done, threw}
use bsc_thesis.Utils.Strings.{trim, find, remove_outer_quotes}

-- DB_Types::colmodifiers_t
pub record ColModifiers : Type 0 where
  pub has_default : Bool
  pub primary_key : Bool
  pub not_null : Bool
  pub unique : Bool

abbrev pub no_modifiers : ColModifiers
no_modifiers = record { has_default = false; primary_key = false; not_null = false; unique = false }

-- current_modifier.find("DEFAULT") != npos
unfoldable pub mentions_default : Text → Bool
unfolding find
mentions_default modifier = elim (find modifier (codes "DEFAULT")) [ none ↦ false | some _ ↦ true ]

-- One round of the loop of getModifiers.
unfoldable pub add_modifier : ColModifiers → Text → ColModifiers
unfolding mentions_default trim text_eq
add_modifier answer modifier =
    let current_modifier = trim modifier in
    if mentions_default current_modifier
    then record answer { has_default = true }
    else (if text_eq current_modifier (codes "PRIMARY KEY")
        then record answer { primary_key = true }
        else (if text_eq current_modifier (codes "NOT NULL")
            then record answer { not_null = true }
            else (if text_eq current_modifier (codes "UNIQUE")
                then record answer { unique = true }
                else answer)))

unfoldable pub modifiers_loop : ColModifiers → List Text → ColModifiers
unfolding add_modifier
modifiers_loop answer [] = answer
modifiers_loop answer (m ∷ ms) = modifiers_loop (add_modifier answer m) ms

unfoldable pub get_modifiers : List Text → ColModifiers
unfolding modifiers_loop
get_modifiers modifiers = modifiers_loop no_modifiers modifiers

-- hasEmptyLiteralRuleViolations, with the error that it prints.
unfoldable pub empty_literal_rule_violation : ColModifiers → Option ErrorCode
empty_literal_rule_violation checklist =
    if checklist.primary_key
    then some ErrorCode.insert_primary_key_cannot_be_empty
    else (if checklist.not_null && not checklist.has_default
        then some ErrorCode.insert_not_null_no_default_violation
        else none)

-- getDefaultValue; `substr(8)` throws on a text of fewer than 8 bytes.
unfoldable pub get_default_value : List Text → Outcome Text
unfolding mentions_default trim remove_outer_quotes
get_default_value [] = done []
get_default_value (m ∷ ms) =
    let rest = get_default_value ms in
    let current_modifier = trim m in
    if mentions_default current_modifier
    then (if ltb (length current_modifier) 8
        then threw
        else done (remove_outer_quotes (drop 8 current_modifier)))
    else rest
