-- ===== src/Utils/Columns.antt =====
-- auxiliary/utils/column_utils.cpp: looking columns up in a schema.
use bsc_thesis.Base.{
  ℕ, zero, suc, Bool, false, ◌||◌, List, [], ◌∷◌, Option, none, some, Text, text_eq, map,
  if◌then◌else◌, ◌≡◌, refl, arith,
}
use bsc_thesis.Ast.{UntypedColumnDefNode}
use bsc_thesis.Status.{Outcome, done, undefined}
use bsc_thesis.Utils.Inserts.{get_modifiers}

abbrev pub Schema : Type 0
Schema = List UntypedColumnDefNode

-- extractColumnNamesFromTable; the unordered set is only asked for membership.
abbrev pub column_names : Schema → List Text
column_names schema = map (λ col. col.name) schema

unfoldable pub contains : Text → List Text → Bool
unfolding text_eq
contains name [] = false
contains name (x ∷ xs) = text_eq x name || contains name xs

-- columnsExistInTable of a column list: the first name that is missing, if one is.
unfoldable pub missing_column : List Text → Schema → Option Text
unfolding contains
missing_column [] schema = none
missing_column (name ∷ names) schema =
    let rest = missing_column names schema in
    if contains name (column_names schema) then rest else some name

-- std::find over the names, as a position; none stands for end().
unfoldable pub index_of : Text → List Text → Option ℕ
unfolding text_eq
index_of name [] = none
index_of name (x ∷ xs) =
    let rest : Option ℕ = elim (index_of name xs) [ none ↦ none | some i ↦ some (suc i) ] in
    if text_eq x name then some zero else rest

unfoldable pub is_primary_key : UntypedColumnDefNode → Bool
unfolding get_modifiers
is_primary_key col = (get_modifiers col.modifiers).primary_key

-- extractPrimaryKeyColumn runs off its end where no column is a primary key.
unfoldable pub extract_primary_key_column : Schema → Outcome Text
unfolding is_primary_key
extract_primary_key_column [] = undefined
extract_primary_key_column (col ∷ cols) =
    let rest = extract_primary_key_column cols in if is_primary_key col then done col.name else rest

-- No name stands twice.
abbrev pub Distinct : List Text → Type 0
Distinct [] = Unit
Distinct (x ∷ xs) = (contains x xs ≡ false) × Distinct xs

pub index_of-missing :
    (name : Text) (xs : List Text) → contains name xs ≡ false → index_of name xs ≡ none
unfolding contains index_of
index_of-missing name [] h = refl
index_of-missing name (x ∷ xs) h = ground (arith, index_of-missing name xs)
