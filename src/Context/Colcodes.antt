-- ===== src/Context/Colcodes.antt =====
-- The column codes: initializeColumnEncodingMapForTable of DBEngine/execution_context.
use bsc_thesis.Base.{
  ℕ, ◌+◌, ◌%◌, ◌^◌, ◌≤◌, ◌<◌, ◌≡◌, refl, ap, ◌∙◌, Bool, false, List, [], ◌∷◌, Option, none, some,
  Text, text_eq_iff, text_eq_refl, ◌==◌, length, lookup, map_set, lookup-map_set, arith, inl, inr,
  Bool-cases,
}
use bsc_thesis.Status.{
  done, exited, handle_fatal_error, col_offset_region_has_more_cols_than_allowed,
}
use bsc_thesis.Utils.Columns.{Schema, column_names, contains, index_of, Distinct, index_of-missing}
use bsc_thesis.Context.{ExecutionContext, colcode_loop, initialize_column_encoding_map}

-- The code of a column: that of its position, and what the map held before where it has none.
abbrev code_of : ℕ → Option ℕ → Option ℕ → Option ℕ
code_of code before none = before
code_of code before (some i) = some (code + i)

code_step :
    (c name : Text) (names : List Text) (code : ℕ) (colcodes : List (Text × ℕ))
    → contains c names ≡ false
    → code_of (code + 1) (lookup name (map_set c code colcodes)) (index_of name names)
      ≡ code_of code (lookup name colcodes) (index_of name (c ∷ names))
unfolding index_of
code_step c name names code colcodes absent = ground (
  arith,
  text_eq_iff c name,
  index_of-missing c names absent,
  lookup-map_set name c code colcodes,
)

colcode_loop_lem :
    (is_silent_mode : Bool) (cols : Schema) (code : ℕ) (colcodes : List (Text × ℕ))
    → code + length cols < 2 ^ 8
    → Distinct (column_names cols)
    → (colcodes' : List (Text × ℕ)) × (colcode_loop is_silent_mode cols code colcodes
        ≡ done colcodes')
      × ((name : Text)
          → lookup name colcodes'
            ≡ code_of code (lookup name colcodes) (index_of name (column_names cols)))
unfolding colcode_loop
colcode_loop_lem is_silent_mode [] code colcodes small distinct =
    (colcodes, refl, λ name. unfold index_of in refl)
colcode_loop_lem is_silent_mode (col ∷ cols) code colcodes small distinct =
    let (colcodes', ends, codes_of) =
      colcode_loop_lem is_silent_mode cols (code + 1) (map_set col.name code colcodes) (omega arith)
        distinct.1 in
    let next : (code + 1) % 2 ^ 8 ≡ code + 1 = omega (arith, small) in
    let nonzero : (code + 1 == 0) ≡ false = ground arith in
    (
      colcodes',
      rw (next, nonzero) ends,
      λ name. codes_of name ∙ code_step col.name name (column_names cols) code colcodes distinct.0,
    )

code_of-zero : (o : Option ℕ) → code_of 0 none o ≡ o
code_of-zero none = refl
code_of-zero (some i) = ap some (omega arith)

-- A table of fewer than 256 columns, whose names differ, gets for each column the code that is its
-- position in the schema, and no code for any other name.
pub colcode_is_position :
    (is_silent_mode : Bool) (ctx : ExecutionContext) (table_name : Text) (schema : Schema)
    → lookup table_name ctx.untyped_tables ≡ some schema
    → length schema < 2 ^ 8
    → Distinct (column_names schema)
    → (ctx' : ExecutionContext) × (colcodes : List (Text × ℕ)) × (initialize_column_encoding_map
          is_silent_mode ctx table_name
        ≡ done ctx')
      × (lookup table_name ctx'.table_colcodes ≡ some colcodes)
      × ((name : Text) → lookup name colcodes ≡ index_of name (column_names schema))
unfolding initialize_column_encoding_map index_of lookup
colcode_is_position is_silent_mode ctx table_name schema known small distinct =
    let (colcodes, ends, codes_of) =
      colcode_loop_lem is_silent_mode schema 0 [] (omega arith) distinct in
    (
      record ctx { table_colcodes = map_set table_name colcodes ctx.table_colcodes },
      colcodes,
      rw (known, initialize_column_encoding_map, ends) refl,
      lookup-map_set table_name table_name colcodes ctx.table_colcodes
          ∙ rw (text_eq_refl table_name) refl,
      λ name. codes_of name ∙ code_of-zero (index_of name (column_names schema)),
    )

colcode_loop-exits :
    (cols : Schema) (code : ℕ) (colcodes : List (Text × ℕ))
    → code < 2 ^ 8
    → 2 ^ 8 ≤ code + length cols
    → colcode_loop false cols code colcodes ≡ exited col_offset_region_has_more_cols_than_allowed
unfolding colcode_loop handle_fatal_error
colcode_loop-exits [] code colcodes small many = absurd (omega arith)
colcode_loop-exits (col ∷ cols) code colcodes small many =
    elim (Bool-cases ((code + 1) % 2 ^ 8 == 0)) [
      | inl wraps ↦ rw wraps refl
      | inr other ↦
          let next : (code + 1) % 2 ^ 8 ≡ code + 1 = ground arith in
          rw (other, next) (colcode_loop-exits cols (code + 1) _ (ground arith) (omega arith))
    ]

-- A table of 256 or more columns ends the program outside of silent mode.
pub too_many_columns :
    (ctx : ExecutionContext) (table_name : Text) (schema : Schema)
    → lookup table_name ctx.untyped_tables ≡ some schema
    → 2 ^ 8 ≤ length schema
    → initialize_column_encoding_map false ctx table_name
      ≡ exited col_offset_region_has_more_cols_than_allowed
unfolding initialize_column_encoding_map
too_many_columns ctx table_name schema known many =
    rw
      (
        known,
        initialize_column_encoding_map,
        colcode_loop-exits schema 0 [] (omega arith) (omega arith),
      )
      refl
