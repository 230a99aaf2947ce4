-- ===== src/Normalizer/Rows.antt =====
-- The rows of an INSERT in schema order: normalizeInsert of DBEngine/services/semantic_normalizer.
use bsc_thesis.Base.{
  ℕ, zero, suc, ◌≡◌, refl, sym, ap, ap₂, ◌∙◌, Bool, true, false, List, [], ◌∷◌, Option, none, some,
  Text, text_eq, text_eq-sym, text_eq-cases, text_eq_refl, if◌then◌else◌, length, length-map,
  replicate, get_or, map, lookup, ltb, Option-cases, Bool-cases, inl, inr,
}
use bsc_thesis.Ast.{UntypedColumnDefNode, LiteralNode, ValueRecordNode, InsertNode}
use bsc_thesis.Utils.Columns.{Schema, column_names, contains, index_of, Distinct, index_of-missing}
use bsc_thesis.Context.{ExecutionContext}
use bsc_thesis.Normalizer.{
  empty_literal, mask_loop, fill_row, rows_loop, listed_or, normalize_insert,
}
use bsc_thesis.Normalizer.Masks.{set_at-index_of, replicate-map, map-ext, mask_loop_lem}

-- The value that a row gives for a column: the one at the column's place in the list, the implicit
-- value where the row ends before it, and `before` where the column is not listed.
abbrev pub given_value {ℓ} : {A : Type ℓ} → A → List A → A → Option ℕ → A
given_value implicit values before none = before
given_value implicit values before (some i) = get_or values i implicit

given_step {ℓ} :
    {A : Type ℓ} (implicit v before : A) (values : List A) (c x : Text) (cs : List Text)
    → contains c cs ≡ false
    → given_value implicit values (if text_eq x c then v else before) (index_of x cs)
      ≡ given_value implicit (v ∷ values) before (index_of x (c ∷ cs))
unfolding index_of
given_step implicit v before values c x cs absent = elim (text_eq-cases x c) [
  | inl same ↦ rw (same, text_eq_refl c, index_of-missing c cs absent) refl
  | inr differ ↦
      let differ' : text_eq c x ≡ false = text_eq-sym c x ∙ differ in
      elim (Option-cases (index_of x cs)) [
        | inl e ↦ rw (e, differ, differ') refl
        | inr (i, e) ↦ rw (e, differ') refl
      ]
]

-- A row that has ended reads like one whose next value is the implicit one.
given_value-ended {ℓ} :
    {A : Type ℓ} (implicit before : A) (o : Option ℕ)
    → given_value implicit (implicit ∷ []) before o ≡ given_value implicit [] before o
given_value-ended implicit before none = refl
given_value-ended implicit before (some zero) = refl
given_value-ended implicit before (some (suc i)) = refl

fill_row_lem {ℓ} :
    {A : Type ℓ} (implicit : A) (full columns : List Text) (values : List A) (f : Text → A)
    → Distinct full
    → Distinct columns
    → fill_row implicit full columns values (map f full)
      ≡ map (λ x. given_value implicit values (f x) (index_of x columns)) full
unfolding fill_row
fill_row_lem implicit full [] values f distinct listed =
    map-ext f _ full (λ x. unfold index_of in refl)
fill_row_lem implicit full (c ∷ cs) [] f distinct listed =
    rw (set_at-index_of c implicit f full distinct) (
      fill_row_lem implicit full cs [] (λ x. if text_eq x c then implicit else f x) distinct
        listed.1
      ∙ map-ext _ _ full (λ x.
        given_step implicit implicit (f x) [] c x cs listed.0
        ∙ given_value-ended implicit (f x) (index_of x (c ∷ cs))))
fill_row_lem implicit full (c ∷ cs) (v ∷ values) f distinct listed =
    rw (set_at-index_of c v f full distinct) (
      fill_row_lem implicit full cs values (λ x. if text_eq x c then v else f x) distinct listed.1
      ∙ map-ext _ _ full (λ x. given_step implicit v (f x) values c x cs listed.0))

-- What a record of VALUES becomes: for each column of the schema the literal given for it, an
-- implicit empty one where the record ends before it, and a null pointer where it is not listed.
abbrev pub in_schema_order : List Text → List Text → ValueRecordNode → ValueRecordNode
in_schema_order full columns r = record {
  values = map (λ x. given_value (some empty_literal) r.values none (index_of x columns)) full;
}

rows_loop-many :
    (full columns : List Text) (r : ValueRecordNode) (rs : List ValueRecordNode)
    → ltb (length full) (length r.values) ≡ true
    → rows_loop full columns (r ∷ rs) ≡ (false, r ∷ rs)
unfolding rows_loop
rows_loop-many full columns r rs many = rw (many, rows_loop) refl

rows_loop-fits :
    (full columns : List Text) (r : ValueRecordNode) (rs : List ValueRecordNode)
    → ltb (length full) (length r.values) ≡ false
    → rows_loop full columns (r ∷ rs) ≡ (
      (rows_loop full columns rs).0,
      record {
        values = fill_row (some empty_literal) full columns r.values (replicate (length full) none);
      }
          ∷ (rows_loop full columns rs).1,
    )
unfolding rows_loop
rows_loop-fits full columns r rs fits = rw (fits, rows_loop) refl

rows_loop_lem :
    (full columns : List Text) (rs : List ValueRecordNode)
    → Distinct full
    → Distinct columns
    → (rows_loop full columns rs).0 ≡ true
    → (rows_loop full columns rs).1 ≡ map (in_schema_order full columns) rs
rows_loop_lem full columns [] distinct listed h = unfold rows_loop in refl
rows_loop_lem full columns (r ∷ rs) distinct listed h =
    let row =
      ap (λ start. fill_row (some empty_literal) full columns r.values start)
        (replicate-map none full)
      ∙ fill_row_lem (some empty_literal) full columns r.values (λ _. none) distinct listed in
    elim (Bool-cases (ltb (length full) (length r.values))) [
      | inl many ↦
          let clash : false ≡ true =
            sym (ap (λ t. t.0) (rows_loop-many full columns r rs many)) ∙ h in
          cc
      | inr fits ↦
          let step = rows_loop-fits full columns r rs fits in
          ap (λ t. t.1) step
          ∙ ap₂ (λ (vs : List (Option LiteralNode)) ts. record { values = vs } ∷ ts) row
              (rows_loop_lem full columns rs distinct listed (sym (ap (λ t. t.0) step) ∙ h))
    ]

-- Where normalizeInsert refuses a statement on a table that exists.
insert_unknown :
    (node : InsertNode) (ctx : ExecutionContext) (schema : Schema)
    → lookup node.table_name ctx.untyped_tables ≡ some schema
    → (mask_loop
        (column_names schema)
        (listed_or node.columns (column_names schema))
        (replicate (length schema) false)).0
      ≡ false
    → (normalize_insert node ctx).0 ≡ false
unfolding normalize_insert
insert_unknown node ctx schema known missing = rw (known, normalize_insert, missing) refl

insert_too_long :
    (node : InsertNode) (ctx : ExecutionContext) (schema : Schema)
    → lookup node.table_name ctx.untyped_tables ≡ some schema
    → (rows_loop
        (column_names schema)
        (listed_or node.columns (column_names schema))
        node.records).0
      ≡ false
    → (normalize_insert node ctx).0 ≡ false
unfolding normalize_insert
insert_too_long node ctx schema known long =
    let mask =
      mask_loop (column_names schema) (listed_or node.columns (column_names schema))
        (replicate (length schema) false) in
    elim (Bool-cases mask.0) [
      | inl all_known ↦ rw (known, normalize_insert, all_known, long) refl
      | inr missing ↦ insert_unknown node ctx schema known missing
    ]

-- An INSERT that normalizeInsert accepts, into a table whose column names differ and with a column
-- list that names no column twice: its column list is the schema's, its mask is set exactly at the
-- listed columns, and each record gives for each column of the schema the literal that was written
-- for it, an empty literal where the record ends before it, and a null pointer where it is not
-- listed.
pub normalized_insert :
    (node : InsertNode) (ctx : ExecutionContext) (schema : Schema)
    → lookup node.table_name ctx.untyped_tables ≡ some schema
    → Distinct (column_names schema)
    → Distinct (listed_or node.columns (column_names schema))
    → (normalize_insert node ctx).0 ≡ true
    → (normalize_insert node ctx).1 ≡ record node {
      columns = some (column_names schema);
      records =
          map
            (in_schema_order (column_names schema) (listed_or node.columns (column_names schema)))
            node.records;
      projection_mask =
          map
            (λ x. contains x (listed_or node.columns (column_names schema)))
            (column_names schema);
      is_normalized = true;
    }
unfolding normalize_insert
normalized_insert node ctx schema known distinct listed ok =
    let full = column_names schema in
    let columns = listed_or node.columns full in
    elim (Bool-cases (mask_loop full columns (replicate (length schema) false)).0) [
      | inl all_known ↦ elim (Bool-cases (rows_loop full columns node.records).0) [
        | inl fits ↦
            rw (known, normalize_insert, all_known, fits)
              (ap₂
                (λ (rs : List ValueRecordNode) (mask : List Bool). record node {
                  columns = some full;
                  records = rs;
                  projection_mask = mask;
                  is_normalized = true;
                })
                (rows_loop_lem full columns node.records distinct listed fits)
                (mask_loop_lem full columns (length schema)
                  (sym (length-map {0, 0} (λ (col : UntypedColumnDefNode). col.name) schema))
                  distinct all_known))
        | inr long ↦
            let clash : false ≡ true = sym (insert_too_long node ctx schema known long) ∙ ok in cc
      ]
      | inr missing ↦
          let clash : false ≡ true = sym (insert_unknown node ctx schema known missing) ∙ ok in cc
    ]
