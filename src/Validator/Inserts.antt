-- ===== src/Validator/Inserts.antt =====
-- The primary keys of an INSERT: validateInsertSemantics of DBEngine/services/semantic_validator.
use bsc_thesis.Base.{
  ℕ, ◌+◌, ◌*◌, ◌≡◌, refl, sym, ap, ap₂, subst, ◌∙◌, Bool, true, false, not, ◌&&◌, List, [], ◌∷◌,
  ◌++◌, Option, none, some, Text, All, text_eq_iff, if◌then◌else◌, ltb, length, length-append,
  lookup, arith, Bool-cases, inl, inr,
}
use bsc_thesis.Status.{Outcome, done}
use bsc_thesis.Ast.{UntypedColumnDefNode, LiteralNode, ValueRecordNode, InsertNode}
use bsc_thesis.Utils.Inserts.{get_modifiers, empty_literal_rule_violation}
use bsc_thesis.Utils.Columns.{
  Schema, contains, is_primary_key, extract_primary_key_column, Distinct,
}
use bsc_thesis.Storage.Scan.{Index}
use bsc_thesis.Context.{ExecutionContext, index_at}
use bsc_thesis.Validator.{
  Check, rejected, passed, then_check, is_empty_type, is_empty_value, key_check, value_check,
  values_loop, records_loop, validate_insert,
}

-- The key that a value is, where its column is a primary key.
unfoldable pub key_of : UntypedColumnDefNode → Option LiteralNode → List Text
key_of col none = []
key_of col (some lit) =
    if is_primary_key col && not (is_empty_type lit.type) then lit.value ∷ [] else []

unfoldable pub record_keys : Schema → List (Option LiteralNode) → List Text
record_keys [] values = []
record_keys (col ∷ cols) [] = []
record_keys (col ∷ cols) (lit ∷ values) = key_of col lit ++ record_keys cols values

-- The keys of a statement, record by record.
unfoldable pub statement_keys : Schema → List ValueRecordNode → List Text
statement_keys schema [] = []
statement_keys schema (r ∷ rs) = record_keys schema r.values ++ statement_keys schema rs

unfoldable pub key_columns : Schema → ℕ
key_columns [] = 0
key_columns (col ∷ cols) = (if is_primary_key col then 1 else 0) + key_columns cols

-- Keys that are neither in the index, nor among those seen before, nor twice here.
abbrev NewKeys : Index → List Text → List Text → Type 0
NewKeys pk_index seen [] = Unit
NewKeys pk_index seen (k ∷ ks) =
    (contains k seen ≡ false) × (lookup k pk_index ≡ none) × NewKeys pk_index (k ∷ seen) ks

abbrev pushed : List Text → List Text → List Text
pushed [] seen = seen
pushed (k ∷ ks) seen = pushed ks (k ∷ seen)

pushed-append : (ks ls seen : List Text) → pushed (ks ++ ls) seen ≡ pushed ls (pushed ks seen)
pushed-append [] ls seen = refl
pushed-append (k ∷ ks) ls seen = pushed-append ks ls (k ∷ seen)

NewKeys-append :
    (pk_index : Index) (ks ls seen : List Text)
    → NewKeys pk_index seen ks
    → NewKeys pk_index (pushed ks seen) ls
    → NewKeys pk_index seen (ks ++ ls)
NewKeys-append pk_index [] ls seen left right = right
NewKeys-append pk_index (k ∷ ks) ls seen left right =
    (left.0, left.1, NewKeys-append pk_index ks ls (k ∷ seen) left.2 right)

-- What a passed check of some values says of their keys.
abbrev Accepted : Index → List Text → List Text → List Text → ℕ → Type 0
Accepted pk_index seen keys seen' count =
    (seen' ≡ pushed keys seen) × NewKeys pk_index seen keys × (length keys ≡ count)

value_check_lem :
    (col : UntypedColumnDefNode) (pk_index : Index) (lit : Option LiteralNode) (is_written : Bool)
    (seen seen' : List Text)
    → value_check col pk_index lit is_written seen ≡ passed seen'
    → Accepted pk_index seen (key_of col lit) seen' (if is_primary_key col then 1 else 0)
unfolding value_check key_check is_empty_value key_of is_primary_key empty_literal_rule_violation
value_check_lem col pk_index none is_written seen seen' h =
    elim (Bool-cases (get_modifiers col.modifiers).primary_key) [
      | inl key ↦ ground arith
      | inr plain ↦ ground arith
    ]
value_check_lem col pk_index (some lit) is_written seen seen' h =
    elim (Bool-cases (get_modifiers col.modifiers).primary_key) [
      | inl key ↦ ground arith
      | inr plain ↦ ground arith
    ]

pub passed_parts {ℓ κ} :
    {A : Type ℓ} {B : Type κ} (m : Outcome (Check A)) (k : A → Outcome (Check B)) {b : B}
    → then_check m k ≡ done (passed b)
    → (a : A) × (m ≡ done (passed a)) × (k a ≡ done (passed b))
passed_parts (done (rejected e)) k h = cc
passed_parts (done (passed a)) k h = (a, refl, h)
passed_parts (Outcome.exited e) k h = cc
passed_parts Outcome.threw k h = cc
passed_parts Outcome.undefined k h = cc
passed_parts Outcome.out_of_fuel k h = cc

pub done-passed {ℓ} : {A : Type ℓ} (c : Check A) (a : A) → done c ≡ done (passed a) → c ≡ passed a
done-passed (rejected e) a h = cc
done-passed (passed b) a h = cc

Accepted-append :
    (pk_index : Index) (seen seen' seen'' ks ls : List Text) (m n : ℕ)
    → Accepted pk_index seen ks seen' m
    → Accepted pk_index seen' ls seen'' n
    → Accepted pk_index seen (ks ++ ls) seen'' (m + n)
Accepted-append pk_index seen seen' seen'' ks ls m n left right = (
  right.0 ∙ (ap (pushed ls) left.0 ∙ sym (pushed-append ks ls seen)),
  NewKeys-append pk_index ks ls seen left.1 (subst (λ s. NewKeys pk_index s ls) left.0 right.1),
  length-append ks ls ∙ ap₂ (λ a b. a + b) left.2 right.2,
)

values_loop_lem :
    (pk_index : Index) (cols : Schema) (values : List (Option LiteralNode)) (mask : List Bool)
    (seen seen' : List Text)
    → values_loop pk_index cols values mask seen ≡ done (passed seen')
    → Accepted pk_index seen (record_keys cols values) seen' (key_columns cols)
unfolding values_loop record_keys key_columns
values_loop_lem pk_index [] values mask seen seen' h = (ground arith, tt, refl)
values_loop_lem pk_index (col ∷ cols) [] mask seen seen' h = absurd cc
values_loop_lem pk_index (col ∷ cols) (lit ∷ values) [] seen seen' h = absurd cc
values_loop_lem pk_index (col ∷ cols) (lit ∷ values) (is_written ∷ mask) seen seen' h =
    let (between, now, later) =
      passed_parts (done (value_check col pk_index lit is_written seen))
        (values_loop pk_index cols values mask) h in
    Accepted-append pk_index seen between seen' (key_of col lit) (record_keys cols values) _
      (key_columns cols)
      (value_check_lem col pk_index lit is_written seen between (done-passed _ between now))
      (values_loop_lem pk_index cols values mask between seen' later)

records_loop_lem :
    (pk_index : Index) (schema : Schema) (mask : List Bool) (rs : List ValueRecordNode)
    (seen seen' : List Text)
    → records_loop pk_index schema mask rs seen ≡ done (passed seen')
    → Accepted pk_index seen (statement_keys schema rs) seen' (length rs * key_columns schema)
unfolding records_loop statement_keys
records_loop_lem pk_index schema mask [] seen seen' h = (ground arith, tt, omega arith)
records_loop_lem pk_index schema mask (r ∷ rs) seen seen' h =
    elim (Bool-cases (ltb (length schema) (length r.values))) [
      | inl many ↦ absurd (let clash = rw many at h in cc)
      | inr fits ↦
          let (between, now, later) =
            passed_parts (values_loop pk_index schema r.values mask seen)
              (records_loop pk_index schema mask rs) (rw fits at h) in
          subst (Accepted pk_index seen (statement_keys schema (r ∷ rs)) seen') (omega arith) (
            Accepted-append pk_index seen between seen' (record_keys schema r.values)
              (statement_keys schema rs) (key_columns schema) (length rs * key_columns schema)
              (values_loop_lem pk_index schema r.values mask seen between now)
              (records_loop_lem pk_index schema mask rs between seen' later))
    ]

NewKeys-unseen :
    (pk_index : Index) (ks seen : List Text) (k : Text)
    → NewKeys pk_index seen ks
    → contains k seen ≡ true
    → contains k ks ≡ false
unfolding contains
NewKeys-unseen pk_index [] seen k new known = refl
NewKeys-unseen pk_index (x ∷ ks) seen k new known =
    let later : contains k ks ≡ false =
      NewKeys-unseen pk_index ks (x ∷ seen) k new.2 (ground (arith, known)) in
    ground (arith, text_eq_iff x k, later)

NewKeys-Distinct : (pk_index : Index) (ks seen : List Text) → NewKeys pk_index seen ks → Distinct ks
NewKeys-Distinct pk_index [] seen new = tt
NewKeys-Distinct pk_index (k ∷ ks) seen new = (
  NewKeys-unseen pk_index ks (k ∷ seen) k new.2
      (unfold contains in ground (arith, text_eq_iff k k)),
  NewKeys-Distinct pk_index ks (k ∷ seen) new.2,
)

NewKeys-All :
    (pk_index : Index) (ks seen : List Text)
    → NewKeys pk_index seen ks
    → All (λ (k : Text). lookup k pk_index ≡ none) ks
NewKeys-All pk_index [] seen new = tt
NewKeys-All pk_index (k ∷ ks) seen new = (new.1, NewKeys-All pk_index ks (k ∷ seen) new.2)

pub inserted_keys :
    (node : InsertNode) (ctx : ExecutionContext) (schema : Schema) (pk_col : Text)
    (pk_index : Index) (seen : List Text)
    → lookup node.table_name ctx.untyped_tables ≡ some schema
    → extract_primary_key_column schema ≡ done pk_col
    → index_at ctx node.table_name pk_col ≡ done pk_index
    → validate_insert node ctx ≡ done (passed seen)
    → (length (statement_keys schema node.records) ≡ length node.records * key_columns schema)
      × Distinct (statement_keys schema node.records)
      × All (λ (k : Text). lookup k pk_index ≡ none) (statement_keys schema node.records)
unfolding validate_insert
inserted_keys node ctx schema pk_col pk_index seen known pk indexed h =
    let run : records_loop pk_index schema node.projection_mask node.records []
        ≡ done (passed seen) =
      rw (known, validate_insert, pk, indexed) at h in
    let (_, new, count) =
      records_loop_lem pk_index schema node.projection_mask node.records [] seen run in
    (
      count,
      NewKeys-Distinct pk_index (statement_keys schema node.records) [] new,
      NewKeys-All pk_index (statement_keys schema node.records) [] new,
    )
