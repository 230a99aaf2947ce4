-- ===== src/Storage/Scan/Select.antt =====
-- The sequential branch of selectData (handlers/select.cpp) on a well-formed table file.
use bsc_thesis.Base.{
  ℕ, zero, suc, ◌+◌, ◌^◌, ◌<◌, ◌≡◌, refl, sym, ap, ◌∙◌, Bool, true, false, not, ◌&&◌, List, [], ◌∷◌,
  ◌++◌, Option, none, some, Text, length, All, drop, arith, length-append, append-nil, append_assoc,
  if◌then◌else◌, Bool-cases, inl, inr, get_elem?, ◌==◌,
}
use bsc_thesis.Status.{Outcome, done, ◌>>=◌, >>=-ext, >>=-ext_bool, >>=-done, >>=_assoc}
use bsc_thesis.Ast.{WhereNode}
use bsc_thesis.Utils.Columns.{Schema}
use bsc_thesis.Condition.{Doubles, evaluate_comparator}
use bsc_thesis.Stream.Reading.{good, bad}
use bsc_thesis.Storage.{
  is_tombstone, endoftable, TableRecord, record_body, record_bytes, records_bytes, IsRecord,
}
use bsc_thesis.Storage.Deserializer.{check_column, deserialize_next_record}
use bsc_thesis.Storage.Layout.{record_head_end, length-record_bytes, next_record}
use bsc_thesis.Storage.Reads.{project, stored_values, checked, next_record_dead, next_record_alive}
use bsc_thesis.Storage.Scan.{select_loop}

next_record_end :
    (doubles : Doubles) (file : List ℕ) (p : ℕ) (schema : Schema) (mask : List Bool)
    (clause : Option WhereNode)
    → drop p file ≡ []
    → deserialize_next_record doubles (good file p) schema mask clause
      ≡ done (endoftable, [], bad file p)
unfolding deserialize_next_record
next_record_end doubles file p schema mask clause h =
    rw (record_head_end file p h, deserialize_next_record)

-- The comparison at the column that the clause was resolved to, which may throw. A column that the
-- row does not have leaves where_result at its initial true.
unfoldable pub decide : Doubles → Option WhereNode → List Text → Outcome Bool
decide doubles none values = done true
decide doubles (some clause) values =
    let cond = clause.condition in
    elim (get_elem? values cond.schema_index) [
      | none ↦ done true
      | some value ↦ evaluate_comparator doubles value cond.cmp cond.literal_value
    ]

abbrev is_met : Outcome Bool → Bool
is_met (done b) = b
is_met _ = false

-- Whether a row meets the clause.
unfoldable pub meets : Doubles → Option WhereNode → List Text → Bool
meets doubles clause values = is_met (decide doubles clause values)

-- The comparison of a live record's row does not throw.
abbrev pub Decided : Doubles → Option WhereNode → TableRecord → Type 0
Decided doubles clause r =
    is_tombstone r.record_type ≡ false
    → decide doubles clause (stored_values r) ≡ done (meets doubles clause (stored_values r))

pub decided-done :
    (doubles : Doubles) (clause : Option WhereNode) (values : List Text) (b : Bool)
    → decide doubles clause values ≡ done b
    → decide doubles clause values ≡ done (meets doubles clause values)
unfolding meets
decided-done doubles clause values b h = rw h refl

-- Without a clause nothing throws.
pub Decided-none : (doubles : Doubles) (rs : List TableRecord) → All (Decided doubles none) rs
unfolding meets decide
Decided-none doubles [] = tt
Decided-none doubles (r ∷ rs) = ((λ _. refl), Decided-none doubles rs)

checked-none :
    (doubles : Doubles) (vs : List Text) (i : ℕ) (w : Bool) → checked doubles none i vs w ≡ done w
unfolding checked check_column
checked-none doubles [] i w = refl
checked-none doubles (v ∷ vs) i w = checked-none doubles vs (i + 1) w

-- Behind the column that the clause names, nothing changes the result.
checked_past :
    (doubles : Doubles) (clause : WhereNode) (vs : List Text) (i : ℕ) (w : Bool)
    → clause.condition.schema_index < i
    → checked doubles (some clause) i vs w ≡ done w
unfolding checked check_column
checked_past doubles clause [] i w h = refl
checked_past doubles clause (v ∷ vs) i w h =
    let other : (clause.condition.schema_index == i) ≡ false = ground arith in
    rw other (checked_past doubles clause vs (i + 1) w (omega arith))

checked_ahead :
    (doubles : Doubles) (clause : WhereNode) (vs : List Text) (i k : ℕ) (w : Bool)
    → clause.condition.schema_index ≡ i + k
    → checked doubles (some clause) i vs w ≡ elim (get_elem? vs k) as (λ _. Outcome Bool) [
      | none ↦ done w
      | some value ↦
          evaluate_comparator doubles value clause.condition.cmp clause.condition.literal_value
    ]
unfolding checked check_column
checked_ahead doubles clause [] i k w h = refl
checked_ahead doubles clause (v ∷ vs) i zero w h =
    let this : (clause.condition.schema_index == i) ≡ true = ground arith in
    let past = λ (w' : Bool). checked_past doubles clause vs (i + 1) w' (omega arith) in
    let compared =
      evaluate_comparator doubles v clause.condition.cmp clause.condition.literal_value in
    rw this (>>=-ext compared _ done past ∙ >>=-done compared)
checked_ahead doubles clause (v ∷ vs) i (suc k) w h =
    let other : (clause.condition.schema_index == i) ≡ false = ground arith in
    rw other (checked_ahead doubles clause vs (i + 1) k w (omega arith))

pub checked-decide :
    (doubles : Doubles) (clause : Option WhereNode) (vs : List Text)
    → checked doubles clause 0 vs true ≡ decide doubles clause vs
unfolding decide
checked-decide doubles none vs = checked-none doubles vs 0 true
checked-decide doubles (some clause) vs =
    checked_ahead doubles clause vs 0 clause.condition.schema_index true (omega arith)

-- The rows of the live records that meet the condition, in file order.
unfoldable pub select_rows :
    Doubles → List Bool → Option WhereNode → List TableRecord → List (List Text)
select_rows doubles mask clause [] = []
select_rows doubles mask clause (r ∷ rs) =
    let rows = select_rows doubles mask clause rs in
    if not (is_tombstone r.record_type) && meets doubles clause (stored_values r)
    then project mask 0 (stored_values r) ∷ rows
    else rows

-- What the loop gives behind `results`: it throws at the first live record whose comparison throws.
unfoldable pub answers :
    Doubles
    → List Bool
    → Option WhereNode
    → List TableRecord
    → List (List Text)
    → Outcome (List (List Text))
answers doubles mask clause [] results = done results
answers doubles mask clause (r ∷ rs) results =
    let alive = decide doubles clause (stored_values r) >>= λ chosen.
    answers doubles mask clause rs
      (if chosen then results ++ (project mask 0 (stored_values r) ∷ []) else results) in
    if is_tombstone r.record_type then answers doubles mask clause rs results else alive

pub answers-Decided :
    (doubles : Doubles) (mask : List Bool) (clause : Option WhereNode) (rs : List TableRecord)
    (results : List (List Text))
    → All (Decided doubles clause) rs
    → answers doubles mask clause rs results ≡ done (results ++ select_rows doubles mask clause rs)
unfolding answers select_rows
answers-Decided doubles mask clause [] results decided = ap done (sym (append-nil results))
answers-Decided doubles mask clause (r ∷ rs) results decided =
    elim (Bool-cases (is_tombstone r.record_type)) [
      | inl dies ↦ rw dies (answers-Decided doubles mask clause rs results decided.1)
      | inr lives ↦ elim (Bool-cases (meets doubles clause (stored_values r))) [
        | inl holds ↦
            rw (lives, decided.0 lives, holds)
              (answers-Decided doubles mask clause rs _ decided.1
                ∙ ap done (append_assoc results (_ ∷ []) _))
        | inr fails ↦
            rw (lives, decided.0 lives, fails)
              (answers-Decided doubles mask clause rs results decided.1)
      ]
    ]

module _ (doubles : Doubles) (file : List ℕ) (n : ℕ) (schema : Schema) (mask : List Bool)
    (clause : Option WhereNode) where
  pub select_loop_lem :
      length schema ≡ n + 1
      → (rs : List TableRecord) (fuel p : ℕ) (results : List (List Text)) → All (IsRecord n) rs
      → drop p file ≡ records_bytes rs
      → p + length (records_bytes rs) < 2 ^ 63
      → length rs < fuel
      → select_loop doubles fuel (good file p) schema mask clause results
        ≡ answers doubles mask clause rs results
  unfolding select_loop records_bytes answers
  select_loop_lem columns rs zero p results shapes h fits enough = absurd (omega arith)
  select_loop_lem columns [] (suc fuel) p results shapes h fits enough =
      rw (next_record_end doubles file p schema mask clause h) refl
  select_loop_lem columns (r ∷ rs) (suc fuel) p results shapes h fits enough =
      let sizes = length-append {0} (record_bytes r) (records_bytes rs) in
      let ahead = next_record file p r (records_bytes rs) h in
      let fits' : p + 8 + length (record_body r) < 2 ^ 63 =
        omega (arith, sizes, length-record_bytes r) in
      let ih = λ (results' : List (List Text)).
        select_loop_lem columns rs fuel (p + 8 + length (record_body r)) results' shapes.1 ahead
          (omega (arith, sizes, length-record_bytes r)) (omega arith) in
      elim (Bool-cases (is_tombstone r.record_type)) [
        | inl dies ↦
            rw (next_record_dead file p n r _ h fits' doubles schema mask clause dies, dies)
              (ih results)
        | inr lives ↦
            rw
              (
                next_record_alive file p n r _ h fits' shapes.0 lives doubles schema mask clause
                    columns,
                checked-decide doubles clause (stored_values r),
                lives,
              )
              (>>=_assoc (decide doubles clause (stored_values r)) _ _
                ∙ >>=-ext_bool (decide doubles clause (stored_values r)) _ _ (ih _) (ih results))
      ]
