-- ===== src/Storage/Serializer/Contents.antt =====
-- Which texts serializeNormalizedRecord (serialization/normalized-record.cpp) stores for a row all
-- of whose columns were provided.
use bsc_thesis.Base.{
  ℕ, zero, suc, ◌+◌, ◌*◌, ◌%◌, ◌<◌, ◌≡◌, refl, ap, ap₂, sym, ◌∙◌, Bool, true, false, List, [], ◌∷◌,
  ◌++◌, Option, some, none, subst, Text, ◌==◌, length, All, arith, length-append, if◌then◌else◌,
  Bool-cases, inl, inr, map, take, drop, get_or, replicate, append-nil, append_assoc, length-map,
  map-append,
}
use bsc_thesis.Status.{done, >>=-eq-done}
use bsc_thesis.Ast.{UntypedColumnDefNode, LiteralNode}
use bsc_thesis.Utils.Strings.{remove_outer_quotes}
use bsc_thesis.Utils.Columns.{Schema}
use bsc_thesis.Storage.{u64, RecordType}
use bsc_thesis.Storage.Reads.{stored_values}
use bsc_thesis.Storage.Serializer.{
  Colcodes, colcode_at, element, is_empty_literal, final_literal, Columns, no_columns, add_column,
  column_step, serialize_columns, Normalized, find_pk_idx, with_key, normalized_record,
  normalized_table_record,
}

-- The literals of a row that names every column and leaves none empty.
abbrev pub IsGiven : LiteralNode → Type 0
IsGiven lit = is_empty_literal (some lit) ≡ false

abbrev pub cell_text : LiteralNode → Text
cell_text lit = remove_outer_quotes lit.value

abbrev pub all_true : ℕ → List Bool
all_true n = replicate n true

-- The row with the cell of column `k` moved to the front.
abbrev pub key_first : ℕ → List Text → List Text
key_first k row = get_or row k [] ∷ (take k row ++ drop (suc k) row)

-- The cells from index `i` on without the one at `k`.
abbrev without : ℕ → ℕ → List Text → List Text
without k i [] = []
without k i (t ∷ ts) = let rest = without k (i + 1) ts in if i == k then rest else t ∷ rest

element-append_length {ℓ} :
    {A : Type ℓ} (xs : List A) (y : A) (ys : List A) → element (xs ++ (y ∷ ys)) (length xs) ≡ done y
element-append_length [] y ys = refl
element-append_length (x ∷ xs) y ys = element-append_length xs y ys

pub element-replicate : (n i : ℕ) → i < n → element (all_true n) i ≡ done true
element-replicate zero i h = absurd (omega arith)
element-replicate (suc n) zero h = refl
element-replicate (suc n) (suc i) h = element-replicate n i (omega arith)

pub final_literal_given :
    (col : UntypedColumnDefNode) (lit : LiteralNode)
    → IsGiven lit
    → final_literal col true (some lit) ≡ done (cell_text lit)
unfolding final_literal
final_literal_given col lit given = rw given

pub element-before :
    (before lits : List LiteralNode) (l : LiteralNode)
    → element (map some (before ++ (l ∷ lits))) (length before) ≡ done (some l)
element-before before lits l =
    rw (map-append, ← length-map some before)
      (element-append_length (map some before) (some l) (map some lits))

module _ (colcodes : Colcodes) (k n : ℕ) where
  -- One round, on a given literal at the column's index.
  column_step_given :
      (col : UntypedColumnDefNode) (before lits : List LiteralNode) (l : LiteralNode)
      (st mid : Columns)
      → length before < n
      → IsGiven l
      → column_step colcodes (map some (before ++ (l ∷ lits))) (all_true n) k col (length before) st
        ≡ done mid
      → mid.literals ≡ st.literals ++ (if length before == k then [] else cell_text l ∷ [])
  unfolding column_step
  column_step_given col before lits l st mid inside given h =
      elim (Bool-cases (length before == k)) [
        | inl key ↦ let same : st ≡ mid = cc (rw key at h) in rw (key, ← same, append-nil)
        | inr other ↦
            let h' =
              rw
                (
                  other,
                  element-before before lits l,
                  element-replicate n (length before) inside,
                  final_literal_given col l given,
                )
                at h in
            let (colcode, _, h4) = >>=-eq-done (colcode_at col.name colcodes) _ h' in
            let same : add_column st colcode (cell_text l) ≡ mid = cc in rw (other, ← same)
      ]

  module _ (all : List LiteralNode) where
    serialize_columns_given :
        (cols : Schema) (before lits : List LiteralNode) (i : ℕ) (st st' : Columns)
        → i ≡ length before
        → all ≡ before ++ lits
        → length cols ≡ length lits
        → i + length lits ≡ n
        → All IsGiven lits
        → serialize_columns colcodes (map some all) (all_true n) k cols i st ≡ done st'
        → st'.literals ≡ st.literals ++ without k i (map cell_text lits)
    unfolding serialize_columns
    serialize_columns_given [] before [] i st st' at split e total given h =
        let same : st ≡ st' = cc in rw (← same, append-nil)
    serialize_columns_given [] before (l ∷ lits) i st st' at split e total given h =
        absurd (omega arith)
    serialize_columns_given (col ∷ cols) before [] i st st' at split e total given h =
        absurd (omega arith)
    serialize_columns_given (col ∷ cols) before (l ∷ lits) i st st' at split e total given h =
        let (mid, first, rest) =
          >>=-eq-done (column_step colcodes (map some all) (all_true n) k col i st) _ h in
        let now : mid.literals ≡ st.literals ++ (if i == k then [] else cell_text l ∷ []) = rw at (
          column_step_given col before lits l st mid (omega arith) given.0
            (rw (← at, ← split) first)) in
        let ih =
          serialize_columns_given cols (before ++ (l ∷ [])) lits (i + 1) mid st'
            (omega (arith, length-append {0} before (l ∷ [])))
            (split ∙ sym (append_assoc before (l ∷ []) lits)) (omega arith) (omega arith) given.1
            rest in
        let others = without k (i + 1) (map cell_text lits) in
        ih
        ∙ rw now (
            ground
              (arith, append_assoc st.literals (cell_text l ∷ []) others, append-nil st.literals))

without_past : (k i : ℕ) (ts : List Text) → k < i → without k i ts ≡ ts
without_past k i [] h = refl
without_past k i (t ∷ ts) h = ground (arith, without_past k (i + 1) ts)

without-take-drop : (k i : ℕ) (ts : List Text) → without (i + k) i ts ≡ take k ts ++ drop (suc k) ts
without-take-drop zero i [] = refl
without-take-drop (suc k) i [] = refl
without-take-drop zero i (t ∷ ts) = ground (arith, without_past i (i + 1) ts)
without-take-drop (suc k) i (t ∷ ts) =
    let e : i + 1 + k ≡ i + suc k = omega arith in
    let other : (i == i + suc k) ≡ false = ground arith in
    rw other (
      ap (λ (r : List Text). t ∷ r)
        (subst (λ (m : ℕ). without m (i + 1) ts ≡ take k ts ++ drop (suc k) ts) e
          (without-take-drop k (i + 1) ts)))

get_or-element :
    (lits : List LiteralNode) (i : ℕ) (l : LiteralNode)
    → element (map some lits) i ≡ done (some l)
    → cell_text l ≡ get_or (map cell_text lits) i []
get_or-element [] i l h = cc
get_or-element (x ∷ lits) zero l h = let same : x ≡ l = cc in rw same
get_or-element (x ∷ lits) (suc i) l h = get_or-element lits i l h

without_zero : (k : ℕ) (ts : List Text) → without k 0 ts ≡ take k ts ++ drop (suc k) ts
without_zero k ts =
    let e : 0 + k ≡ k = omega arith in
    subst (λ (m : ℕ). without m 0 ts ≡ take k ts ++ drop (suc k) ts) e (without-take-drop k 0 ts)

module _ (schema : Schema) (colcodes : Colcodes) (lits : List LiteralNode) where
  with_key_given :
      (k : ℕ) (key : Option LiteralNode) (b : Normalized) (type : RecordType)
      → length schema ≡ length lits
      → All IsGiven lits
      → element (map some lits) k ≡ done key
      → with_key schema colcodes (map some lits) (all_true (length schema)) k key ≡ done b
      → (k ≡ b.pk_idx)
        × (stored_values (normalized_table_record b type) ≡ key_first k (map cell_text lits))
  unfolding with_key
  with_key_given k none b type sizes given at h = cc
  with_key_given k (some lit) b type sizes given at h =
      let (columns, run, h3) =
        >>=-eq-done
          (serialize_columns colcodes (map some lits) (all_true (length schema)) k schema 0
            no_columns)
          _ h in
      let cells =
        serialize_columns_given colcodes k (length schema) lits schema [] lits 0 no_columns columns
          refl refl sizes (omega arith) given run in
      let same : (let r : Normalized = record {
        pk_idx = k;
        pk_literal = cell_text lit;
        record_length = u64 (
            u64 (1 + (8 + length (cell_text lit)))
            + (columns.running + (length schema + 255) % 256 * 16));
        columns = columns;
      } in
            r)
          ≡ b =
        cc h3 in
      rw (← same) (
        refl,
        ap₂ (λ (x : Text) (xs : List Text). x ∷ xs) (get_or-element lits k lit at)
            (cells ∙ without_zero k (map cell_text lits)),
      )

  -- A row that names every column and leaves none empty is stored without the quotes round its
  -- literals, and with the primary key's cell moved in front of the others.
  pub serialized_row :
      (b : Normalized) (type : RecordType)
      → length schema ≡ length lits
      → All IsGiven lits
      → normalized_record schema colcodes (map some lits) (all_true (length schema)) ≡ done b
      → (find_pk_idx schema ≡ done b.pk_idx)
        × (stored_values (normalized_table_record b type) ≡ key_first b.pk_idx (map cell_text lits))
  unfolding normalized_record
  serialized_row b type sizes given h =
      let (pk_idx, found, h1) = >>=-eq-done (find_pk_idx schema) _ h in
      let (key, at_key, h2) = >>=-eq-done (element (map some lits) pk_idx) _ h1 in
      let (same, row) = with_key_given pk_idx key b type sizes given at_key h2 in
      (found ∙ ap done same, row ∙ ap (λ (j : ℕ). key_first j (map cell_text lits)) same)
