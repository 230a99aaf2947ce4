-- ===== src/Update/Rows.antt =====
-- The records that updateData (DBEngine/filehandler/handlers/update.cpp) makes of the old ones.
use bsc_thesis.Base.{
  subst, Bool-cases, inl, inr, ℕ, ◌+◌, ◌<◌, ◌≡◌, refl, sym, ap, ap₂, ◌∙◌, Bool, true, false, List,
  [], ◌∷◌, ◌++◌, Text, length, All, arith, length-append, append_assoc, if◌then◌else◌, map, ◌==◌,
}
use bsc_thesis.Status.{done, done_inj}
use bsc_thesis.Ast.{LiteralType, LiteralNode}
use bsc_thesis.Utils.Strings.{remove_outer_quotes}
use bsc_thesis.Utils.Columns.{Schema}
use bsc_thesis.Storage.Serializer.{Colcodes, element, find_pk_idx, is_empty_literal}
use bsc_thesis.Storage.Serializer.Contents.{IsGiven, cell_text}
use bsc_thesis.Storage.Serializer.Total.{HasCode, normalized_record_total}
use bsc_thesis.Handlers.{vector_at}
use bsc_thesis.Handlers.NewRows.{Row, nodes_of}
use bsc_thesis.Update.{literal_at, new_value, new_values, new_records}

-- The value that is assigned to an index, where there is one.
unfoldable pub assigned_value : ℕ → List (ℕ × Text) → Text → Text
assigned_value i [] old = old
assigned_value i ((j, value) ∷ literals) old =
    let rest = assigned_value i literals old in if j == i then value else rest

-- A row with the values of the masked-out columns replaced.
unfoldable pub assign : List Bool → List (ℕ × Text) → ℕ → List Text → List Text
assign mask literals i [] = []
assign [] literals i (old ∷ row) = old ∷ row
assign (kept ∷ mask) literals i (old ∷ row) =
    (if kept then old else assigned_value i literals old) ∷ assign mask literals (i + 1) row

-- Every index that the mask does not keep has a literal.
abbrev pub IsAssigned : ℕ → List (ℕ × Text) → Type 0
IsAssigned i literals = (value : Text) × (literal_at i literals ≡ done value)

abbrev pub Covers : List Bool → List (ℕ × Text) → ℕ → Type 0
Covers [] literals i = Unit
Covers (true ∷ mask) literals i = Covers mask literals (i + 1)
Covers (false ∷ mask) literals i = IsAssigned i literals × Covers mask literals (i + 1)

assigned_value_lem :
    (i : ℕ) (literals : List (ℕ × Text)) (value old : Text)
    → literal_at i literals ≡ done value
    → assigned_value i literals old ≡ value
unfolding literal_at assigned_value
assigned_value_lem i [] value old h = absurd cc
assigned_value_lem i ((j, v) ∷ literals) value old h = elim (Bool-cases (j == i)) [
  | inl here ↦ let same : done v ≡ done value = rw here at h in rw here (done_inj same)
  | inr there ↦ rw there (assigned_value_lem i literals value old (rw there at h))
]

element-middle {ℓ} :
    {A : Type ℓ} (xs : List A) (y : A) (ys : List A) → element (xs ++ (y ∷ ys)) (length xs) ≡ done y
element-middle [] y ys = refl
element-middle (x ∷ xs) y ys = element-middle xs y ys

vector_at-middle {ℓ} :
    {A : Type ℓ} (xs : List A) (y : A) (ys : List A)
    → vector_at (xs ++ (y ∷ ys)) (length xs) ≡ done y
vector_at-middle [] y ys = refl
vector_at-middle (x ∷ xs) y ys = vector_at-middle xs y ys

module _ (full_mask : List Bool) (literals : List (ℕ × Text)) (old_record : List Text) where
  new_value_lem :
      (b : Bool) (mask front : List Bool) (old : Text) (cells before : List Text) (i : ℕ)
      → full_mask ≡ front ++ (b ∷ mask)
      → old_record ≡ before ++ (old ∷ cells)
      → i ≡ length front
      → i ≡ length before
      → Covers (b ∷ mask) literals i
      → (new_value full_mask literals old_record i
          ≡ done (if b then old else assigned_value i literals old))
        × Covers mask literals (i + 1)
  unfolding new_value
  new_value_lem true mask front old cells before i at_mask at_cells e e' covers =
      let kept : element full_mask i ≡ done true =
        rw (at_mask, e) (element-middle front true mask) in
      let value : vector_at old_record i ≡ done old =
        rw (at_cells, e') (vector_at-middle before old cells) in
      (rw (kept, value) refl, covers)
  new_value_lem false mask front old cells before i at_mask at_cells e e'
        ((value, literal), covers) =
      let dropped : element full_mask i ≡ done false =
        rw (at_mask, e) (element-middle front false mask) in
      (rw (dropped, literal, assigned_value_lem i literals value old literal) refl, covers)

  -- The loop from index `i` on, on the rest of the mask and of the record.
  new_values_lem :
      (mask front : List Bool) (cells before : List Text) (i : ℕ)
      → full_mask ≡ front ++ mask
      → old_record ≡ before ++ cells
      → i ≡ length front
      → i ≡ length before
      → length mask ≡ length cells
      → Covers mask literals i
      → (lits : List LiteralNode) × (new_values full_mask literals old_record (length cells) i
          ≡ done lits)
        × (map cell_text lits ≡ map remove_outer_quotes (assign mask literals i cells))
        × All IsGiven lits
        × (length lits ≡ length cells)
  unfolding new_values assign is_empty_literal
  new_values_lem mask front [] before i at_mask at_cells e e' sizes covers =
      ([], refl, refl, tt, refl)
  new_values_lem [] front (old ∷ cells) before i at_mask at_cells e e' sizes covers =
      absurd (omega arith)
  new_values_lem (b ∷ mask) front (old ∷ cells) before i at_mask at_cells e e' sizes covers =
      let (now, covers') =
        new_value_lem b mask front old cells before i at_mask at_cells e e' covers in
      let (lits, run, cells', given, count) =
        new_values_lem mask (front ++ (b ∷ [])) cells (before ++ (old ∷ [])) (i + 1)
          (at_mask ∙ sym (append_assoc front (b ∷ []) mask))
          (at_cells ∙ sym (append_assoc before (old ∷ []) cells))
          (omega (arith, e, length-append {0} front (b ∷ [])))
          (omega (arith, e', length-append {0} before (old ∷ []))) (omega arith) covers' in
      let value = if b then old else assigned_value i literals old in
      let lit : LiteralNode = record { type = LiteralType.string; value = value } in
      (
        lit ∷ lits,
        rw (now, run) refl,
        ap (λ texts. remove_outer_quotes value ∷ texts) cells',
        (refl, given),
        omega (arith, count),
      )

-- The new records are full rows of the table, whose cells are those of the old ones with the assigned
-- values in place, quotes round a text taken off.
module _ (schema : Schema) (colcodes : Colcodes) (k : ℕ) (found : find_pk_idx schema ≡ done k)
    (inside : k < length schema) (coded : All (HasCode colcodes) schema) (mask : List Bool)
    (literals : List (ℕ × Text)) (sizes : length mask ≡ length schema)
    (covers : Covers mask literals 0) where
  abbrev pub updated : List Text → List Text
  updated row = map remove_outer_quotes (assign mask literals 0 row)

  pub new_records_lem :
      (old_records : List (List Text))
      → All (λ row. length row ≡ length schema) old_records
      → (new_rows : List (Row schema colcodes)) × (new_records mask literals
            (length schema)
            old_records
          ≡ done (nodes_of new_rows))
        × (map (λ row. map cell_text row.lits) new_rows ≡ map updated old_records)
  unfolding new_records
  new_records_lem [] widths = ([], refl, refl)
  new_records_lem (row ∷ old_records) (width, widths) =
      let (lits, run, cells, given, count) =
        new_values_lem mask literals row mask [] row [] 0 refl refl refl refl
          (omega (arith, sizes, width)) covers in
      let run' : new_values mask literals row (length schema) 0 ≡ done lits =
        subst (λ c. new_values mask literals row c 0 ≡ done lits) width run in
      let full : length schema ≡ length lits = omega (arith, count, width) in
      let (b, ends) =
        normalized_record_total schema colcodes lits k found inside full given coded in
      let (new_rows, rest, images) = new_records_lem old_records widths in
      let new : Row schema colcodes = record {
        lits = lits;
        written = b;
        sizes = full;
        given = given;
        run = ends;
      } in
      (new ∷ new_rows, rw (run', rest) refl, ap₂ (λ x xs. x ∷ xs) cells images)
