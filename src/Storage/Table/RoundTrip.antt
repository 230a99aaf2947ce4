-- ===== src/Storage/Table/RoundTrip.antt =====
-- A row that insertData (handlers/insert.cpp) appends through serializeNormalizedRecord is the row
-- that selectData (handlers/select.cpp) finds.
use bsc_thesis.Base.{
  ℕ, zero, suc, ◌+◌, ◌-◌, ◌^◌, ◌≤◌, ◌<◌, ◌≡◌, refl, ap, sym, ◌∙◌, Bool, true, false, not, ◌&&◌,
  List, [], ◌∷◌, ◌++◌, Option, some, none, Text, length, All, arith, length-append, length-map,
  Bool-cases, inl, inr, map, get_or, append-nil, append_assoc,
}
use bsc_thesis.Status.{done}
use bsc_thesis.Ast.{LiteralNode, WhereNode}
use bsc_thesis.Utils.Columns.{Schema}
use bsc_thesis.Condition.{Doubles}
use bsc_thesis.Storage.{
  is_tombstone, RecordType, TableRecord, write_header, db_header, write_u64, record_body,
  record_bytes, records_bytes, table_file, IsRecord,
}
use bsc_thesis.Storage.Layout.{length-write_u64}
use bsc_thesis.Storage.Reads.{project, stored_values}
use bsc_thesis.Storage.Serializer.{
  Colcodes, Normalized, normalized_record, serialized_bytes, normalized_table_record,
}
use bsc_thesis.Storage.Serializer.Lengths.{serialized_bytes-IsRecord}
use bsc_thesis.Storage.Serializer.Contents.{IsGiven, cell_text, all_true, key_first, serialized_row}
use bsc_thesis.Storage.Scan.Select.{select_rows, decide, meets, Decided-none}
use bsc_thesis.Storage.Table.{select_table, IsTable}
use bsc_thesis.Storage.Table.Contents.{select_table_lem}

pub records_bytes-append :
    (rs ss : List TableRecord) → records_bytes (rs ++ ss) ≡ records_bytes rs ++ records_bytes ss
unfolding records_bytes
records_bytes-append [] ss = refl
records_bytes-append (r ∷ rs) ss =
    rw (records_bytes-append rs ss)
      (sym (append_assoc (record_bytes r) (records_bytes rs) (records_bytes ss)))

pub table_file_snoc :
    (rs : List TableRecord) (r : TableRecord)
    → table_file rs ++ record_bytes r ≡ table_file (rs ++ (r ∷ []))
unfolding table_file
table_file_snoc rs r =
    append_assoc (write_header db_header) (records_bytes rs) (record_bytes r)
    ∙ ap (λ (t : List ℕ). write_header db_header ++ t)
        (sym (records_bytes-append rs (r ∷ []) ∙ (unfold records_bytes in rw append-nil)))

pub shapes_snoc :
    (n : ℕ) (rs : List TableRecord) (r : TableRecord)
    → All (IsRecord n) rs
    → IsRecord n r
    → All (IsRecord n) (rs ++ (r ∷ []))
shapes_snoc n [] r h k = (k, tt)
shapes_snoc n (s ∷ rs) r h k = (h.0, shapes_snoc n rs r h.1 k)

select_rows-append :
    (doubles : Doubles) (mask : List Bool) (clause : Option WhereNode) (rs ss : List TableRecord)
    → select_rows doubles mask clause (rs ++ ss)
      ≡ select_rows doubles mask clause rs ++ select_rows doubles mask clause ss
unfolding select_rows
select_rows-append doubles mask clause [] ss = refl
select_rows-append doubles mask clause (r ∷ rs) ss =
    elim (Bool-cases (not (is_tombstone r.record_type) && meets doubles clause (stored_values r))) [
      | inl e ↦ rw (e, select_rows-append doubles mask clause rs ss)
      | inr e ↦ rw (e, select_rows-append doubles mask clause rs ss)
    ]

get_or-all_true : (n i : ℕ) → i < n → get_or (all_true n) i false ≡ true
get_or-all_true zero i h = absurd (omega arith)
get_or-all_true (suc n) zero h = refl
get_or-all_true (suc n) (suc i) h = get_or-all_true n i (omega arith)

-- A mask of true keeps every field.
pub project-all_true :
    (n i : ℕ) (vs : List Text) → i + length vs ≤ n → project (all_true n) i vs ≡ vs
unfolding project
project-all_true n i [] h = refl
project-all_true n i (v ∷ vs) h =
    rw (get_or-all_true n i (omega arith), project-all_true n (i + 1) vs (omega arith))

pub length-serialized_bytes :
    (b : Normalized) (type : RecordType)
    → length (serialized_bytes b type) ≡ 8 + length (record_body (normalized_table_record b type))
unfolding serialized_bytes record_body
length-serialized_bytes b type = omega (
  arith,
  length-append {0} (write_u64 b.record_length) (record_body (normalized_table_record b type)),
  length-write_u64 b.record_length,
)

-- Appending a full row to a well-formed table file of at most 256 columns makes SELECT * return
-- the rows of before and then that row: its literals without their quotes, the key's cell first.
pub insert_then_select :
    (doubles : Doubles) (is_silent_mode : Bool) (n : ℕ) (rs : List TableRecord)
    → (schema : Schema) (colcodes : Colcodes) (lits : List LiteralNode) (b : Normalized)
    → IsTable n rs
    → length schema ≡ n + 1
    → length schema ≤ 256
    → length schema ≡ length lits
    → All IsGiven lits
    → normalized_record schema colcodes (map some lits) (all_true (length schema)) ≡ done b
    → length (table_file rs) + length (serialized_bytes b RecordType.insert) < 2 ^ 63
    → select_table doubles is_silent_mode
        (table_file rs ++ serialized_bytes b RecordType.insert)
        schema
        (all_true (length schema))
        none
      ≡ done (
          select_rows doubles (all_true (length schema)) none rs
          ++ (key_first b.pk_idx (map cell_text lits) ∷ []))
insert_then_select doubles is_silent_mode n rs schema colcodes lits b t columns few sizes given h
      size =
    let r = normalized_table_record b RecordType.insert in
    let row = key_first b.pk_idx (map cell_text lits) in
    let file = table_file rs ++ serialized_bytes b RecordType.insert in
    let (written, shape, _) =
      serialized_bytes-IsRecord schema colcodes (map some lits) (all_true (length schema)) b
        RecordType.insert (length-map some lits ∙ sym sizes) few h
        (omega (arith, length-serialized_bytes b RecordType.insert)) in
    let whole : file ≡ table_file (rs ++ (r ∷ [])) =
      ap (λ (t : List ℕ). table_file rs ++ t) written ∙ table_file_snoc rs r in
    let e : length schema - 1 ≡ n = omega arith in
    let t' : IsTable n (rs ++ (r ∷ [])) = record {
      shapes = shapes_snoc n rs r t.shapes (rw e at shape);
      size = omega (
        arith,
        size,
        ap length whole,
        length-append {0} (table_file rs) (serialized_bytes b RecordType.insert),
      );
    } in
    let (_, stored) = serialized_row schema colcodes lits b RecordType.insert sizes given h in
    let last : select_rows doubles (all_true (length schema)) none (r ∷ []) ≡ row ∷ [] =
      unfold select_rows meets decide in
      ap (λ (v : List Text). v ∷ [])
        (project-all_true (length schema) 0 (stored_values r) (omega (arith, shape.payload_count))
          ∙ stored) in
    rw whole (
      select_table_lem doubles is_silent_mode n (rs ++ (r ∷ [])) schema (all_true (length schema))
        none t' (Decided-none doubles (rs ++ (r ∷ []))) columns
      ∙ ap done (
          select_rows-append doubles (all_true (length schema)) none rs (r ∷ [])
          ∙ ap
              (λ (t : List (List Text)).
                select_rows doubles (all_true (length schema)) none rs ++ t)
              last))
