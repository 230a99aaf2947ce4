-- ===== src/Delete/Literals.antt =====
-- The literal that performSequentialDelete (DBEngine/filehandler/handlers/delete.cpp) compares, read
-- from a well-formed record.
use bsc_thesis.Base.{
  ℕ, suc, ◌+◌, ◌*◌, ◌^◌, ◌<◌, ◌≡◌, refl, ap, ◌∙◌, Bool, true, false, List, [], ◌∷◌, ◌++◌, some,
  Text, text_eq, length, ◌⊎◌, All, drop, get_elem?, arith, length-append, append_assoc, inl, inr,
  ◌==◌,
}
use bsc_thesis.Status.{done}
use bsc_thesis.Ast.{WhereNode}
use bsc_thesis.Utils.Columns.{Schema, extract_primary_key_column}
use bsc_thesis.Stream.{seek_cur}
use bsc_thesis.Stream.Reading.{good, read_lem, seek_cur_lem, seek_beg_lem, drop_step}
use bsc_thesis.Storage.{
  is_tombstone, u64_sub, ColumnOffset, TableRecord, write_u64, write_string, write_strings,
  record_body, record_bytes, IsRecord,
}
use bsc_thesis.Storage.Layout.{
  le_value-write_u64, tail_region, length-write_u64, length-write_string,
}
use bsc_thesis.Storage.Reads.{after_offsets, region_of, tail_size, after_region, stored_values}
use bsc_thesis.Storage.Scan.{copy_value}
use bsc_thesis.Storage.Deserializer.{col_offset_region_length}
use bsc_thesis.Storage.Scan.Compact.{copy_value_lem}
use bsc_thesis.Context.{ExecutionContext, at_key}
use bsc_thesis.Delete.{find_offset, column_literal, compared_literal, uint64_max}
use bsc_thesis.Delete.Offsets.{offset_of, find_offset_lem, write_strings-append}

module _ (file : List ℕ) (p n : ℕ) (r : TableRecord) (rest : List ℕ)
    (h : drop p file ≡ record_bytes r ++ rest) (fits : p + 8 + length (record_body r) < 2 ^ 63)
    (shape : IsRecord n r) where
  key_literal :
      (is_tombstone r.record_type ≡ false)
      → copy_value (seek_cur (col_offset_region_length n) (good file (p + 9)))
        ≡ done (r.primary_key, good file (p + 9 + 16 * n + length (write_string r.primary_key)))
  key_literal lives =
      let sizes = length-append {0} (write_string r.primary_key) (write_strings r.payload) in
      let size = tail_size file p n r rest h fits shape lives in
      let ahead = after_offsets file p n r rest h fits shape lives in
      rw (region_of file p n r rest h fits shape lives, ahead.0)
        ((copy_value_lem file r.primary_key (p + 9 + 16 * n) (write_strings r.payload ++ rest)
          (ahead.1 ∙ append_assoc _ _ rest)
          (omega (arith, size, sizes, length-write_string r.primary_key))).0)

  module _ (lives : is_tombstone r.record_type ≡ false) (front back : List Text) (value : Text)
      (split : r.payload ≡ front ++ (value ∷ back)) where
    abbrev key_end : ℕ
    key_end = p + 9 + 16 * n + 8 + length r.primary_key

    payload_bytes :
        write_strings r.payload ≡ write_strings front ++ (write_string value ++ write_strings back)
    unfolding write_strings
    payload_bytes = ap write_strings split ∙ write_strings-append front (value ∷ back)

    payload_size :
        p + 8 + length (record_body r)
        ≡ key_end
          + length (write_strings front)
          + length (write_string value)
          + length (write_strings back)
    payload_size =
        let all = ap length payload_bytes in
        omega (
          arith,
          all,
          length-append {0} (write_strings front) (write_string value ++ write_strings back),
          length-append {0} (write_string value) (write_strings back),
          length-append {0} (write_string r.primary_key) (write_strings r.payload),
          length-write_string r.primary_key,
          tail_size file p n r rest h fits shape lives,
        )

    at_key_size :
        drop (p + 9 + 16 * n) file
        ≡ write_u64 (length r.primary_key) ++ (r.primary_key ++ (write_strings r.payload ++ rest))
    unfolding write_string
    at_key_size =
        (after_offsets file p n r rest h fits shape lives).1
        ∙ (append_assoc (write_string r.primary_key) _ rest
            ∙ append_assoc (write_u64 (length r.primary_key)) _ _)

    at_value :
        drop (key_end + length (write_strings front)) file
        ≡ write_string value ++ (write_strings back ++ rest)
    at_value =
        let at_size =
          drop_step file (p + 9 + 16 * n) 8 _ _ at_key_size
            (length-write_u64 (length r.primary_key)) in
        let at_payload =
          drop_step file (p + 9 + 16 * n + 8) (length r.primary_key) r.primary_key _ at_size refl in
        drop_step file key_end (length (write_strings front)) (write_strings front) _
          (at_payload
            ∙ (ap (λ bytes. bytes ++ rest) payload_bytes
                ∙ (append_assoc (write_strings front) _ rest
                    ∙ ap (λ bytes. write_strings front ++ bytes)
                        (append_assoc (write_string value) _ rest))))
          refl

    column_literal_lem :
        (is_silent_mode : Bool) (colcode : ℕ)
        → offset_of colcode r.column_offset_map uint64_max ≡ length (write_strings front)
        → All (λ (entry : ColumnOffset). entry.offset < 2 ^ 64) r.column_offset_map
        → column_literal is_silent_mode colcode n
            (p + 8)
            (length (record_body r))
            (good file (p + 9))
          ≡ done (value, good file (p + 8 + length (record_body r)))
    unfolding column_literal
    column_literal_lem is_silent_mode colcode located small =
        let found : find_offset colcode (length r.column_offset_map) (good file (p + 9)) uint64_max
            ≡ done (
              offset_of colcode r.column_offset_map uint64_max,
              good file (p + 9 + 16 * length r.column_offset_map),
            ) =
          find_offset_lem colcode file r.column_offset_map (p + 9)
            (after_region file p n r rest h fits shape lives ++ rest) uint64_max shape.paddings
            small (tail_region file p r rest h ∙ append_assoc _ _ rest) in
        let found' = rw (shape.offsets_count, located) at found in
        let present : (length (write_strings front) == uint64_max) ≡ false =
          ground (arith, payload_size) in
        let size =
          read_lem file (p + 9 + 16 * n) 8 _ _ at_key_size
            (length-write_u64 (length r.primary_key)) in
        let small_key : length r.primary_key < 2 ^ 64 = omega (arith, payload_size) in
        let over_key =
          seek_cur_lem file (p + 9 + 16 * n + 8) (length r.primary_key)
            (omega (arith, payload_size)) in
        let over_front =
          seek_cur_lem file key_end (length (write_strings front)) (omega (arith, payload_size)) in
        let short : length value < 2 ^ 63 =
          omega (arith, payload_size, length-write_string value) in
        let (value_read, _) =
          copy_value_lem file value (key_end + length (write_strings front)) _ at_value short in
        let back_to =
          seek_beg_lem file (key_end + length (write_strings front) + length (write_string value))
            (p + 8) (omega arith) in
        rw
          (
            found',
            size,
            le_value-write_u64 (length r.primary_key) small_key,
            over_key,
            over_front,
            value_read,
            present,
            back_to,
          )
          (ap (λ s. done (value, s)) (seek_cur_lem file (p + 8) (length (record_body r)) fits))

-- The clause is on the primary key, or on a column whose code stands in the record's offset map with
-- the length of what precedes its value.
pub record IsKeyColumn (clause : WhereNode) (primary_key : Text) : Type 0 where
  pub named : text_eq primary_key clause.condition.col_name ≡ true
  pub resolved : clause.condition.schema_index ≡ 0

pub record IsPayloadColumn (clause : WhereNode) (primary_key : Text) (colcode : ℕ) (r : TableRecord)
    : Type 0 where
  pub other : text_eq primary_key clause.condition.col_name ≡ false
  pub front : List Text
  pub value : Text
  pub back : List Text
  pub split : r.payload ≡ front ++ (value ∷ back)
  pub resolved : clause.condition.schema_index ≡ suc (length front)
  pub located : offset_of colcode r.column_offset_map uint64_max ≡ length (write_strings front)
  pub offsets : All (λ (entry : ColumnOffset). entry.offset < 2 ^ 64) r.column_offset_map

abbrev pub IsPlaced : WhereNode → Text → ℕ → TableRecord → Type 0
IsPlaced clause primary_key colcode r =
    IsKeyColumn clause primary_key ⊎ IsPayloadColumn clause primary_key colcode r

-- What the context knows of the table and of the clause's column.
pub record Knows (ctx : ExecutionContext) (table_name col_name primary_key : Text) (colcode n : ℕ)
    : Type 0 where
  pub schema : Schema
  pub colcodes : List (Text × ℕ)
  pub table : at_key table_name ctx.untyped_tables ≡ done schema
  pub columns : length schema ≡ n + 1
  pub short : n < 2 ^ 60
  pub key : extract_primary_key_column schema ≡ done primary_key
  pub codes : at_key table_name ctx.table_colcodes ≡ done colcodes
  pub code : at_key col_name colcodes ≡ done colcode

get_elem?-middle :
    (front back : List Text) (value : Text)
    → get_elem? (front ++ (value ∷ back)) (length front) ≡ some value
get_elem?-middle [] back value = refl
get_elem?-middle (x ∷ front) back value = get_elem?-middle front back value

-- The compared literal of a live record is the value that the clause was resolved to.
pub compared_literal_lem :
    (is_silent_mode : Bool) (ctx : ExecutionContext) (table_name : Text) (clause : WhereNode)
    (primary_key : Text) (colcode : ℕ) (file : List ℕ) (p n : ℕ) (r : TableRecord) (rest : List ℕ)
    → Knows ctx table_name clause.condition.col_name primary_key colcode n
    → IsPlaced clause primary_key colcode r
    → drop p file ≡ record_bytes r ++ rest
    → p + 8 + length (record_body r) < 2 ^ 63
    → IsRecord n r
    → is_tombstone r.record_type ≡ false
    → (value : Text) × (q : ℕ) × (get_elem? (stored_values r) clause.condition.schema_index
        ≡ some value)
      × (compared_literal is_silent_mode ctx table_name clause
            (p + 8)
            (length (record_body r))
            (good file (p + 9))
          ≡ done (value, good file q))
unfolding compared_literal
compared_literal_lem is_silent_mode ctx table_name clause primary_key colcode file p n r rest known
      placed h fits shape lives =
    let columns : u64_sub (length known.schema) 1 ≡ n = omega (arith, known.columns, known.short) in
    elim placed [
      | inl col ↦ (
        r.primary_key,
        p + 9 + 16 * n + length (write_string r.primary_key),
        rw col.resolved refl,
        rw (known.table, known.key, columns, col.named)
            (key_literal file p n r rest h fits shape lives),
      )
      | inr col ↦ (
        col.value,
        p + 8 + length (record_body r),
        rw col.resolved (
            ap (λ vs. get_elem? vs (length col.front)) col.split
            ∙ get_elem?-middle col.front col.back col.value),
        rw (known.table, known.key, columns, col.other, known.codes, known.code)
            (column_literal_lem file p n r rest h fits shape lives col.front col.back col.value
              col.split is_silent_mode colcode col.located col.offsets),
      )
    ]
