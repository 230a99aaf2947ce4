-- ===== src/Storage/Serializer.antt =====
-- DBEngine/filehandler/serialization/normalized-record.cpp: serializeNormalizedRecord, in the part
-- that computes the record and the part that writes it.
pub mod Lengths
pub mod Contents
pub mod Total
use bsc_thesis.Base.{
  ℕ, zero, suc, ◌+◌, ◌-◌, ◌*◌, ◌%◌, Bool, true, false, not, ◌&&◌, ◌||◌, List, [], ◌∷◌, ◌++◌, Option,
  none, some, Text, text_eq, ◌==◌, ltb, if◌then◌else◌, length, get_elem?, replicate,
}
use bsc_thesis.Status.{Outcome, done, threw, undefined, out_of_fuel, ◌>>=◌, ◌>>◌}
use bsc_thesis.Ast.{UntypedColumnDefNode, LiteralType, LiteralNode}
use bsc_thesis.Utils.Strings.{remove_outer_quotes}
use bsc_thesis.Utils.Inserts.{get_default_value}
use bsc_thesis.Utils.Columns.{Schema, is_primary_key}
use bsc_thesis.Storage.{
  u64, RecordType, type_byte, ColumnOffset, sizeof_column_offset, write_u64, write_column_offsets,
  write_string, write_strings, TableRecord,
}

-- DB_Types::colname_colcode_map_t
abbrev pub Colcodes : Type 0
Colcodes = List (Text × ℕ)

-- `at` of the map throws where the name is missing.
unfoldable pub colcode_at : Text → Colcodes → Outcome ℕ
colcode_at name [] = threw
colcode_at name ((k, code) ∷ codes') =
    let rest = colcode_at name codes' in if text_eq k name then done code else rest

-- operator[] of a vector is undefined past the end.
abbrev pub element {ℓ} : {A : Type ℓ} → List A → ℕ → Outcome A
element [] i = undefined
element (x ∷ xs) zero = done x
element (x ∷ xs) (suc i) = element xs i

-- `for (; pk_idx < ncols; ++pk_idx) if (…primary_key) break;` with a std::uint8_t that wraps.
unfoldable pub pk_loop : ℕ → ℕ → Schema → Outcome ℕ
pk_loop zero pk_idx schema = out_of_fuel
pk_loop (suc fuel) pk_idx schema =
    let rest = pk_loop fuel ((pk_idx + 1) % 256) schema in
    if ltb pk_idx (length schema)
    then (element schema pk_idx >>= λ col. (if is_primary_key col then done pk_idx else rest))
    else done pk_idx

-- 257 rounds see every value of a std::uint8_t: without a key among the first 256 columns of a
-- table of 256 or more the loop of the source does not end.
unfoldable pub find_pk_idx : Schema → Outcome ℕ
find_pk_idx schema = pk_loop 257 0 schema

-- !lit || lit->type == EMPTY
unfoldable pub is_empty_literal : Option LiteralNode → Bool
is_empty_literal none = true
is_empty_literal (some lit) = elim lit.type [ LiteralType.empty ↦ true | _ ↦ false ]

-- What is written for a column that is no key: the default where nothing was provided. The default
-- of a column without one is the empty text.
unfoldable pub final_literal : UntypedColumnDefNode → Bool → Option LiteralNode → Outcome Text
final_literal col user_provided none = get_default_value col.modifiers
final_literal col user_provided (some lit) =
    if not user_provided || is_empty_literal (some lit)
    then get_default_value col.modifiers
    else done (remove_outer_quotes lit.value)

-- column_offsets, payload_literals and running_data_offset
pub record Columns : Type 0 where
  pub offsets : List ColumnOffset
  pub literals : List Text
  pub running : ℕ

abbrev pub no_columns : Columns
no_columns = record { offsets = []; literals = []; running = 0 }

abbrev pub add_column : Columns → ℕ → Text → Columns
add_column st colcode literal = record {
  offsets =
      st.offsets
      ++ (record { offset = st.running; col_id = colcode; padding = replicate 7 0 } ∷ []);
  literals = st.literals ++ (literal ∷ []);
  running = u64 (st.running + 8 + length literal);
}

module _ (colcodes : Colcodes) (values : List (Option LiteralNode)) (projection_mask : List Bool)
    (pk_idx : ℕ) where
  -- One round of the loop over the columns.
  unfoldable pub column_step : UntypedColumnDefNode → ℕ → Columns → Outcome Columns
  column_step col i st =
      let written = element values i >>= λ lit. element projection_mask i >>= λ user_provided.
      final_literal col user_provided lit >>= λ literal.
      colcode_at col.name colcodes >>= λ colcode. done (add_column st colcode literal) in
      if i == pk_idx then done st else written

  unfoldable pub serialize_columns : Schema → ℕ → Columns → Outcome Columns
  serialize_columns [] i st = done st
  serialize_columns (col ∷ cols) i st =
      column_step col i st >>= λ st'. serialize_columns cols (i + 1) st'

-- What the first part of serializeNormalizedRecord has computed.
pub record Normalized : Type 0 where
  pub pk_idx : ℕ
  pub pk_literal : Text
  pub record_length : ℕ
  pub columns : Columns

module _ (schema : Schema) (colcodes : Colcodes) (values : List (Option LiteralNode))
    (projection_mask : List Bool) where
  -- From the key's literal on; a null pointer there is dereferenced.
  unfoldable pub with_key : ℕ → Option LiteralNode → Outcome Normalized
  with_key pk_idx none = undefined
  with_key pk_idx (some lit) =
      let pk_literal = remove_outer_quotes lit.value in
      serialize_columns colcodes values projection_mask pk_idx schema 0 no_columns >>= λ columns.
      done (record {
        pk_idx = pk_idx;
        pk_literal = pk_literal;
        record_length = u64 (
            u64 (1 + (8 + length pk_literal))
            + (columns.running + (length schema + 255) % 256 * sizeof_column_offset));
        columns = columns;
      })

  unfoldable pub normalized_record : Outcome Normalized
  normalized_record =
      find_pk_idx schema >>= λ pk_idx. element values pk_idx >>= λ key. with_key pk_idx key

-- The writes, without the key's entry in the index: that is written between the length and the type.
unfoldable pub serialized_bytes : Normalized → RecordType → List ℕ
serialized_bytes b type =
    write_u64 b.record_length
    ++ (type_byte type
        ∷ (write_column_offsets b.columns.offsets
            ++ (write_string b.pk_literal ++ write_strings b.columns.literals)))

-- The record that is meant.
abbrev pub normalized_table_record : Normalized → RecordType → TableRecord
normalized_table_record b type = record {
  record_type = type_byte type;
  column_offset_map = b.columns.offsets;
  primary_key = b.pk_literal;
  payload = b.columns.literals;
}
