-- ===== src/Storage/Serializer/Lengths.antt =====
-- The record length and the column offsets that serializeNormalizedRecord
-- (serialization/normalized-record.cpp) computes are those of the bytes that it writes.
use bsc_thesis.Base.{
  ℕ, zero, suc, ◌+◌, ◌-◌, ◌*◌, ◌%◌, ◌^◌, ◌≤◌, ◌<◌, ◌≡◌, refl, ap, Bool, false, List, [], ◌∷◌, ◌++◌,
  Option, some, none, subst, Text, ◌==◌, length, All, arith, length-append, if◌then◌else◌,
  Bool-cases, inl, inr,
}
use bsc_thesis.Status.{done, >>=-eq-done}
use bsc_thesis.Ast.{UntypedColumnDefNode, LiteralNode}
use bsc_thesis.Utils.Strings.{remove_outer_quotes}
use bsc_thesis.Utils.Columns.{Schema}
use bsc_thesis.Storage.{
  u64, RecordType, type_byte, ColumnOffset, write_u64, write_column_offsets, write_string,
  write_strings, record_body, record_bytes, IsRecord,
}
use bsc_thesis.Storage.Layout.{length-write_string, length-write_column_offsets}
use bsc_thesis.Storage.Serializer.{
  Colcodes, colcode_at, element, final_literal, Columns, no_columns, add_column, column_step,
  serialize_columns, Normalized, find_pk_idx, with_key, normalized_record, serialized_bytes,
  normalized_table_record,
}

-- The entries point to the texts, whose bytes start at `start` in the data tuple region.
abbrev pub Located : ℕ → List ColumnOffset → List Text → Type 0
Located start [] [] = Unit {0}
Located start [] (t ∷ ts) = ⊥
Located start (e ∷ es) [] = ⊥
Located start (e ∷ es) (t ∷ ts) =
    (e.offset ≡ u64 start) × (length e.padding ≡ 7) × Located (start + 8 + length t) es ts

length-write_strings_snoc :
    (ts : List Text) (t : Text)
    → length (write_strings (ts ++ (t ∷ []))) ≡ length (write_strings ts) + 8 + length t
unfolding write_strings
length-write_strings_snoc [] t =
    omega (arith, length-append {0} (write_string t) [], length-write_string t)
length-write_strings_snoc (u ∷ ts) t = omega (
  arith,
  length-append {0} (write_string u) (write_strings (ts ++ (t ∷ []))),
  length-append {0} (write_string u) (write_strings ts),
  length-write_strings_snoc ts t,
)

Located-snoc :
    (start : ℕ) (es : List ColumnOffset) (ts : List Text) (e : ColumnOffset) (t : Text)
    → Located start es ts
    → e.offset ≡ u64 (start + length (write_strings ts))
    → length e.padding ≡ 7
    → Located start (es ++ (e ∷ [])) (ts ++ (t ∷ []))
unfolding write_strings
Located-snoc start [] [] e t l at pad = (omega arith, pad, tt)
Located-snoc start [] (u ∷ ts) e t l at pad = absurd l
Located-snoc start (d ∷ es) [] e t l at pad = absurd l
Located-snoc start (d ∷ es) (u ∷ ts) e t l at pad = (
  l.0,
  l.1,
  Located-snoc (start + 8 + length u) es ts e t l.2
      (omega (arith, length-append {0} (write_string u) (write_strings ts), length-write_string u))
      pad,
)

pub Located-length :
    (start : ℕ) (es : List ColumnOffset) (ts : List Text)
    → Located start es ts
    → length es ≡ length ts
Located-length start [] [] l = refl
Located-length start [] (t ∷ ts) l = absurd l
Located-length start (e ∷ es) [] l = absurd l
Located-length start (e ∷ es) (t ∷ ts) l = ap suc (Located-length (start + 8 + length t) es ts l.2)

pub Located-paddings :
    (start : ℕ) (es : List ColumnOffset) (ts : List Text)
    → Located start es ts
    → All (λ (e : ColumnOffset). length e.padding ≡ 7) es
Located-paddings start [] ts l = tt
Located-paddings start (e ∷ es) [] l = absurd l
Located-paddings start (e ∷ es) (t ∷ ts) l =
    (l.1, Located-paddings (start + 8 + length t) es ts l.2)

-- What holds of the loop's variables after each round.
record IsSerialized (st : Columns) : Type 0 where
  located : Located 0 st.offsets st.literals
  running_offset : st.running ≡ u64 (length (write_strings st.literals))

add_column-IsSerialized :
    (st : Columns) (colcode : ℕ) (t : Text)
    → IsSerialized st
    → IsSerialized (add_column st colcode t)
add_column-IsSerialized st colcode t inv = record {
  located =
      Located-snoc 0 st.offsets st.literals _ t inv.located (omega (arith, inv.running_offset))
        refl;
  running_offset = omega (arith, inv.running_offset, length-write_strings_snoc st.literals t);
}

-- The number of columns among those from index `i` on that are not the key.
abbrev others : ℕ → ℕ → Schema → ℕ
others pk_idx i [] = 0
others pk_idx i (col ∷ cols) = (if i == pk_idx then 0 else 1) + others pk_idx (i + 1) cols

module _ (colcodes : Colcodes) (values : List (Option LiteralNode)) (mask : List Bool)
    (pk_idx : ℕ) where
  -- A round adds one column, unless it is the key's.
  column_step-added :
      (col : UntypedColumnDefNode) (i : ℕ) (st st' : Columns)
      → (i == pk_idx) ≡ false
      → column_step colcodes values mask pk_idx col i st ≡ done st'
      → (colcode : ℕ) × (t : Text) × (st' ≡ add_column st colcode t)
  unfolding column_step
  column_step-added col i st st' other h =
      let h' = rw other at h in
      let (lit, _, h1) = >>=-eq-done (element values i) _ h' in
      let (provided, _, h2) = >>=-eq-done (element mask i) _ h1 in
      let (t, _, h3) = >>=-eq-done (final_literal col provided lit) _ h2 in
      let (colcode, _, h4) = >>=-eq-done (colcode_at col.name colcodes) _ h3 in (colcode, t, cc)

  serialize_columns-IsSerialized :
      (cols : Schema) (i : ℕ) (st st' : Columns)
      → IsSerialized st
      → serialize_columns colcodes values mask pk_idx cols i st ≡ done st'
      → IsSerialized st' × (length st'.literals ≡ length st.literals + others pk_idx i cols)
  unfolding serialize_columns
  serialize_columns-IsSerialized [] i st st' inv h =
      let e : st ≡ st' = cc in rw (← e) (inv, omega arith)
  serialize_columns-IsSerialized (col ∷ cols) i st st' inv h =
      let (mid, first, rest) = >>=-eq-done (column_step colcodes values mask pk_idx col i st) _ h in
      elim (Bool-cases (i == pk_idx)) [
        | inl key ↦
            let same : st ≡ mid = unfold column_step in cc (rw key at first) in
            let (inv', count) =
              serialize_columns-IsSerialized cols (i + 1) st st' inv (rw (← same) at rest) in
            (inv', rw key (omega (arith, count)))
        | inr other ↦
            let (colcode, t, e) = column_step-added col i st mid other first in
            let (inv', count) =
              serialize_columns-IsSerialized cols (i + 1) (add_column st colcode t) st'
                (add_column-IsSerialized st colcode t inv) (rw e at rest) in
            (inv', rw other (omega (arith, count, length-append {0} st.literals (t ∷ []))))
      ]

others-past : (pk_idx i : ℕ) (cols : Schema) → pk_idx < i → others pk_idx i cols ≡ length cols
others-past pk_idx i [] h = refl
others-past pk_idx i (col ∷ cols) h = ground (arith, others-past pk_idx (i + 1) cols)

others-within :
    (pk_idx i : ℕ) (cols : Schema)
    → i ≤ pk_idx
    → pk_idx < i + length cols
    → others pk_idx i cols + 1 ≡ length cols
others-within pk_idx i [] h k = absurd (omega arith)
others-within pk_idx i (col ∷ cols) h k =
    ground (arith, others-past pk_idx (i + 1) cols, others-within pk_idx (i + 1) cols)

element-lt {ℓ} : {A : Type ℓ} (xs : List A) (i : ℕ) {a : A} → element xs i ≡ done a → i < length xs
element-lt [] i h = cc
element-lt (x ∷ xs) zero h = omega arith
element-lt (x ∷ xs) (suc i) h = omega (arith, element-lt xs i h)

-- What holds of a normalized record.
pub record IsNormalized (schema : Schema) (b : Normalized) : Type 0 where
  pub located : Located 0 b.columns.offsets b.columns.literals
  pub count : length b.columns.literals + 1 ≡ length schema
  pub running_offset : b.columns.running ≡ u64 (length (write_strings b.columns.literals))
  pub length_field :
      b.record_length
      ≡ u64 (
          u64 (1 + (8 + length b.pk_literal))
          + (b.columns.running + (length schema + 255) % 256 * 16))

module _ (schema : Schema) (colcodes : Colcodes) (values : List (Option LiteralNode))
    (mask : List Bool) where
  IsNormalized-columns :
      (pk_idx : ℕ) (pk : Text) (columns : Columns)
      → pk_idx < length schema
      → serialize_columns colcodes values mask pk_idx schema 0 no_columns ≡ done columns
      → IsNormalized schema (record {
        pk_idx = pk_idx;
        pk_literal = pk;
        record_length =
            u64 (u64 (1 + (8 + length pk)) + (columns.running + (length schema + 255) % 256 * 16));
        columns = columns;
      })
  IsNormalized-columns pk_idx pk columns inside h =
      let start : IsSerialized no_columns = record {
        located = tt;
        running_offset = unfold write_strings in refl;
      } in
      let (inv, count) =
        serialize_columns-IsSerialized colcodes values mask pk_idx schema 0 no_columns columns start
          h in
      record {
        located = inv.located;
        count = omega (arith, count, others-within pk_idx 0 schema);
        running_offset = inv.running_offset;
        length_field = refl;
      }

  with_key-IsNormalized :
      (pk_idx : ℕ) (key : Option LiteralNode) (b : Normalized)
      → pk_idx < length schema
      → with_key schema colcodes values mask pk_idx key ≡ done b
      → IsNormalized schema b
  unfolding with_key
  with_key-IsNormalized pk_idx none b inside h = cc
  with_key-IsNormalized pk_idx (some lit) b inside h =
      let (columns, run, h3) =
        >>=-eq-done (serialize_columns colcodes values mask pk_idx schema 0 no_columns) _ h in
      subst (IsNormalized schema) (cc h3)
        (IsNormalized-columns pk_idx (remove_outer_quotes lit.value) columns inside run)

  pub normalized_record-IsNormalized :
      (b : Normalized)
      → length values ≡ length schema
      → normalized_record schema colcodes values mask ≡ done b
      → IsNormalized schema b
  unfolding normalized_record
  normalized_record-IsNormalized b sizes h =
      let (pk_idx, _, h1) = >>=-eq-done (find_pk_idx schema) _ h in
      let (key, at_key, h2) = >>=-eq-done (element values pk_idx) _ h1 in
      with_key-IsNormalized pk_idx key b (omega (arith, sizes, element-lt values pk_idx at_key)) h2

-- The bytes that serializeNormalizedRecord writes for a row of a table of at most 256 columns are
-- those of a well-formed record: the record length that it computes with wrapping arithmetic is
-- the length of what follows it, and each column offset is the distance of its column's size
-- field from the start of the data tuple region.
pub serialized_bytes-IsRecord :
    (schema : Schema) (colcodes : Colcodes) (values : List (Option LiteralNode)) (mask : List Bool)
    → (b : Normalized) (type : RecordType) → length values ≡ length schema
    → length schema ≤ 256
    → normalized_record schema colcodes values mask ≡ done b
    → length (record_body (normalized_table_record b type)) < 2 ^ 63
    → (serialized_bytes b type ≡ record_bytes (normalized_table_record b type))
      × IsRecord (length schema - 1) (normalized_table_record b type)
      × Located 0 b.columns.offsets b.columns.literals
unfolding serialized_bytes record_bytes record_body
serialized_bytes-IsRecord schema colcodes values mask b type sizes few h short =
    let ok = normalized_record-IsNormalized schema colcodes values mask b sizes h in
    let paddings = Located-paddings 0 b.columns.offsets b.columns.literals ok.located in
    let same_length = Located-length 0 b.columns.offsets b.columns.literals ok.located in
    let strings = write_string b.pk_literal ++ write_strings b.columns.literals in
    let body : length (write_column_offsets b.columns.offsets ++ strings)
        ≡ 16 * length b.columns.literals
          + (8 + length b.pk_literal + length (write_strings b.columns.literals)) =
      omega (
        arith,
        length-append {0} (write_column_offsets b.columns.offsets) strings,
        length-append {0} (write_string b.pk_literal) (write_strings b.columns.literals),
        length-write_string b.pk_literal,
        length-write_column_offsets b.columns.offsets paddings,
        same_length,
      ) in
    let length_right : b.record_length
        ≡ suc (length (write_column_offsets b.columns.offsets ++ strings)) =
      omega (arith, body, ok.length_field, ok.running_offset, ok.count) in
    (
      ap
          (λ (n : ℕ).
            write_u64 n ++ (type_byte type ∷ (write_column_offsets b.columns.offsets ++ strings)))
          length_right,
      record {
        offsets_count = omega (arith, same_length, ok.count);
        paddings = paddings;
        payload_count = omega (arith, ok.count);
        body_length = short;
      },
      ok.located,
    )
