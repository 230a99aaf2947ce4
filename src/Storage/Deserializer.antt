-- ===== src/Storage/Deserializer.antt =====
-- DBEngine/filehandler/deserialization: one call of each deserializer on a stream.
use bsc_thesis.Base.{
  ℕ, zero, suc, ◌+◌, ◌*◌, Bool, true, false, List, [], ◌∷◌, ◌++◌, Option, none, some, Text, ◌==◌,
  if◌then◌else◌, length, get_or,
}
use bsc_thesis.Stream.{Stream, read, seek_cur}
use bsc_thesis.Stream.Bytes.{le_value}
use bsc_thesis.Status.{Outcome, done, ◌>>=◌}
use bsc_thesis.Ast.{WhereNode}
use bsc_thesis.Utils.Columns.{Schema}
use bsc_thesis.Condition.{Doubles, evaluate_comparator}
use bsc_thesis.Storage.{
  u64, u64_sub, is_tombstone, Indicator, endoftable, ioerror, tombstone, live, skip,
  sizeof_column_offset,
}

-- The opening that the deserializers, copyNextLiveRecord and performSequentialDelete share: the
-- length, the position of the type region, the type, and the jump over a tombstone.
pub data Head : Type 0 where
  at_end broken dead : Stream → Head
  alive : ℕ → ℕ → ℕ → Stream → Head

unfoldable pub record_head : Stream → Head
record_head s =
    let (length_bytes, s1) = read 8 s in
    let record_length = le_value length_bytes in
    let (type_bytes, s2) = read 1 s1 in
    let record_type = get_or type_bytes 0 0 in
    if s1.failed
    then at_end s1
    else (if s2.failed
        then broken s2
        else (if is_tombstone record_type
            then dead (seek_cur (u64_sub record_length 1) s2)
            else alive record_length s1.pos record_type s2))

-- deserializeNextRecordType
unfoldable pub deserialize_next_record_type : Stream → Indicator × Stream
deserialize_next_record_type s = elim (record_head s) [
  | at_end s' ↦ (endoftable, s')
  | broken s' ↦ (ioerror, s')
  | dead s' ↦ (tombstone, s')
  | alive record_length start record_type s' ↦ (live, seek_cur (u64_sub record_length 1) s')
]

-- `read(&size, 8); value.resize(size); read(&value[0], size)`. After a failed first read the size
-- is indeterminate in the source; the second read fails whatever it is.
unfoldable pub read_value : Stream → Text × Stream
read_value s = let (size, s1) = read 8 s in read (le_value size) s1

abbrev pub col_offset_region_length : ℕ → ℕ
col_offset_region_length number_of_columns_without_pk =
    u64 (number_of_columns_without_pk * sizeof_column_offset)

-- What deserializeNextPrimaryKey leaves: the indicator, out_pk_val, out_offset and the stream.
pub record KeyResult : Type 0 where
  pub indicator : Indicator
  pub pk_val : Text
  pub offset : ℕ
  pub stream : Stream

-- deserializeNextPrimaryKey; the last two arguments are out_pk_val and out_offset before the call.
unfoldable pub deserialize_next_primary_key : ℕ → Stream → Text → ℕ → KeyResult
deserialize_next_primary_key n s pk offset = elim (record_head s) [
  | at_end s' ↦ record { indicator = endoftable; pk_val = pk; offset = offset; stream = s' }
  | broken s' ↦ record { indicator = ioerror; pk_val = pk; offset = offset; stream = s' }
  | dead s' ↦ record { indicator = tombstone; pk_val = pk; offset = offset; stream = s' }
  | alive record_length start record_type s' ↦
      let region = col_offset_region_length n in
      let (pk', s'') = read_value (seek_cur region s') in
      let remaining_bytes = u64_sub record_length (1 + region + 8 + length pk') in
      if s''.failed
      then record { indicator = ioerror; pk_val = []; offset = start; stream = s'' }
      else record {
        indicator = live;
        pk_val = pk';
        offset = start;
        stream = seek_cur remaining_bytes s'';
      }
]

-- The condition at column `i`, where the clause names that column: what it makes of where_result.
module _ (doubles : Doubles) where
  unfoldable pub check_column : Option WhereNode → ℕ → Text → Bool → Outcome Bool
  check_column none i value where_result = done where_result
  check_column (some clause) i value where_result =
      let cond = clause.condition in
      if cond.schema_index == i
      then evaluate_comparator doubles value cond.cmp cond.literal_value
      else done where_result

  -- The loop over the columns of deserializeNextRecord: `n` columns are left, from index `i` on.
  -- An index past the end of the mask, which is undefined in C++ and does not arise from a
  -- normalized statement, reads as false. `none` is the IOERROR.
  unfoldable pub columns_loop :
      Option WhereNode
      → List Bool
      → ℕ
      → ℕ
      → Stream
      → List Text
      → Bool
      → Outcome (Option (List Text × Bool) × Stream)
  columns_loop clause mask zero i s out_record where_result =
      done (some (out_record, where_result), s)
  columns_loop clause mask (suc n) i s out_record where_result =
      let (value, s') = read_value s in
      let out_record' = if get_or mask i false then out_record ++ (value ∷ []) else out_record in
      let rest = check_column clause i value where_result >>= λ where_result'.
      columns_loop clause mask n (i + 1) s' out_record' where_result' in
      if s'.failed then done (none, s') else rest

  -- deserializeNextRecord, with the out_record that it leaves.
  unfoldable pub deserialize_next_record :
      Stream → Schema → List Bool → Option WhereNode → Outcome (Indicator × List Text × Stream)
  deserialize_next_record s schema mask clause = elim (record_head s) [
    | at_end s' ↦ done (endoftable, [], s')
    | broken s' ↦ done (ioerror, [], s')
    | dead s' ↦ done (tombstone, [], s')
    | alive record_length start record_type s' ↦
        let region = col_offset_region_length (u64_sub (length schema) 1) in
        columns_loop clause mask (length schema) 0 (seek_cur region s') [] true >>= λ (fields, s'').
        done (elim fields as (λ _. Indicator × List Text × Stream) [
          | none ↦ (ioerror, [], s'')
          | some (out_record, where_result) ↦ (if where_result then live else skip, out_record, s'')
        ])
  ]
