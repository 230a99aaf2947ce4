-- ===== src/Storage/Scan.antt =====
-- The loops over a whole table file: extractPrimaryKeysIndex of deserialization/extract-pks.cpp,
-- the sequential branch of handlers/select.cpp, compactor/ratio-calc.cpp, and
-- compactor/copy-record.cpp with the loop of compactor/compact.cpp. `fuel` bounds the rounds.
pub mod Select
pub mod Index
pub mod Compact
pub mod Count
use bsc_thesis.Base.{
  lookup, map_insert, ℕ, zero, suc, ◌+◌, ◌-◌, ◌*◌, Bool, true, false, not, ◌&&◌, List, [], ◌∷◌,
  ◌++◌, Option, none, some, Text, text_eq, ◌==◌, ltb, leb, if◌then◌else◌, length, take, replicate,
}
use bsc_thesis.Status.{
  Outcome, done, undefined, out_of_fuel, ◌>>=◌, ◌>>◌, FatalErrorCode, handle_fatal_error,
  unknown_io_error_during_deserialization, compact_unknown_error_during_copying,
  unknown_table_file_format,
}
use bsc_thesis.Ast.{WhereNode}
use bsc_thesis.Utils.Columns.{Schema}
use bsc_thesis.Condition.{Doubles}
use bsc_thesis.Stream.{Stream, read, open_stream}
use bsc_thesis.Stream.Bytes.{le_value}
use bsc_thesis.Storage.{
  Indicator, endoftable, ioerror, tombstone, live, skip, db_header, write_header, write_u64,
  write_string, write_strings, sizeof_column_offset,
}
use bsc_thesis.Storage.Deserializer.{
  Head, at_end, broken, dead, alive, record_head, deserialize_next_record_type,
  deserialize_next_primary_key, deserialize_next_record,
}

abbrev pub is_end : Indicator → Bool
is_end endoftable = true
is_end _ = false

abbrev pub is_live : Indicator → Bool
is_live live = true
is_live _ = false

abbrev pub is_error : Indicator → Bool
is_error ioerror = true
is_error _ = false

abbrev pub is_dead : Indicator → Bool
is_dead tombstone = true
is_dead _ = false

-- checkFileValidity of a std::ifstream: the header is read into a struct that is not initialised. In silent mode the
-- handler returns with the stream closed, and a closed stream reads as one that has failed. The
-- warning about another version changes nothing.
unfoldable pub check_file_validity : Bool → Stream → Outcome Stream
check_file_validity is_silent_mode s =
    let (header, s') = read 32 s in
    if ltb (length header) 8
    then undefined
    else (if le_value (take 8 header) == db_header.magic
        then done s'
        else (handle_fatal_error is_silent_mode unknown_table_file_format
            >> done (record s' { failed = true })))

-- checkFileValidity of a std::fstream, which it leaves open.
unfoldable pub check_fstream_validity : Bool → Stream → Outcome Stream
check_fstream_validity is_silent_mode s =
    let (header, s') = read 32 s in
    if ltb (length header) 8
    then undefined
    else (if le_value (take 8 header) == db_header.magic
        then done s'
        else (handle_fatal_error is_silent_mode unknown_table_file_format >> done s'))

-- DB_Types::index_t, an unordered map from a key to an offset.
abbrev pub Index : Type 0
Index = List (Text × ℕ)

-- The loop of extractPrimaryKeysIndex, with pk_val, offset and the result so far.
unfoldable pub index_loop : ℕ → ℕ → Stream → Text → ℕ → Index → Outcome Index
index_loop zero n s pk_val offset index = out_of_fuel
index_loop (suc fuel) n s pk_val offset index =
    let k = deserialize_next_primary_key n s pk_val offset in
    let index' = if is_live k.indicator then map_insert k.pk_val k.offset index else index in
    let rest = index_loop fuel n k.stream k.pk_val k.offset index' in
    if is_end k.indicator then done index else rest

-- extractPrimaryKeysIndex
unfoldable pub extract_primary_keys_index : ℕ → ℕ → Stream → Outcome Index
extract_primary_keys_index fuel n s = index_loop fuel n s [] 0 []

-- The while loop of selectData over the whole file.
unfoldable pub select_loop :
    Doubles
    → ℕ
    → Stream
    → Schema
    → List Bool
    → Option WhereNode
    → List (List Text)
    → Outcome (List (List Text))
select_loop doubles zero s schema mask clause results = out_of_fuel
select_loop doubles (suc fuel) s schema mask clause results =
    deserialize_next_record doubles s schema mask clause >>= λ (indicator, row, s').
    (let results' = if is_live indicator then results ++ (row ∷ []) else results in
      let rest = select_loop doubles fuel s' schema mask clause results' in
      if is_end indicator then done results else rest)

-- The do-while loop of calculateTombstoneRatio: tombstone_count and total_count.
unfoldable pub count_loop : Bool → ℕ → Stream → ℕ → ℕ → Outcome (ℕ × ℕ)
count_loop is_silent_mode zero s tombstones total = out_of_fuel
count_loop is_silent_mode (suc fuel) s tombstones total =
    let (indicator, s') = deserialize_next_record_type s in
    let tombstones' = if is_dead indicator then tombstones + 1 else tombstones in
    let total' = if is_error indicator then total else total + 1 in
    let rest = count_loop is_silent_mode fuel s' tombstones' total' in
    if is_end indicator
    then done (tombstones, total)
    else (if is_error indicator
        then handle_fatal_error is_silent_mode unknown_io_error_during_deserialization >> rest
        else rest)

-- 1.0 * tombstones / total >= 0.40. The quotient of doubles compares like the fraction while the
-- counts stay below 2^50; 0 / 0 is not a number and compares as false.
unfoldable pub above_threshold : ℕ → ℕ → Bool
above_threshold tombstones total = not (total == 0) && leb (4 * total) (10 * tombstones)

-- `n` column offsets, as the 16 bytes that each of them is. A read that falls short leaves a
-- struct that is not initialised.
unfoldable pub copy_offsets : ℕ → Stream → Outcome (List ℕ × Stream)
copy_offsets zero s = done ([], s)
copy_offsets (suc n) s =
    let (entry, s1) = read sizeof_column_offset s in
    if s1.failed
    then undefined
    else (copy_offsets n s1 >>= λ (entries, s2). done (entry ++ entries, s2))

-- A size and the data behind it. Without a size the source resizes to an indeterminate number;
-- data that falls short leaves the zeros of `resize`.
unfoldable pub copy_value : Stream → Outcome (Text × Stream)
copy_value s =
    let (size, s1) = read 8 s in
    let (value, s2) = read (le_value size) s1 in
    if s1.failed then undefined else done (value ++ replicate (le_value size - length value) 0, s2)

unfoldable pub copy_values : ℕ → Stream → Outcome (List Text × Stream)
copy_values zero s = done ([], s)
copy_values (suc n) s =
    copy_value s >>= λ (value, s1). copy_values n s1 >>= λ (values, s2). done (value ∷ values, s2)

-- copyNextLiveRecord: the indicator, the old file's stream, and the new file.
unfoldable pub copy_next_live_record : Stream → List ℕ → ℕ → Outcome (Indicator × Stream × List ℕ)
copy_next_live_record s new_file n = elim (record_head s) [
  | at_end s' ↦ done (endoftable, s', new_file)
  | broken s' ↦ done (ioerror, s', new_file)
  | dead s' ↦ done (tombstone, s', new_file)
  | alive record_length start record_type s' ↦ copy_offsets n s' >>= λ (offsets, s1).
      copy_value s1 >>= λ (pk_literal, s2). copy_values n s2 >>= λ (literals, s3). done (
        live,
        s3,
        new_file
            ++ (write_u64 record_length
                ++ (record_type
                    ∷ (offsets ++ (write_string pk_literal ++ write_strings literals)))),
      )
]

-- The do-while loop of compactTable: the new file that it leaves.
unfoldable pub compact_loop : Bool → ℕ → Stream → List ℕ → ℕ → Outcome (List ℕ)
compact_loop is_silent_mode zero s new_file n = out_of_fuel
compact_loop is_silent_mode (suc fuel) s new_file n =
    copy_next_live_record s new_file n >>= λ (indicator, s', new_file').
    (let rest = compact_loop is_silent_mode fuel s' new_file' n in
      if is_end indicator
      then done new_file'
      else (if is_error indicator
          then handle_fatal_error is_silent_mode compact_unknown_error_during_copying >> rest
          else rest))

-- compactTable on the bytes of the old file; `leftover` is what a file of the new name holds
-- before, since createTableFile keeps a file that exists. The result then takes the old name.
unfoldable pub compact_table : Bool → ℕ → List ℕ → Option (List ℕ) → ℕ → Outcome (List ℕ)
compact_table is_silent_mode fuel old_file leftover n =
    let new_file = elim leftover as (λ _. List ℕ) [
      | none ↦ write_header db_header
      | some bytes ↦ bytes
    ] in
    check_file_validity is_silent_mode (open_stream old_file) >>= λ s.
    compact_loop is_silent_mode fuel s new_file n
