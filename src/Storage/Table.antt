-- ===== src/Storage/Table.antt =====
-- Whole table files: the header check and the loops of Storage.Scan, as selectData, compactTable,
-- calculateTombstoneRatio and initializePrimaryKeyIndicesForTable run them on the bytes of a file.
pub mod Contents
pub mod RoundTrip
mod Samples
use bsc_thesis.Base.{
  ℕ, zero, suc, ◌+◌, ◌^◌, ◌≤◌, ◌<◌, ◌≡◌, refl, ap, ◌∙◌, Bool, true, false, List, [], ◌∷◌, ◌++◌,
  Option, none, some, Text, length, All, take, drop, arith, length-append, append_assoc,
  take-length_append, drop-length_append,
}
use bsc_thesis.Status.{Outcome, done, ◌>>=◌}
use bsc_thesis.Ast.{WhereNode}
use bsc_thesis.Utils.Columns.{Schema}
use bsc_thesis.Condition.{Doubles}
use bsc_thesis.Stream.{Stream, read, open_stream}
use bsc_thesis.Stream.Bytes.{le_bytes, le_value}
use bsc_thesis.Stream.Reading.{good, read_lem}
use bsc_thesis.Storage.{
  db_header, write_header, write_u64, TableRecord, record_bytes, records_bytes, table_file,
  record_body, IsRecord,
}
use bsc_thesis.Storage.Layout.{length-record_bytes}
use bsc_thesis.Storage.Scan.{
  Index, check_file_validity, check_fstream_validity, select_loop, count_loop,
  extract_primary_keys_index,
}

-- The rounds that every scan of a file is given: one for each byte and one for the end.
abbrev pub scan_fuel : List ℕ → ℕ
scan_fuel file = length file + 1

-- The sequential branch of selectData.
unfoldable pub select_table :
    Doubles → Bool → List ℕ → Schema → List Bool → Option WhereNode → Outcome (List (List Text))
select_table doubles is_silent_mode file schema mask clause =
    check_file_validity is_silent_mode (open_stream file) >>= λ s.
    select_loop doubles (scan_fuel file) s schema mask clause []

-- calculateTombstoneRatio, as the pair of its counts
unfoldable pub count_table : Bool → List ℕ → Outcome (ℕ × ℕ)
count_table is_silent_mode file = check_file_validity is_silent_mode (open_stream file) >>= λ s.
    count_loop is_silent_mode (scan_fuel file) s 0 0

-- The index that initializePrimaryKeyIndicesForTable reads from a file with `n` columns besides
-- the key.
unfoldable pub index_table : Bool → List ℕ → ℕ → Outcome Index
index_table is_silent_mode file n = check_file_validity is_silent_mode (open_stream file) >>= λ s.
    extract_primary_keys_index (scan_fuel file) n s

-- A table file whose records have `n` columns besides the key, and whose size is a streamoff.
pub record IsTable (n : ℕ) (rs : List TableRecord) : Type 0 where
  pub shapes : All (IsRecord n) rs
  pub size : length (table_file rs) < 2 ^ 63

header_size : length (write_header db_header) ≡ 32
unfolding write_header le_bytes
header_size = refl

header_magic : le_value (take 8 (write_header db_header)) ≡ db_header.magic
unfolding write_header le_bytes le_value
header_magic = refl

pub length-table_file :
    (rs : List TableRecord) → length (table_file rs) ≡ 32 + length (records_bytes rs)
unfolding table_file
length-table_file rs =
    omega (arith, header_size, length-append {0} (write_header db_header) (records_bytes rs))

pub drop-table_file : (rs : List TableRecord) → drop 32 (table_file rs) ≡ records_bytes rs
unfolding table_file
drop-table_file rs =
    rw header_size at (drop-length_append (write_header db_header) (records_bytes rs))

-- The header of a table file passes the check, and the stream stands behind it.
pub check_file_validity_lem :
    (is_silent_mode : Bool) (rs : List TableRecord)
    → check_file_validity is_silent_mode (open_stream (table_file rs))
      ≡ done (good (table_file rs) 32)
unfolding check_file_validity
check_file_validity_lem is_silent_mode rs =
    let now =
      read_lem (table_file rs) 0 32 (write_header db_header) (records_bytes rs)
        (unfold table_file in refl) header_size in
    rw (now, header_size, header_magic)

pub check_fstream_validity_lem :
    (is_silent_mode : Bool) (rs : List TableRecord)
    → check_fstream_validity is_silent_mode (open_stream (table_file rs))
      ≡ done (good (table_file rs) 32)
unfolding check_fstream_validity
check_fstream_validity_lem is_silent_mode rs =
    let now =
      read_lem (table_file rs) 0 32 (write_header db_header) (records_bytes rs)
        (unfold table_file in refl) header_size in
    rw (now, header_size, header_magic)

pub length-le-records_bytes : (rs : List TableRecord) → length rs ≤ length (records_bytes rs)
unfolding records_bytes
length-le-records_bytes [] = omega arith
length-le-records_bytes (r ∷ rs) = omega (
  arith,
  length-append {0} (record_bytes r) (records_bytes rs),
  length-record_bytes r,
  length-le-records_bytes rs,
)

pub enough_fuel : (rs : List TableRecord) → length rs < scan_fuel (table_file rs)
enough_fuel rs = omega (arith, length-table_file rs, length-le-records_bytes rs)
