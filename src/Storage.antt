-- ===== src/Storage.antt =====
-- The table file: DB_Types in auxiliary/types/types.hpp, the constants and writeToBinaryFile of
-- DBEngine/filehandler/public_api.hpp and handlers/handler-utils.cpp, and the record layout of
-- README.md, "Binary file structure".
pub mod Layout
pub mod Serializer
pub mod Deserializer
pub mod Reads
pub mod Scan
pub mod Table
use bsc_thesis.Base.{
  ℕ, ◌+◌, ◌-◌, ◌*◌, ◌%◌, ◌^◌, ◌<◌, ◌≡◌, Bool, ◌||◌, List, [], ◌∷◌, ◌++◌, Text, ◌==◌, length, All,
}
use bsc_thesis.Stream.Bytes.{le_bytes}

-- std::uint64_t arithmetic
abbrev pub u64 : ℕ → ℕ
u64 n = n % 2 ^ 64

abbrev pub u64_sub : ℕ → ℕ → ℕ
u64_sub a b = (a + 2 ^ 64 - b % 2 ^ 64) % 2 ^ 64

-- DB_Types::RecordType is one byte in the file.
pub data RecordType : Type 0 where
  insert delete update unused : RecordType

abbrev pub type_byte : RecordType → ℕ
type_byte insert = 0
type_byte delete = 1
type_byte update = 2
type_byte unused = 3

-- record_type == RecordType::DELETE || record_type == RecordType::UNUSED
abbrev pub is_tombstone : ℕ → Bool
is_tombstone t = t == type_byte delete || t == type_byte unused

-- DB_Types::TableFileDeserializationIndicator
pub data Indicator : Type 0 where
  endoftable ioerror tombstone live skip : Indicator

-- DB_Types::column_offset_t: 16 bytes, of which the last 7 are padding.
pub record ColumnOffset : Type 0 where
  pub offset : ℕ
  pub col_id : ℕ
  pub padding : List ℕ

abbrev pub sizeof_column_offset : ℕ
sizeof_column_offset = 16

-- DB_Types::table_file_header_t
pub record TableFileHeader : Type 0 where
  pub magic : ℕ
  pub version : ℕ
  pub flags : ℕ
  pub reserved : ℕ

-- DB_MAGIC, DB_VERSION, DB_FLAGS and DB_RESERVED
abbrev pub db_header : TableFileHeader
db_header = record { magic = 0x4A5353514C7631; version = 1; flags = 0; reserved = 0 }

-- writeToBinaryFile of a std::uint64_t, of a column_offset_t and of a std::string
abbrev pub write_u64 : ℕ → List ℕ
write_u64 n = le_bytes 8 n

unfoldable pub write_column_offset : ColumnOffset → List ℕ
write_column_offset entry = write_u64 entry.offset ++ (entry.col_id ∷ entry.padding)

unfoldable pub write_string : Text → List ℕ
write_string text = write_u64 (length text) ++ text

unfoldable pub write_column_offsets : List ColumnOffset → List ℕ
write_column_offsets [] = []
write_column_offsets (entry ∷ entries) = write_column_offset entry ++ write_column_offsets entries

unfoldable pub write_strings : List Text → List ℕ
write_strings [] = []
write_strings (text ∷ texts) = write_string text ++ write_strings texts

-- The four writes of createTableFile.
unfoldable pub write_header : TableFileHeader → List ℕ
write_header header =
    write_u64 header.magic
    ++ (write_u64 header.version ++ (write_u64 header.flags ++ write_u64 header.reserved))

-- DB_Types::record_t. Its record_len is the length of what follows it in the file.
pub record TableRecord : Type 0 where
  pub record_type : ℕ
  pub column_offset_map : List ColumnOffset
  pub primary_key : Text
  pub payload : List Text

unfoldable pub record_body : TableRecord → List ℕ
record_body r =
    r.record_type
    ∷ (write_column_offsets r.column_offset_map
        ++ (write_string r.primary_key ++ write_strings r.payload))

-- [record_len][record_type][col_offset_map][primary_key][payload]
unfoldable pub record_bytes : TableRecord → List ℕ
record_bytes r = write_u64 (length (record_body r)) ++ record_body r

unfoldable pub records_bytes : List TableRecord → List ℕ
records_bytes [] = []
records_bytes (r ∷ rs) = record_bytes r ++ records_bytes rs

-- `[table header][record][record]...`
unfoldable pub table_file : List TableRecord → List ℕ
table_file rs = write_header db_header ++ records_bytes rs

-- A record of a table with `n` columns besides the primary key, short enough that its length is
-- a std::streamoff.
pub record IsRecord (n : ℕ) (r : TableRecord) : Type 0 where
  pub offsets_count : length r.column_offset_map ≡ n
  pub paddings : All (λ (entry : ColumnOffset). length entry.padding ≡ 7) r.column_offset_map
  pub payload_count : length r.payload ≡ n
  pub body_length : length (record_body r) < 2 ^ 63
