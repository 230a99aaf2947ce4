-- ===== src/Lib.antt =====
-- A verification library for a single-table SQL engine in C++. The parser turns a statement into
-- nodes (src/parser); the interpreter (src/interpreter) hands each node to the semantic normalizer,
-- then to the semantic validator, and an accepted one to a handler of the file layer
-- (src/DBEngine/filehandler). The handlers read and write one binary table file per table and keep
-- the session's state, the execution context (src/DBEngine/execution_context), up to date: the
-- schemas, the column codes, an index from primary keys to file offsets, and delete counters.
--
-- Which file models which part:
-- - Base, Base/*: Boolean tests, lists over the native numbers, byte texts (std::string), and
--   association lists (std::unordered_map).
-- - Stream, Stream/*: the binary streams of <fstream>, as bytes, a position and the failbit, and the
--   little-endian integers that are read and written through them.
-- - Status: src/auxiliary/types/status-codes.hpp, and the exit of handleFatalError in
--   src/DBEngine/services/logger/std_logger/error_logger.cpp. An Outcome tells a value, an exit, an
--   exception and undefined behaviour apart.
-- - Ast: src/parser/ast.hpp. Utils, Utils/*: src/auxiliary/utils.
-- - Condition, Condition/*: src/DBEngine/services/condition-evaluator. evaluate is the switch of
--   evaluateComparator, an Outcome since std::stod may throw; Condition/Regex builds the regular expression of likeMatch and matches it;
--   Condition/Like states what LIKE means.
-- - Strategy: src/DBEngine/services/strategy-decider.
-- - Storage: the records of src/auxiliary/types/types.hpp and their bytes (README.md, "Binary file
--   structure"). Storage/Serializer is serializeNormalizedRecord
--   (src/DBEngine/filehandler/serialization); Storage/Deserializer is one call of
--   deserializeNextRecord, deserializeNextRecordType or deserializeNextPrimaryKey
--   (src/DBEngine/filehandler/deserialization); Storage/Scan has the loops of selectData,
--   extractPrimaryKeysIndex, calculateTombstoneRatio and compactTable, with copyNextLiveRecord
--   (src/DBEngine/filehandler/handlers/select.cpp and compactor), and its child modules follow
--   each of them along a list of records; Storage/Table runs them on the bytes of a whole file.
-- - Context, Context/*: src/DBEngine/execution_context; a function for each operation, with
--   at_key for unordered_map::at and its exception. Context/Metadata is initializeUntypedTableMetadata,
--   on the texts of the metadata files that are there, by table.
-- - Normalizer, Normalizer/*: src/DBEngine/services/semantic_normalizer. A function gives the Boolean
--   result and the node that is left, since the validator is called on it in either case.
-- - Validator, Validator/*: src/DBEngine/services/semantic_validator, with the error that is printed.
-- - Marking, Marking/*: deserializeNextRecordAndMarkAsTombstone
--   (src/DBEngine/filehandler/deserialization/record.cpp) and the loop of updateData that calls it
--   (src/DBEngine/filehandler/handlers/update.cpp).
-- - Select, Select/*: selectData of src/DBEngine/filehandler/handlers/select.cpp, with the branch
--   that uses the index.
-- - Handlers, Handlers/*: the files of a data directory (Disk), ensureTableFileExists, the end of
--   serializeNormalizedRecord that writes and enters the key in the index, insertData, and the
--   compaction check of updateData and deleteData. Handlers/Import is performCSVImport,
--   Handlers/Tables are createUntypedTable and dropTable. Handlers/Rows is the abstract table: the
--   list of the rows of the live records; Handlers/Stored says when the context and the files hold
--   such a table.
-- - Update, Update/*: updateData of src/DBEngine/filehandler/handlers/update.cpp.
-- - Delete, Delete/*: performDeleteByIndexLookup and performSequentialDelete of
--   src/DBEngine/filehandler/handlers/delete.cpp; Delete/Handler is deleteData. Delete/Uncounted follows a
--   DELETE on a table that was made in the same session.
-- - Csv, Csv/*: parseCsvRow of src/DBEngine/filehandler/handlers/csv-import.cpp.
-- - Interpreter, Interpreter/*: src/interpreter/interpreter_visitor.hpp, a function for each visit.
-- - Cli, Cli/*: src/CLI-driver/src/runcli.cpp, the loop that collects lines into statements, and the
--   cleanup behind it.
-- - Messages, Messages/*: the message templates of src/DBEngine/services/logger, with the values that
--   injectContext puts into them.
-- - Fixtures: a table of three users, for the tests and examples in the Samples modules.
--
-- Bounds and fuel: std::uint64_t arithmetic wraps at 2 ^ 64, file positions are below 2 ^ 63, column
-- codes and schema indices are bytes. The loops over a file run on fuel; scan_fuel is the length of
-- the file plus one, which is enough because every round before the last reads at least the eight
-- bytes of a record length.
--
-- Parameters: strtod, its ERANGE and the orders on double (the record Doubles); whether a quotient in double
-- arithmetic reaches the compaction threshold; the CSV files, by path, as their lines; in Cli, what
-- ExecutionContext::getInstance and parseAndExecute do. The file system does not fail, and
-- std::string::resize has memory for the size that a record gives; on a corrupt file, where it would throw,
-- the model goes on to the read that then fails. Not modelled:
-- the flex and bison grammars, printing, the spelling of paths, and
-- parseAndExecute around the interpreter. In silent mode handleFatalError returns to its caller; what
-- the callers then do is modelled where they can be reached.
pub mod Ast
pub mod Base
pub mod Cli
pub mod Condition
pub mod Context
pub mod Csv
pub mod Delete
pub mod Fixtures
pub mod Handlers
pub mod Interpreter
pub mod Marking
pub mod Messages
pub mod Normalizer
pub mod Select
pub mod Status
pub mod Storage
pub mod Strategy
pub mod Stream
pub mod Update
pub mod Utils
pub mod Validator
