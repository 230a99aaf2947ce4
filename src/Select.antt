-- ===== src/Select.antt =====
-- selectData of DBEngine/filehandler/handlers/select.cpp, with both of its branches.
pub mod Indexed
mod Samples
use bsc_thesis.Base.{
  ℕ, ◌+◌, ◌*◌, Bool, true, false, List, [], ◌∷◌, Option, none, some, Text, ◌==◌, if◌then◌else◌,
  take, lookup,
}
use bsc_thesis.Status.{Outcome, done, undefined, ◌>>=◌}
use bsc_thesis.Ast.{WhereNode}
use bsc_thesis.Utils.Strings.{remove_outer_quotes}
use bsc_thesis.Utils.Columns.{Schema, extract_primary_key_column}
use bsc_thesis.Condition.{Doubles}
use bsc_thesis.Strategy.{is_unique_equality_lookup}
use bsc_thesis.Stream.{Stream, open_stream, seek_beg}
use bsc_thesis.Stream.Bytes.{le_value}
use bsc_thesis.Storage.{u64_sub, db_header}
use bsc_thesis.Storage.Deserializer.{deserialize_next_record}
use bsc_thesis.Storage.Scan.{is_live, check_file_validity, select_loop}
use bsc_thesis.Storage.Table.{scan_fuel}
use bsc_thesis.Context.{ExecutionContext, at_key, index_at}

module _ (doubles : Doubles) where
  -- The indexed branch: the offset of the index stands behind the 8 bytes of the record's size.
  unfoldable pub select_at :
      ℕ → Stream → Schema → List Bool → Option WhereNode → Outcome (List (List Text))
  select_at offset s schema mask clause =
      deserialize_next_record doubles (seek_beg (u64_sub offset 8) s) schema mask clause
      >>= λ (indicator, row, s'). done (if is_live indicator then row ∷ [] else [])

  -- The two branches, on a table file that is open behind its header.
  unfoldable pub select_by :
      Bool
      → ExecutionContext
      → Text
      → Schema
      → List Bool
      → WhereNode
      → ℕ
      → Stream
      → Outcome (List (List Text))
  select_by true ctx table_name schema mask clause fuel s =
      index_at ctx table_name clause.condition.col_name >>= λ index.
      at_key (remove_outer_quotes clause.condition.literal_value.value) index >>= λ offset.
      select_at offset s schema mask (some clause)
  select_by false ctx table_name schema mask clause fuel s =
      select_loop doubles fuel s schema mask (some clause) []

  -- The choice between them; without a clause there is no lookup.
  unfoldable pub select_branches :
      ExecutionContext
      → Text
      → Schema
      → List Bool
      → Option WhereNode
      → ℕ
      → Stream
      → Outcome (List (List Text))
  select_branches ctx table_name schema mask none fuel s =
      extract_primary_key_column schema >>= λ primary_key_column.
      select_loop doubles fuel s schema mask none []
  select_branches ctx table_name schema mask (some clause) fuel s =
      extract_primary_key_column schema >>= λ primary_key_column.
      select_by (is_unique_equality_lookup (some clause) primary_key_column) ctx table_name schema
        mask clause fuel s

  -- selectData on the bytes of the table file. The header check closes a file of another format, and
  -- where it returns after that, in silent mode, the result is empty.
  unfoldable pub select_data :
      Bool
      → ExecutionContext
      → Text
      → List Bool
      → Option WhereNode
      → List ℕ
      → Outcome (List (List Text))
  select_data is_silent_mode ctx table_name mask clause file =
      at_key table_name ctx.untyped_tables >>= λ schema.
      check_file_validity is_silent_mode (open_stream file) >>= λ s.
      if le_value (take 8 file) == db_header.magic
      then select_branches ctx table_name schema mask clause (scan_fuel file) s
      else done []
