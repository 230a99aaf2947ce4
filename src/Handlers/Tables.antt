-- ===== src/Handlers/Tables.antt =====
-- DBEngine/filehandler/handlers/create_untyped.cpp and drop.cpp.
use bsc_thesis.Base.{
  ℕ, Bool, List, [], ◌∷◌, ◌++◌, Option, none, some, Text, lookup, map_set, map_erase,
}
use bsc_thesis.Status.{
  ErrorCode, Outcome, done, ◌>>=◌, ◌>>◌, handle_fatal_error,
  table_metadata_directory_does_not_exist,
}
use bsc_thesis.Ast.{UntypedColumnDefNode, CreateUntypedTableNode, DropTableNode}
use bsc_thesis.Utils.Columns.{Schema}
use bsc_thesis.Context.{
  recalculate_indices, set_untyped_table, initialize_column_encoding_map, erase_indices_for_table,
  erase_table,
}
use bsc_thesis.Handlers.{World, ensure_table_file_exists, table_bytes}

-- dropTable. Where the fatal error returns, so does the handler. The colcodes and the delete counter of
-- the table stay.
unfoldable pub drop_table : Bool → DropTableNode → World → Outcome World
drop_table is_silent_mode node w =
    elim (lookup node.table_name w.disk.metadata) as (λ _. Outcome World) [
      | none ↦ handle_fatal_error is_silent_mode table_metadata_directory_does_not_exist >> done w
      | some _ ↦ done (record {
        ctx = erase_table (erase_indices_for_table w.ctx node.table_name) node.table_name;
        disk = record {
          tables = map_erase node.table_name w.disk.tables;
          leftovers = map_erase node.table_name w.disk.leftovers;
          metadata = map_erase node.table_name w.disk.metadata;
        };
      })
    ]

-- The text of the metadata file: a line for each column.
abbrev pub line_feed : ℕ
line_feed = 10

unfoldable pub modifiers_text : List Text → Text
modifiers_text [] = []
modifiers_text (modifier ∷ modifiers) = elim modifiers as (λ _. Text) [
  | [] ↦ modifier
  | _ ∷ _ ↦ modifier ++ (44 ∷ modifiers_text modifiers)
]

unfoldable pub column_line : UntypedColumnDefNode → Text
column_line col =
    col.name
    ++ ((elim col.modifiers as (λ _. Text) [ [] ↦ [] | _ ∷ _ ↦ 32 ∷ [] ])
        ++ (modifiers_text col.modifiers ++ (line_feed ∷ [])))

unfoldable pub metadata_text : Schema → Text
metadata_text [] = []
metadata_text (col ∷ cols) = column_line col ++ metadata_text cols

-- createUntypedTable where the table does not exist yet.
unfoldable pub create_new_table : Bool → CreateUntypedTableNode → World → Outcome World
create_new_table is_silent_mode node w =
    let disk = ensure_table_file_exists node.table_name w.disk in
    initialize_column_encoding_map is_silent_mode
      (set_untyped_table w.ctx node.table_name node.columns) node.table_name
    >>= λ ctx1.
        recalculate_indices is_silent_mode ctx1 node.table_name (table_bytes node.table_name disk)
        >>= λ ctx2. done (record {
          ctx = ctx2;
          disk = record disk {
            metadata = map_set node.table_name (metadata_text node.columns) disk.metadata;
          };
        })

-- createUntypedTable: the error that it prints where the table exists, or the world that it leaves.
unfoldable pub create_untyped_table :
    Bool → CreateUntypedTableNode → World → Outcome (Option ErrorCode × World)
create_untyped_table is_silent_mode node w =
    let created = create_new_table is_silent_mode node w >>= λ w'. done (none, w') in
    elim (lookup node.table_name w.ctx.untyped_tables)
      as (λ _. Outcome (Option ErrorCode × World)) [
        | some _ ↦ done (some ErrorCode.create_table_already_exists, w)
        | none ↦ created
      ]
