-- ===== src/Context/Metadata.antt =====
-- initializeUntypedTableMetadata of DBEngine/execution_context/src/initializers.cpp: the schemas that are
-- read back from the metadata files which createUntypedTable wrote.
pub mod RoundTrip
mod Samples
use bsc_thesis.Base.{
  ℕ, ◌+◌, ◌<◌, ◌≡◌, refl, sym, ap, ap₂, ◌∙◌, Bool, true, false, List, [], ◌∷◌, ◌++◌, Option, none,
  some, Text, ◌==◌, length, All, arith, append_assoc, append-nil, map, map_set, if◌then◌else◌,
  Bool-cases, inl, inr,
}
use bsc_thesis.Status.{
  Outcome, done, ◌>>=◌, ◌>>◌, handle_fatal_error, metadata_directory_does_not_exist,
}
use bsc_thesis.Ast.{UntypedColumnDefNode}
use bsc_thesis.Utils.Columns.{Schema}
use bsc_thesis.Cli.{is_space}
use bsc_thesis.Context.{ExecutionContext}
use bsc_thesis.Handlers.Tables.{line_feed, modifiers_text, column_line, metadata_text}

-- What std::getline with this delimiter gives until the end of a text; a delimiter at the end starts no
-- other piece.
unfoldable pub pieces : ℕ → Text → List Text
pieces delimiter [] = []
pieces delimiter (c ∷ t) =
    let rest = pieces delimiter t in
    if c == delimiter then [] ∷ rest else (elim rest as (λ _. List Text) [
      | [] ↦ (c ∷ []) ∷ []
      | piece ∷ others ↦ (c ∷ piece) ∷ others
    ])

-- iss >> colName: white space is skipped, and the name ends before the next.
unfoldable pub skip_space : Text → Text
skip_space [] = []
skip_space (c ∷ t) = let rest = skip_space t in if is_space c then rest else c ∷ t

unfoldable pub first_word : Text → Text × Text
first_word [] = ([], [])
first_word (c ∷ t) =
    let rest = first_word t in if is_space c then ([], c ∷ t) else (c ∷ rest.0, rest.1)

-- `if (!mod.empty()) modifiers.push_back(mod)`
unfoldable pub non_empty : List Text → List Text
non_empty [] = []
non_empty ([] ∷ ts) = non_empty ts
non_empty ((c ∷ t) ∷ ts) = (c ∷ t) ∷ non_empty ts

-- One line of the metadata file.
unfoldable pub read_column : Text → UntypedColumnDefNode
read_column line =
    let (col_name, modifiers_part) = first_word (skip_space line) in
    record { name = col_name; modifiers = non_empty (pieces 44 modifiers_part) }

unfoldable pub read_schema : Text → Schema
read_schema text = map read_column (pieces line_feed text)

-- The loop over the directories, each with its metadata.txt.
unfoldable pub read_tables : List (Text × Text) → ExecutionContext → ExecutionContext
read_tables [] ctx = ctx
read_tables ((table_name, text) ∷ tables) ctx =
    read_tables tables
      (record ctx { untyped_tables = map_set table_name (read_schema text) ctx.untyped_tables })

-- initializeUntypedTableMetadata, where the metadata directory is there or not.
unfoldable pub initialize_untyped_table_metadata :
    Bool → Option (List (Text × Text)) → ExecutionContext → Outcome ExecutionContext
initialize_untyped_table_metadata is_silent_mode none ctx =
    handle_fatal_error is_silent_mode metadata_directory_does_not_exist >> done ctx
initialize_untyped_table_metadata is_silent_mode (some tables) ctx = done (read_tables tables ctx)
