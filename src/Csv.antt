-- ===== src/Csv.antt =====
-- DBEngine/filehandler/handlers/csv-import.cpp: one row of a CSV file.
pub mod RoundTrip
mod Samples
use bsc_thesis.Base.{ℕ, Bool, true, false, not, ◌&&◌, List, [], ◌∷◌, ◌++◌, Text, ◌==◌}

abbrev pub quote : ℕ
quote = 34

abbrev pub comma : ℕ
comma = 44

-- The loop of parseCsvRow, with `current` and `in_quotes`; the fields pushed from here on.
unfoldable pub parse_loop : Text → Text → Bool → List Text
parse_loop [] current in_quotes = current ∷ []
parse_loop (c ∷ row) current in_quotes = elim (c == quote) [
  | true ↦ parse_loop row current (not in_quotes)
  | false ↦ elim (c == comma && not in_quotes) [
    | true ↦ current ∷ parse_loop row [] in_quotes
    | false ↦ parse_loop row (current ++ (c ∷ [])) in_quotes
  ]
]

-- parseCsvRow
unfoldable pub parse_csv_row : Text → List Text
parse_csv_row row = parse_loop row [] false
