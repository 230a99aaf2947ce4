-- ===== src/Csv/RoundTrip.antt =====
-- parseCsvRow (DBEngine/filehandler/handlers/csv-import.cpp) on rows of quoted fields.
use bsc_thesis.Base.{
  ℕ, ◌≡◌, refl, ap, ◌∙◌, true, false, List, [], ◌∷◌, ◌++◌, Text, All, ◌==◌, append-nil,
  append_assoc, Bool-cases, inl, inr,
}
use bsc_thesis.Csv.{quote, comma, parse_loop, parse_csv_row}

-- A field that has no quote of its own.
abbrev pub IsUnquoted : Text → Type 0
IsUnquoted field = All (λ (c : ℕ). (c == quote) ≡ false) field

-- A row as a writer prints it that puts every field in quotes: the first field and the others.
unfoldable pub quoted_row : Text → List Text → Text
quoted_row field [] = quote ∷ (field ++ (quote ∷ []))
quoted_row field (next ∷ fields) = quote ∷ (field ++ (quote ∷ (comma ∷ quoted_row next fields)))

parse_quoted :
    (field rest current : Text)
    → IsUnquoted field
    → parse_loop (field ++ (quote ∷ rest)) current true ≡ parse_loop rest (current ++ field) false
unfolding parse_loop
parse_quoted [] rest current plain = rw (append-nil current) refl
parse_quoted (c ∷ field) rest current plain =
    let ih =
      parse_quoted field rest (current ++ (c ∷ [])) plain.1
      ∙ ap (λ t. parse_loop rest t false) (append_assoc current (c ∷ []) field) in
    elim (Bool-cases (c == comma)) [
      | inl e ↦ rw (plain.0, parse_loop, e) ih
      | inr e ↦ rw (plain.0, parse_loop, e) ih
    ]

-- A row of quoted fields, none of which holds a quote, is parsed back into its fields, commas
-- inside them included.
pub quoted_row-parses :
    (field : Text) (fields : List Text)
    → IsUnquoted field
    → All IsUnquoted fields
    → parse_csv_row (quoted_row field fields) ≡ field ∷ fields
unfolding parse_csv_row quoted_row parse_loop
quoted_row-parses field [] plain all_plain = parse_quoted field [] [] plain
quoted_row-parses field (next ∷ fields) plain all_plain =
    parse_quoted field (comma ∷ quoted_row next fields) [] plain
    ∙ ap (λ t. field ∷ t) (quoted_row-parses next fields all_plain.0 all_plain.1)
