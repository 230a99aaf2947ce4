-- ===== src/Csv/Samples.antt =====
-- A row with a comma inside a field and an empty field.
use bsc_thesis.Base.{◌≡◌, refl, [], ◌∷◌, codes}
use bsc_thesis.Csv.{parse_csv_row}
use bsc_thesis.Csv.RoundTrip.{quoted_row, quoted_row-parses}

quoted_row-parses_example :
    parse_csv_row (quoted_row (codes "a,b") (codes "" ∷ codes "c" ∷ []))
    ≡ codes "a,b" ∷ codes "" ∷ codes "c" ∷ []
quoted_row-parses_example =
    quoted_row-parses (codes "a,b") (codes "" ∷ codes "c" ∷ []) (refl, (refl, (refl, tt)))
      (tt, ((refl, tt), tt))
