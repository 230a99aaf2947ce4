-- ===== src/Context/Metadata/Samples.antt =====
-- The metadata of a table with a column `id PRIMARY KEY,NOT NULL` and a column `age`.
use bsc_thesis.Base.{◌≡◌, refl, [], ◌∷◌, codes, map, arith}
use bsc_thesis.Utils.Columns.{Schema}
use bsc_thesis.Cli.{is_space}
use bsc_thesis.Handlers.Tables.{metadata_text}
use bsc_thesis.Context.Metadata.{read_schema}
use bsc_thesis.Context.Metadata.RoundTrip.{IsModifier, IsColumn, reread, metadata_round_trip}

abbrev people : Schema
people =
    record { name = codes "id"; modifiers = codes "PRIMARY KEY" ∷ codes "NOT NULL" ∷ [] }
    ∷ record { name = codes "age"; modifiers = [] }
    ∷ []

metadata_round_trip_example : read_schema (metadata_text people) ≡ map reread people
unfolding is_space
metadata_round_trip_example = metadata_round_trip people (id, (age, tt))
  where
    primary_key : IsModifier (codes "PRIMARY KEY")
    primary_key = record {
      some_text = omega arith;
      no_comma = (
        refl,
        (refl, (refl, (refl, (refl, (refl, (refl, (refl, (refl, (refl, (refl, tt)))))))))),
      );
      no_line_feed = (
        refl,
        (refl, (refl, (refl, (refl, (refl, (refl, (refl, (refl, (refl, (refl, tt)))))))))),
      );
    }

    not_null : IsModifier (codes "NOT NULL")
    not_null = record {
      some_text = omega arith;
      no_comma = (refl, (refl, (refl, (refl, (refl, (refl, (refl, (refl, tt))))))));
      no_line_feed = (refl, (refl, (refl, (refl, (refl, (refl, (refl, (refl, tt))))))));
    }

    id :
        IsColumn
          (record { name = codes "id"; modifiers = codes "PRIMARY KEY" ∷ codes "NOT NULL" ∷ [] })
    id = record {
      named = omega arith;
      no_space = (refl, (refl, tt));
      modifiers = (primary_key, (not_null, tt));
    }

    age : IsColumn (record { name = codes "age"; modifiers = [] })
    age = record { named = omega arith; no_space = (refl, (refl, (refl, tt))); modifiers = tt }
