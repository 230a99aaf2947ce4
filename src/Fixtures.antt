-- ===== src/Fixtures.antt =====
-- A small table that the tests share: users (id PRIMARY KEY, name NOT NULL, age DEFAULT 18).
pub mod Session
use bsc_thesis.Base.{ℕ, false, List, [], ◌∷◌, some, Text, codes, replicate, refl, arith}
use bsc_thesis.Ast.{LiteralType, LiteralNode, ComparatorType, WhereNode, InsertNode}
use bsc_thesis.Utils.Columns.{Schema}
use bsc_thesis.Base.{All}
use bsc_thesis.Condition.{evaluate, evaluate_comparator}
use bsc_thesis.Condition.Integers.{integers}
use bsc_thesis.Storage.Scan.Select.{Decided, decide, meets}
use bsc_thesis.Stream.Bytes.{le_bytes}
use bsc_thesis.Storage.{
  TableRecord, IsRecord, write_header, write_column_offset, write_column_offsets, write_string,
  write_strings, record_body, record_bytes, records_bytes, table_file,
}
use bsc_thesis.Storage.Table.{IsTable}
use bsc_thesis.Context.{ExecutionContext}

abbrev pub users_schema : Schema
users_schema =
    record { name = codes "id"; modifiers = codes "PRIMARY KEY" ∷ [] }
    ∷ record { name = codes "name"; modifiers = codes "NOT NULL" ∷ [] }
    ∷ record { name = codes "age"; modifiers = codes "DEFAULT 18" ∷ [] }
    ∷ []

abbrev pub users_colcodes : List (Text × ℕ)
users_colcodes = (codes "id", 0) ∷ (codes "name", 1) ∷ (codes "age", 2) ∷ []

-- The record of a user in the file.
abbrev pub user : ℕ → Text → Text → Text → ℕ → TableRecord
user type id name age second_offset = record {
  record_type = type;
  column_offset_map =
      record { offset = 0; col_id = 1; padding = replicate 7 0 }
      ∷ record { offset = second_offset; col_id = 2; padding = replicate 7 0 }
      ∷ [];
  primary_key = id;
  payload = name ∷ age ∷ [];
}

-- Ann is live, Bob deleted, Cy live.
abbrev pub users : List TableRecord
users =
    user 0 (codes "1") (codes "Ann") (codes "30") 11
    ∷ user 1 (codes "2") (codes "Bob") (codes "41") 11
    ∷ user 2 (codes "3") (codes "Cy") (codes "41") 10
    ∷ []

abbrev pub number_literal : Text → LiteralNode
number_literal t = record { type = LiteralType.number; value = t }

abbrev pub string_literal : Text → LiteralNode
string_literal t = record { type = LiteralType.string; value = t }

-- (4, 'Di', 22)
abbrev pub new_user : List LiteralNode
new_user =
    number_literal (codes "4") ∷ string_literal (codes "'Di'") ∷ number_literal (codes "22") ∷ []

-- WHERE age = 41
abbrev pub aged_41 : WhereNode
aged_41 = record {
  condition = record {
    col_name = codes "age";
    cmp = ComparatorType.eq;
    literal_value = number_literal (codes "41");
    schema_index = 2;
  };
  others = [];
}

-- The comparison with 41 throws on no user.
pub users-Decided : All (Decided integers (some aged_41)) users
unfolding meets decide evaluate_comparator evaluate
users-Decided = ((λ _. refl), ((λ _. refl), ((λ _. refl), tt)))

pub users-IsTable : IsTable 2 users
unfolding table_file write_header records_bytes record_bytes record_body write_column_offsets
    write_column_offset write_strings write_string le_bytes
users-IsTable = record { shapes = (first, (second, (third, tt))); size = omega arith }
  where
    first : IsRecord 2 (user 0 (codes "1") (codes "Ann") (codes "30") 11)
    first = record {
      offsets_count = refl;
      paddings = (refl, (refl, tt));
      payload_count = refl;
      body_length = omega arith;
    }

    second : IsRecord 2 (user 1 (codes "2") (codes "Bob") (codes "41") 11)
    second = record {
      offsets_count = refl;
      paddings = (refl, (refl, tt));
      payload_count = refl;
      body_length = omega arith;
    }

    third : IsRecord 2 (user 2 (codes "3") (codes "Cy") (codes "41") 10)
    third = record {
      offsets_count = refl;
      paddings = (refl, (refl, tt));
      payload_count = refl;
      body_length = omega arith;
    }

-- A session that knows the users table.
abbrev pub session : ExecutionContext
session = record {
  untyped_tables = (codes "users", users_schema) ∷ [];
  table_colcodes = (codes "users", users_colcodes) ∷ [];
  indices = (codes "users", (codes "id", (codes "1", 40) ∷ (codes "3", 182) ∷ []) ∷ []) ∷ [];
  delete_counter_per_table = (codes "users", 0) ∷ [];
}

-- INSERT INTO users (name, id) VALUES ('Di', 4)
abbrev pub partial_insert : InsertNode
partial_insert = record {
  table_name = codes "users";
  columns = some (codes "name" ∷ codes "id" ∷ []);
  records =
      record {
        values = some (string_literal (codes "'Di'")) ∷ some (number_literal (codes "4")) ∷ [];
      }
      ∷ [];
  projection_mask = [];
  is_normalized = false;
}

-- INSERT INTO users (id, nick) VALUES (4)
abbrev pub unknown_column_insert : InsertNode
unknown_column_insert = record partial_insert {
  columns = some (codes "id" ∷ codes "nick" ∷ []);
  records = record { values = some (number_literal (codes "4")) ∷ [] } ∷ [];
}

-- WHERE id = 3
abbrev pub with_id_3 : WhereNode
with_id_3 = record {
  condition = record {
    col_name = codes "id";
    cmp = ComparatorType.eq;
    literal_value = number_literal (codes "3");
    schema_index = 0;
  };
  others = [];
}
