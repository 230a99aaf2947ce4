-- ===== src/Marking/Samples.antt =====
-- The users over 40 marked: Cy's record is, Bob's was deleted before.
use bsc_thesis.Base.{
  ◌+◌, ◌≡◌, refl, true, false, List, [], ◌∷◌, Text, some, codes, text_eq, length, lookup, replicate,
  arith,
}
use bsc_thesis.Status.{done}
use bsc_thesis.Condition.Integers.{integers}
use bsc_thesis.Storage.{TableRecord, table_file}
use bsc_thesis.Storage.Table.{IsTable, select_table}
use bsc_thesis.Marking.Effects.{marking_then_select}
use bsc_thesis.Storage.Scan.Select.{select_rows}
use bsc_thesis.Context.{ExecutionContext}
use bsc_thesis.Fixtures.{users_schema, users, users-IsTable, users-Decided, session, aged_41}
use bsc_thesis.Marking.{mark_table}
use bsc_thesis.Marking.WholeFile.{marked_records, mark_table_lem}

mark_table_lem_example :
    (ctx' : ExecutionContext) × (mark_table integers false
        (codes "users")
        users_schema
        (some aged_41)
        session
        (table_file users)
      ≡ done (
        ctx',
        table_file (marked_records integers (some aged_41) users),
        select_rows integers (replicate 3 true) (some aged_41) users,
      ))
    × (lookup (codes "users") ctx'.delete_counter_per_table
        ≡ some (0 + length (select_rows integers (replicate 3 true) (some aged_41) users)))
unfolding lookup text_eq
mark_table_lem_example =
    mark_table_lem 2 integers false (codes "users") users_schema (some aged_41) users session 0 refl
      users-IsTable users-Decided refl (omega arith)

marking_then_select_example :
    (ctx' : ExecutionContext) × (rs' : List TableRecord) × (old_records : List (List Text))
    × (mark_table integers false
          (codes "users")
          users_schema
          (some aged_41)
          session
          (table_file users)
        ≡ done (ctx', table_file rs', old_records))
    × IsTable 2 rs'
    × (length (table_file rs') ≡ length (table_file users))
    × (select_table integers false
          (table_file rs')
          users_schema
          (false ∷ true ∷ false ∷ [])
          (some aged_41)
        ≡ done [])
unfolding lookup text_eq
marking_then_select_example =
    marking_then_select 2 integers false (codes "users") users_schema (some aged_41) users session 0
      (false ∷ true ∷ false ∷ []) refl users-IsTable users-Decided refl (omega arith)
