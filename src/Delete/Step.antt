-- ===== src/Delete/Step.antt =====
-- One call of performSequentialDelete (DBEngine/filehandler/handlers/delete.cpp) on a well-formed record.
use bsc_thesis.Base.{
  ℕ, ◌+◌, ◌^◌, ◌<◌, ◌≡◌, refl, ap, Bool, true, false, List, ◌++◌, Option, none, some, Text, length,
  arith, drop, if◌then◌else◌, drop-length_append,
}
use bsc_thesis.Status.{done}
use bsc_thesis.Ast.{WhereNode}
use bsc_thesis.Condition.{Doubles, evaluate_comparator}
use bsc_thesis.Stream.Reading.{good, seek_beg_lem}
use bsc_thesis.Storage.{
  tombstone, live, skip, is_tombstone, TableRecord, record_body, record_bytes, IsRecord,
}
use bsc_thesis.Storage.Layout.{record_head_alive, record_head_dead}
use bsc_thesis.Storage.Reads.{stored_values}
use bsc_thesis.Storage.Scan.Select.{meets, decide, Decided}
use bsc_thesis.Context.{ExecutionContext}
use bsc_thesis.Marking.{record_end}
use bsc_thesis.Marking.InPlace.{killed, killed_bytes}
use bsc_thesis.Delete.{mark_record, delete_live, perform_sequential_delete}
use bsc_thesis.Delete.Literals.{IsPlaced, Knows, compared_literal_lem}

-- What the scan needs to find the clause's column: nothing without a clause.
abbrev pub Found : ExecutionContext → Text → Text → ℕ → ℕ → Option WhereNode → TableRecord → Type 0
Found ctx table_name primary_key colcode n none r = Unit
Found ctx table_name primary_key colcode n (some clause) r =
    Knows ctx table_name clause.condition.col_name primary_key colcode n
    × IsPlaced clause primary_key colcode r

-- One call on a record, where `before` are the bytes in front of it.
module _ (before : List ℕ) (n : ℕ) (r : TableRecord) (rest : List ℕ)
    (fits : length before + 8 + length (record_body r) < 2 ^ 63) (doubles : Doubles)
    (is_silent_mode : Bool) (ctx : ExecutionContext) (table_name : Text) where
  abbrev file : List ℕ
  file = before ++ (record_bytes r ++ rest)

  abbrev next : ℕ
  next = length before + 8 + length (record_body r)

  ahead : drop (length before) file ≡ record_bytes r ++ rest
  ahead = drop-length_append before (record_bytes r ++ rest)

  pub delete_dead :
      (clause : Option WhereNode)
      → is_tombstone r.record_type ≡ true
      → perform_sequential_delete doubles is_silent_mode ctx table_name clause
          (good file (length before))
        ≡ done (tombstone, good file next)
  unfolding perform_sequential_delete
  delete_dead clause dies =
      rw (record_head_dead file (length before) r rest fits dies ahead, perform_sequential_delete)
        refl

  record_end_lem : record_end (length before + 8) (length (record_body r)) ≡ next
  record_end_lem = ground arith

  mark_record_lem :
      (q : ℕ)
      → mark_record (length before + 8) (length (record_body r)) (good file q)
        ≡ good (before ++ (record_bytes (killed r) ++ rest)) next
  mark_record_lem q =
      rw
        (
          seek_beg_lem file q (length before + 8) (omega arith),
          killed_bytes before rest r,
          record_end_lem,
        )
        (seek_beg_lem (before ++ (record_bytes (killed r) ++ rest)) (length before + 9) next fits)

  module _ (shape : IsRecord n r) (lives : is_tombstone r.record_type ≡ false) (primary_key : Text)
      (colcode : ℕ) where
    pub delete_alive :
        (clause : Option WhereNode)
        → Found ctx table_name primary_key colcode n clause r
        → Decided doubles clause r
        → perform_sequential_delete doubles is_silent_mode ctx table_name clause
            (good file (length before))
          ≡ (if meets doubles clause (stored_values r)
              then done (live, good (before ++ (record_bytes (killed r) ++ rest)) next)
              else done (skip, good file next))
    unfolding perform_sequential_delete delete_live
    delete_alive none found decided =
        unfold meets decide in
        rw
          (
            record_head_alive file (length before) r rest (omega arith) lives ahead,
            perform_sequential_delete,
          )
          (ap (λ s. done (live, s)) (mark_record_lem (length before + 9)))
    delete_alive (some clause) (known, placed) decided =
        let (value, q, at_index, literal) =
          compared_literal_lem is_silent_mode ctx table_name clause primary_key colcode file
            (length before) n r rest known placed ahead fits shape lives in
        let compares : evaluate_comparator doubles value clause.condition.cmp
              clause.condition.literal_value
            ≡ done (meets doubles (some clause) (stored_values r)) =
          unfold decide in rw at_index at decided lives in
        rw
          (
            record_head_alive file (length before) r rest (omega arith) lives ahead,
            perform_sequential_delete,
            literal,
            mark_record_lem q,
            record_end_lem,
            seek_beg_lem file q next fits,
            compares,
          )
          refl
