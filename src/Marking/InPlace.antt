-- ===== src/Marking/InPlace.antt =====
-- Marking records in place (deserializeNextRecordAndMarkAsTombstone) on a well-formed table file.
use bsc_thesis.Base.{
  ℕ, ◌+◌, ◌^◌, ◌<◌, ◌≡◌, refl, sym, ap, ap₂, ◌∙◌, true, false, List, [], ◌∷◌, ◌++◌, Option, length,
  drop, arith, length-append, append_assoc, replicate, drop-length_append, ltb,
}
use bsc_thesis.Status.{done}
use bsc_thesis.Ast.{WhereNode}
use bsc_thesis.Utils.Columns.{Schema}
use bsc_thesis.Condition.{Doubles}
use bsc_thesis.Stream.{overwrite}
use bsc_thesis.Stream.Reading.{good, seek_beg_lem, overwrite_byte}
use bsc_thesis.Storage.{
  is_tombstone, type_byte, delete, tombstone, live, skip, TableRecord, write_u64, record_body,
  record_bytes, IsRecord,
}
use bsc_thesis.Storage.Layout.{
  record_head_alive, record_head_dead, record_tail, length-record_bytes, length-write_u64,
}
use bsc_thesis.Storage.Reads.{project, stored_values, columns_alive}
use bsc_thesis.Storage.Scan.Select.{Decided, meets, checked-decide}
use bsc_thesis.Marking.{mark_next_record}

-- A record with its type byte overwritten.
abbrev pub killed : TableRecord → TableRecord
killed r = record r { record_type = type_byte delete }

pub killed_bytes :
    (before rest : List ℕ) (r : TableRecord)
    → overwrite
        (type_byte delete ∷ [])
        (good (before ++ (record_bytes r ++ rest)) (length before + 8))
      ≡ good (before ++ (record_bytes (killed r) ++ rest)) (length before + 9)
unfolding record_bytes record_body
killed_bytes before rest r =
    let size = write_u64 (length (record_body r)) in
    let shape : (t : ℕ)
        → before ++ ((size ++ (t ∷ record_tail r)) ++ rest)
          ≡ (before ++ size) ++ (t ∷ (record_tail r ++ rest)) =
      λ t.
        ap (λ u. before ++ u) (append_assoc size (t ∷ record_tail r) rest)
        ∙ sym (append_assoc before size _) in
    let start : length (before ++ size) ≡ length before + 8 =
      length-append before size
      ∙ ap (λ k. length before + k) (length-write_u64 (length (record_body r))) in
    ap (λ f. overwrite (1 ∷ []) (good f (length before + 8))) (shape r.record_type)
    ∙ (ap
          (λ q.
            overwrite (1 ∷ [])
              (good ((before ++ size) ++ (r.record_type ∷ (record_tail r ++ rest))) q))
          (sym start)
        ∙ (overwrite_byte (before ++ size) r.record_type 1 (record_tail r ++ rest)
            ∙ ap₂ good (sym (shape 1)) (omega (arith, start))))

-- One call on a record, where `before` are the bytes in front of it.
module _ (before : List ℕ) (n : ℕ) (r : TableRecord) (rest : List ℕ)
    (fits : length before + 8 + length (record_body r) < 2 ^ 63) (doubles : Doubles)
    (schema : Schema) (clause : Option WhereNode) where
  abbrev file : List ℕ
  file = before ++ (record_bytes r ++ rest)

  ahead : drop (length before) file ≡ record_bytes r ++ rest
  ahead = drop-length_append before (record_bytes r ++ rest)

  pub mark_dead :
      is_tombstone r.record_type ≡ true
      → mark_next_record doubles (good file (length before)) schema clause
        ≡ done (tombstone, [], good file (length before + 8 + length (record_body r)))
  unfolding mark_next_record
  mark_dead dies =
      rw (record_head_dead file (length before) r rest fits dies ahead, mark_next_record)

  module _ (shape : IsRecord n r) (lives : is_tombstone r.record_type ≡ false)
      (columns : length schema ≡ n + 1) (decided : Decided doubles clause r) where
    pub mark_skipped :
        meets doubles clause (stored_values r) ≡ false
        → mark_next_record doubles (good file (length before)) schema clause
          ≡ done (
            skip,
            project (replicate (length schema) true) 0 (stored_values r),
            good file (length before + 8 + length (record_body r)),
          )
    unfolding mark_next_record
    mark_skipped fails =
        let whole =
          columns_alive file (length before) n r rest ahead fits shape lives doubles schema
            (replicate (length schema) true) clause columns in
        rw
          (
            record_head_alive file (length before) r rest (omega arith) lives ahead,
            mark_next_record,
            whole,
            checked-decide doubles clause (stored_values r),
            decided lives,
            fails,
          )
          refl

    pub mark_live :
        meets doubles clause (stored_values r) ≡ true
        → mark_next_record doubles (good file (length before)) schema clause
          ≡ done (
            live,
            project (replicate (length schema) true) 0 (stored_values r),
            good
                (before ++ (record_bytes (killed r) ++ rest))
                (length before + 8 + length (record_body r)),
          )
    unfolding mark_next_record
    mark_live holds =
        let whole =
          columns_alive file (length before) n r rest ahead fits shape lives doubles schema
            (replicate (length schema) true) clause columns in
        let back =
          seek_beg_lem file (length before + 8 + length (record_body r)) (length before + 8)
            (omega arith) in
        let short : ltb (length (record_body r)) (2 ^ 63) ≡ true = ground arith in
        let on =
          seek_beg_lem (before ++ (record_bytes (killed r) ++ rest)) (length before + 9)
            (length before + 8 + length (record_body r)) fits in
        rw
          (
            record_head_alive file (length before) r rest (omega arith) lives ahead,
            mark_next_record,
            whole,
            checked-decide doubles clause (stored_values r),
            decided lives,
            holds,
            back,
            killed_bytes before rest r,
            short,
            on,
          )
          refl

pub length-killed : (r : TableRecord) → length (record_body (killed r)) ≡ length (record_body r)
unfolding record_body
length-killed r = refl

-- The stream behind a record, as one in front of the next.
pub stream_behind :
    (before rest : List ℕ) (r : TableRecord) (size : ℕ)
    → size ≡ length (record_body r)
    → good (before ++ (record_bytes r ++ rest)) (length before + 8 + size)
      ≡ good ((before ++ record_bytes r) ++ rest) (length (before ++ record_bytes r))
stream_behind before rest r size e =
    ap₂ good (sym (append_assoc before (record_bytes r) rest))
      (omega (arith, e, length-append before (record_bytes r), length-record_bytes r))
