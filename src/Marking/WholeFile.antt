-- ===== src/Marking/WholeFile.antt =====
-- The loop of updateData (DBEngine/filehandler/handlers/update.cpp) on a well-formed table file.
use bsc_thesis.Base.{
  ℕ, zero, suc, ◌+◌, ◌^◌, ◌<◌, ◌≡◌, refl, sym, ap, ap₂, ◌∙◌, Bool, true, not, ◌&&◌, List, [], ◌∷◌,
  ◌++◌, Option, some, Text, length, All, arith, length-append, append-nil, append_assoc,
  if◌then◌else◌, Bool-cases, inl, inr, replicate, lookup, lookup-map_set, text_eq_refl,
  drop-length_append,
}
use bsc_thesis.Status.{Outcome, done}
use bsc_thesis.Ast.{WhereNode}
use bsc_thesis.Utils.Columns.{Schema}
use bsc_thesis.Condition.{Doubles}
use bsc_thesis.Stream.Reading.{good, bad}
use bsc_thesis.Storage.{
  u64, is_tombstone, endoftable, TableRecord, record_body, record_bytes, records_bytes, IsRecord,
  table_file,
}
use bsc_thesis.Storage.Layout.{record_head_end, length-record_bytes}
use bsc_thesis.Storage.Reads.{project, stored_values}
use bsc_thesis.Storage.Scan.Select.{Decided, meets, select_rows}
use bsc_thesis.Stream.Bytes.{le_bytes}
use bsc_thesis.Storage.{write_header, db_header}
use bsc_thesis.Storage.Table.{
  scan_fuel, IsTable, length-table_file, check_fstream_validity_lem, enough_fuel,
}
use bsc_thesis.Context.{ExecutionContext, get_delete_count, set_delete_count}
use bsc_thesis.Marking.{mark_next_record, mark_loop, count_delete, mark_table}
use bsc_thesis.Marking.InPlace.{
  killed, length-killed, stream_behind, mark_dead, mark_skipped, mark_live,
}

-- The records of a table after the live ones that meet the clause were marked.
unfoldable pub marked_records : Doubles → Option WhereNode → List TableRecord → List TableRecord
marked_records doubles clause [] = []
marked_records doubles clause (r ∷ rs) =
    (if not (is_tombstone r.record_type) && meets doubles clause (stored_values r)
      then killed r
      else r)
    ∷ marked_records doubles clause rs

pub get_count :
    (is_silent_mode : Bool) (ctx : ExecutionContext) (table_name : Text) (c : ℕ)
    → lookup table_name ctx.delete_counter_per_table ≡ some c
    → count_delete is_silent_mode ctx table_name
      ≡ done (set_delete_count ctx table_name (u64 (c + 1)))
unfolding count_delete get_delete_count
get_count is_silent_mode ctx table_name c h = rw (h, get_delete_count) refl

pub count_after :
    (ctx : ExecutionContext) (table_name : Text) (c : ℕ)
    → c + 1 < 2 ^ 64
    → lookup table_name (set_delete_count ctx table_name (u64 (c + 1))).delete_counter_per_table
      ≡ some (c + 1)
unfolding set_delete_count
count_after ctx table_name c small =
    lookup-map_set table_name table_name (u64 (c + 1)) ctx.delete_counter_per_table
    ∙ rw (text_eq_refl table_name) (ap some (omega (arith, small)))

module _ (n : ℕ) (doubles : Doubles) (is_silent_mode : Bool) (table_name : Text) (schema : Schema)
    (clause : Option WhereNode) where
  abbrev old_rows : List TableRecord → List (List Text)
  old_rows rs = select_rows doubles (replicate (length schema) true) clause rs

  -- Counting a delete changes the counters only.
  abbrev pub OnlyCounts : ExecutionContext → ExecutionContext → Type 0
  OnlyCounts ctx ctx' =
      (ctx'.untyped_tables ≡ ctx.untyped_tables)
      × (ctx'.table_colcodes ≡ ctx.table_colcodes)
      × (ctx'.indices ≡ ctx.indices)

  -- What the loop comes to from a stream between `before` and the records `rs` on.
  abbrev Marks :
      Outcome (ExecutionContext × List ℕ × List (List Text))
      → ExecutionContext
      → List ℕ
      → List TableRecord
      → List (List Text)
      → ℕ
      → Type 0
  Marks run ctx before rs out c =
      (ctx' : ExecutionContext) × (run
        ≡ done
            (ctx', before ++ records_bytes (marked_records doubles clause rs), out ++ old_rows rs))
      × (lookup table_name ctx'.delete_counter_per_table ≡ some (c + length (old_rows rs)))
      × OnlyCounts ctx ctx'

  mark_end :
      (before : List ℕ)
      → mark_next_record doubles (good (before ++ []) (length before)) schema clause
        ≡ done (endoftable, [], bad (before ++ []) (length before))
  unfolding mark_next_record
  mark_end before =
      rw
        (
          record_head_end (before ++ []) (length before) (drop-length_append before []),
          mark_next_record,
        )
        refl

  mark_loop_lem :
      length schema ≡ n + 1
      → (rs : List TableRecord) (fuel : ℕ) (before : List ℕ) (ctx : ExecutionContext)
        (out : List (List Text)) (c : ℕ)
      → All (IsRecord n) rs
      → All (Decided doubles clause) rs
      → length before + length (records_bytes rs) < 2 ^ 63
      → length rs < fuel
      → lookup table_name ctx.delete_counter_per_table ≡ some c
      → c + length rs < 2 ^ 64
      → Marks
          (mark_loop doubles is_silent_mode table_name schema clause fuel
            (good (before ++ records_bytes rs) (length before))
            ctx
            out)
          ctx
          before
          rs
          out
          c
  unfolding mark_loop records_bytes marked_records select_rows set_delete_count
  mark_loop_lem columns rs zero before ctx out c shapes decided fits enough counted small =
      absurd (omega arith)
  mark_loop_lem columns [] (suc fuel) before ctx out c shapes decided fits enough counted small = (
    ctx,
    rw (mark_end before, append-nil out) refl,
    counted ∙ ap some (omega arith),
    (refl, refl, refl),
  )
  mark_loop_lem columns (r ∷ rs) (suc fuel) before ctx out c shapes decided fits enough counted
        small =
      let sizes = length-append {0} (record_bytes r) (records_bytes rs) in
      let fits' : length before + 8 + length (record_body r) < 2 ^ 63 =
        omega (arith, sizes, length-record_bytes r) in
      let rest = records_bytes rs in
      let row = project (replicate (length schema) true) 0 (stored_values r) in
      let joined = λ (r' : TableRecord).
        append_assoc before (record_bytes r') (records_bytes (marked_records doubles clause rs)) in
      let beyond : length (before ++ record_bytes r) + length rest < 2 ^ 63 =
        omega (arith, sizes, length-append before (record_bytes r)) in
      let beyond' : length (before ++ record_bytes (killed r)) + length rest < 2 ^ 63 = omega (
        arith,
        sizes,
        length-append before (record_bytes (killed r)),
        length-record_bytes r,
        length-record_bytes (killed r),
        length-killed r,
      ) in
      let kept : Marks
          (mark_loop doubles is_silent_mode table_name schema clause fuel
            (good ((before ++ record_bytes r) ++ rest) (length (before ++ record_bytes r))) ctx out)
          ctx (before ++ record_bytes r) rs out c =
        mark_loop_lem columns rs fuel (before ++ record_bytes r) ctx out c shapes.1 decided.1 beyond
          (omega arith) counted (omega arith) in
      elim (Bool-cases (is_tombstone r.record_type)) [
        | inl dies ↦ (
          kept.0,
          rw
              (
                mark_dead before n r rest fits' doubles schema clause dies,
                dies,
                stream_behind before rest r _ refl,
              )
              (kept.1 ∙ ap (λ f. done (kept.0, f, out ++ old_rows rs)) (joined r)),
          rw dies kept.2,
          kept.3,
        )
        | inr lives ↦ elim (Bool-cases (meets doubles clause (stored_values r))) [
          | inl holds ↦
              let after : Marks
                  (mark_loop doubles is_silent_mode table_name schema clause fuel
                    (good ((before ++ record_bytes (killed r)) ++ rest)
                      (length (before ++ record_bytes (killed r))))
                    (set_delete_count ctx table_name (u64 (c + 1))) (out ++ (row ∷ [])))
                  (set_delete_count ctx table_name (u64 (c + 1)))
                  (before ++ record_bytes (killed r)) rs (out ++ (row ∷ [])) (c + 1) =
                mark_loop_lem columns rs fuel (before ++ record_bytes (killed r))
                  (set_delete_count ctx table_name (u64 (c + 1))) (out ++ (row ∷ [])) (c + 1)
                  shapes.1 decided.1 beyond' (omega arith)
                  (count_after ctx table_name c (omega (arith, small))) (omega arith) in
              (
                after.0,
                rw
                    (
                      mark_live before n r rest fits' doubles schema clause shapes.0 lives columns
                          decided.0 holds,
                      lives,
                      holds,
                      get_count is_silent_mode ctx table_name c counted,
                      stream_behind before rest (killed r) (length (record_body r))
                          (sym (length-killed r)),
                    )
                    (after.1
                      ∙ ap₂ (λ f rows. done (after.0, f, rows)) (joined (killed r))
                          (append_assoc out (row ∷ []) (old_rows rs))),
                rw (lives, holds) (after.2 ∙ ap some (omega arith)),
                after.3,
              )
          | inr fails ↦ (
            kept.0,
            rw
                (
                  mark_skipped before n r rest fits' doubles schema clause shapes.0 lives columns
                      decided.0 fails,
                  lives,
                  fails,
                  stream_behind before rest r _ refl,
                )
                (kept.1 ∙ ap (λ f. done (kept.0, f, out ++ old_rows rs)) (joined r)),
            rw (lives, fails) kept.2,
            kept.3,
          )
        ]
      ]

  -- The same with what is left of the context.
  pub mark_table_keeps :
      (rs : List TableRecord) (ctx : ExecutionContext) (c : ℕ)
      → length schema ≡ n + 1
      → IsTable n rs
      → All (Decided doubles clause) rs
      → lookup table_name ctx.delete_counter_per_table ≡ some c
      → c + length rs < 2 ^ 64
      → (ctx' : ExecutionContext) × (mark_table doubles is_silent_mode table_name schema clause ctx
            (table_file rs)
          ≡ done (ctx', table_file (marked_records doubles clause rs), old_rows rs))
        × (lookup table_name ctx'.delete_counter_per_table ≡ some (c + length (old_rows rs)))
        × OnlyCounts ctx ctx'
  unfolding mark_table table_file
  mark_table_keeps rs ctx c columns wf decided counted small =
      let header = write_header db_header in
      let size : length header ≡ 32 = unfold write_header le_bytes in refl in
      let (ctx', run, counter, same) =
        mark_loop_lem columns rs (scan_fuel (table_file rs)) header ctx [] c wf.shapes decided
          (omega (arith, size, length-table_file rs, wf.size)) (enough_fuel rs) counted small in
      (ctx', rw (check_fstream_validity_lem is_silent_mode rs) (rw size at run), counter, same)

  -- On a well-formed table file, with a clause whose comparison throws on no live record and a delete
  -- counter that does not overflow, the first step of updateData ends: the old rows are those that SELECT * gives under the clause, in file order; the
  -- file holds the same records as before, in place, those rows' records and no others marked as
  -- deleted; and the delete counter has grown by the number of these rows.
  pub mark_table_lem :
      (rs : List TableRecord) (ctx : ExecutionContext) (c : ℕ)
      → length schema ≡ n + 1
      → IsTable n rs
      → All (Decided doubles clause) rs
      → lookup table_name ctx.delete_counter_per_table ≡ some c
      → c + length rs < 2 ^ 64
      → (ctx' : ExecutionContext) × (mark_table doubles is_silent_mode table_name schema clause ctx
            (table_file rs)
          ≡ done (ctx', table_file (marked_records doubles clause rs), old_rows rs))
        × (lookup table_name ctx'.delete_counter_per_table ≡ some (c + length (old_rows rs)))
  mark_table_lem rs ctx c columns wf decided counted small =
      let (ctx', run, counter, _) = mark_table_keeps rs ctx c columns wf decided counted small in
      (ctx', run, counter)
