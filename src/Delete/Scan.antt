-- ===== src/Delete/Scan.antt =====
-- performSequentialDelete and the loop of deleteData (DBEngine/filehandler/handlers/delete.cpp) on a
-- well-formed table file.
use bsc_thesis.Base.{
  ℕ, zero, suc, ◌+◌, ◌^◌, ◌<◌, ◌≡◌, refl, sym, ap, ◌∙◌, Bool, not, ◌&&◌, List, [], ◌∷◌, ◌++◌,
  Option, none, some, Text, length, All, arith, length-append, append_assoc, if◌then◌else◌,
  Bool-cases, inl, inr, lookup, drop-length_append,
}
use bsc_thesis.Status.{Outcome, done}
use bsc_thesis.Ast.{WhereNode}
use bsc_thesis.Condition.{Doubles}
use bsc_thesis.Stream.{Stream}
use bsc_thesis.Stream.Reading.{good, bad}
use bsc_thesis.Storage.{
  endoftable, is_tombstone, TableRecord, record_body, record_bytes, records_bytes, IsRecord, u64,
}
use bsc_thesis.Storage.Layout.{record_head_end, length-record_bytes}
use bsc_thesis.Storage.Reads.{stored_values}
use bsc_thesis.Storage.Scan.Select.{meets, Decided}
use bsc_thesis.Context.{ExecutionContext, set_delete_count}
use bsc_thesis.Marking.InPlace.{killed, length-killed, stream_behind}
use bsc_thesis.Marking.WholeFile.{marked_records, get_count, count_after}
use bsc_thesis.Delete.{perform_sequential_delete, delete_loop}
use bsc_thesis.Delete.Step.{Found, delete_dead, delete_alive}

-- The number of records that the scan deletes.
unfoldable pub deleted_count : Doubles → Option WhereNode → List TableRecord → ℕ
deleted_count doubles clause [] = 0
deleted_count doubles clause (r ∷ rs) =
    let rest = deleted_count doubles clause rs in
    if not (is_tombstone r.record_type) && meets doubles clause (stored_values r)
    then suc rest
    else rest

knows-count :
    (ctx : ExecutionContext) (table_name primary_key : Text) (colcode n count : ℕ)
    (clause : Option WhereNode) (rs : List TableRecord)
    → All (Found ctx table_name primary_key colcode n clause) rs
    → All (Found (set_delete_count ctx table_name count) table_name primary_key colcode n clause) rs
unfolding set_delete_count
knows-count ctx table_name primary_key colcode n count clause [] found = tt
knows-count ctx table_name primary_key colcode n count none (r ∷ rs) found =
    (tt, knows-count ctx table_name primary_key colcode n count none rs found.1)
knows-count ctx table_name primary_key colcode n count (some clause) (r ∷ rs)
      ((known, placed), found) =
    (
      (
        record {
          schema = known.schema;
          colcodes = known.colcodes;
          table = known.table;
          columns = known.columns;
          short = known.short;
          key = known.key;
          codes = known.codes;
          code = known.code;
        },
        placed,
      ),
      knows-count ctx table_name primary_key colcode n count (some clause) rs found,
    )

module _ (n : ℕ) (doubles : Doubles) (is_silent_mode : Bool) (table_name primary_key : Text)
    (colcode : ℕ) (clause : Option WhereNode) where
  -- What the loop comes to from a stream between `before` and the records `rs` on.
  abbrev Deletes :
      Outcome (ExecutionContext × Stream)
      → ExecutionContext
      → List ℕ
      → List TableRecord
      → ℕ
      → Type 0
  Deletes run ctx before rs c =
      (ctx' : ExecutionContext) × (q : ℕ) × (run
        ≡ done (ctx', bad (before ++ records_bytes (marked_records doubles clause rs)) q))
      × (lookup table_name ctx'.delete_counter_per_table
          ≡ some (c + deleted_count doubles clause rs))
      × (ctx'.untyped_tables ≡ ctx.untyped_tables)

  pub delete_end :
      (before : List ℕ) (ctx : ExecutionContext)
      → perform_sequential_delete doubles is_silent_mode ctx table_name clause
          (good (before ++ []) (length before))
        ≡ done (endoftable, bad (before ++ []) (length before))
  unfolding perform_sequential_delete
  delete_end before ctx =
      rw
        (
          record_head_end (before ++ []) (length before) (drop-length_append before []),
          perform_sequential_delete,
        )
        refl

  pub delete_loop_lem :
      (rs : List TableRecord) (fuel : ℕ) (before : List ℕ) (ctx : ExecutionContext) (c : ℕ)
      → All (IsRecord n) rs
      → All (Found ctx table_name primary_key colcode n clause) rs
      → All (Decided doubles clause) rs
      → length before + length (records_bytes rs) < 2 ^ 63
      → length rs < fuel
      → lookup table_name ctx.delete_counter_per_table ≡ some c
      → c + length rs < 2 ^ 64
      → Deletes
          (delete_loop doubles is_silent_mode table_name clause fuel ctx
            (good (before ++ records_bytes rs) (length before)))
          ctx
          before
          rs
          c
  unfolding delete_loop records_bytes marked_records deleted_count set_delete_count
  delete_loop_lem rs zero before ctx c shapes found decided fits enough counted small =
      absurd (omega arith)
  delete_loop_lem [] (suc fuel) before ctx c shapes found decided fits enough counted small =
      (ctx, length before, rw (delete_end before ctx) refl, counted ∙ ap some (omega arith), refl)
  delete_loop_lem (r ∷ rs) (suc fuel) before ctx c shapes found decided fits enough counted small =
      let sizes = length-append {0} (record_bytes r) (records_bytes rs) in
      let fits' : length before + 8 + length (record_body r) < 2 ^ 63 =
        omega (arith, sizes, length-record_bytes r) in
      let rest = records_bytes rs in
      let joined = λ (r' : TableRecord).
        append_assoc before (record_bytes r') (records_bytes (marked_records doubles clause rs)) in
      let beyond : length (before ++ record_bytes r) + length rest < 2 ^ 63 =
        omega (arith, sizes, length-append before (record_bytes r)) in
      let beyond' : length (before ++ record_bytes (killed r)) + length rest < 2 ^ 63 = omega (
        arith,
        sizes,
        length-append before (record_bytes (killed r)),
        length-record_bytes r,
        length-record_bytes (killed r),
        length-killed r,
      ) in
      let kept : Deletes
          (delete_loop doubles is_silent_mode table_name clause fuel ctx
            (good ((before ++ record_bytes r) ++ rest) (length (before ++ record_bytes r))))
          ctx (before ++ record_bytes r) rs c =
        delete_loop_lem rs fuel (before ++ record_bytes r) ctx c shapes.1 found.1 decided.1 beyond
          (omega arith) counted (omega arith) in
      elim (Bool-cases (is_tombstone r.record_type)) [
        | inl dies ↦ (
          kept.0,
          kept.1,
          rw
              (
                delete_dead before n r rest fits' doubles is_silent_mode ctx table_name clause dies,
                dies,
                stream_behind before rest r _ refl,
              )
              (kept.2 ∙ ap (λ f. done (kept.0, bad f kept.1)) (joined r)),
          rw dies kept.3,
          kept.4,
        )
        | inr lives ↦ elim (Bool-cases (meets doubles clause (stored_values r))) [
          | inl holds ↦
              let counted' = count_after ctx table_name c (omega (arith, small)) in
              let after : Deletes
                  (delete_loop doubles is_silent_mode table_name clause fuel
                    (set_delete_count ctx table_name (u64 (c + 1)))
                    (good ((before ++ record_bytes (killed r)) ++ rest)
                      (length (before ++ record_bytes (killed r)))))
                  (set_delete_count ctx table_name (u64 (c + 1)))
                  (before ++ record_bytes (killed r)) rs (c + 1) =
                delete_loop_lem rs fuel (before ++ record_bytes (killed r))
                  (set_delete_count ctx table_name (u64 (c + 1))) (c + 1) shapes.1
                  (knows-count ctx table_name primary_key colcode n (u64 (c + 1)) clause rs found.1)
                  decided.1 beyond' (omega arith) counted' (omega arith) in
              (
                after.0,
                after.1,
                rw
                    (
                      delete_alive before n r rest fits' doubles is_silent_mode ctx table_name
                          shapes.0 lives primary_key colcode clause found.0 decided.0,
                      lives,
                      holds,
                      get_count is_silent_mode ctx table_name c counted,
                      stream_behind before rest (killed r) (length (record_body r))
                          (sym (length-killed r)),
                    )
                    (after.2 ∙ ap (λ f. done (after.0, bad f after.1)) (joined (killed r))),
                rw (lives, holds) (after.3 ∙ ap some (omega arith)),
                after.4,
              )
          | inr fails ↦ (
            kept.0,
            kept.1,
            rw
                (
                  delete_alive before n r rest fits' doubles is_silent_mode ctx table_name shapes.0
                      lives primary_key colcode clause found.0 decided.0,
                  lives,
                  fails,
                  stream_behind before rest r _ refl,
                )
                (kept.2 ∙ ap (λ f. done (kept.0, bad f kept.1)) (joined r)),
            rw (lives, fails) kept.3,
            kept.4,
          )
        ]
      ]
