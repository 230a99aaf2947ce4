-- ===== src/Delete/ByKey.antt =====
-- A DELETE by primary key (performDeleteByIndexLookup) on a well-formed table file.
use bsc_thesis.Base.{
  ℕ, ◌+◌, ◌<◌, ◌≡◌, refl, ap, ◌∙◌, Bool, List, [], ◌∷◌, ◌++◌, none, some, Text, text_eq, length,
  arith, length-append, append_assoc, if◌then◌else◌, Bool-cases, inl, inr, lookup,
}
use bsc_thesis.Status.{done}
use bsc_thesis.Ast.{WhereNode}
use bsc_thesis.Utils.Strings.{remove_outer_quotes}
use bsc_thesis.Stream.{overwrite}
use bsc_thesis.Stream.Bytes.{le_bytes}
use bsc_thesis.Stream.Reading.{good, seek_beg_lem}
use bsc_thesis.Storage.{
  is_tombstone, TableRecord, write_header, db_header, record_body, record_bytes, records_bytes,
  table_file,
}
use bsc_thesis.Storage.Layout.{length-record_bytes, length-record_body}
use bsc_thesis.Storage.Scan.{Index}
use bsc_thesis.Storage.Scan.Index.{find_live}
use bsc_thesis.Storage.Table.{IsTable}
use bsc_thesis.Context.{ExecutionContext, index_at}
use bsc_thesis.Context.Keys.{erase_then_find, at_key-found}
use bsc_thesis.Marking.InPlace.{killed, killed_bytes}
use bsc_thesis.Delete.{delete_by_index_lookup}

-- The records of a table after the first live one with this key was marked.
unfoldable pub without_key : Text → List TableRecord → List TableRecord
without_key key [] = []
without_key key (r ∷ rs) =
    let rest = r ∷ without_key key rs in
    if is_tombstone r.record_type
    then rest
    else (if text_eq r.primary_key key then killed r ∷ rs else rest)

overwrite_found :
    (key : Text) (before : List ℕ) (rs : List TableRecord) (offset : ℕ)
    → find_live key (length before) rs ≡ some offset
    → (overwrite (1 ∷ []) (good (before ++ records_bytes rs) offset)
        ≡ good (before ++ records_bytes (without_key key rs)) (offset + 1))
      × (offset < length (before ++ records_bytes rs))
unfolding find_live without_key records_bytes
overwrite_found key before [] offset h = absurd cc
overwrite_found key before (r ∷ rs) offset h =
    let rest = records_bytes rs in
    let sizes = length-append {0} (record_bytes r) rest in
    let later : find_live key (length before + 8 + length (record_body r)) rs ≡ some offset
        → (overwrite (1 ∷ []) (good (before ++ (record_bytes r ++ rest)) offset)
            ≡ good (before ++ (record_bytes r ++ records_bytes (without_key key rs))) (offset + 1))
          × (offset < length (before ++ (record_bytes r ++ rest))) =
      λ h'.
        let start : length before + 8 + length (record_body r) ≡ length (before ++ record_bytes r) =
          omega (arith, length-append {0} before (record_bytes r), length-record_bytes r) in
        let (wrote, inside) =
          overwrite_found key (before ++ record_bytes r) rs offset (rw start at h') in
        let joined = append_assoc before (record_bytes r) in
        (
          rw (joined rest, joined (records_bytes (without_key key rs))) at wrote,
          rw (joined rest) at inside,
        ) in
    elim (Bool-cases (is_tombstone r.record_type)) [
      | inl dies ↦ rw dies (later (rw dies at h))
      | inr lives ↦ elim (Bool-cases (text_eq r.primary_key key)) [
        | inl same ↦
            let here : some (length before + 8) ≡ some offset = rw (lives, same) at h in
            let at_offset : offset ≡ length before + 8 = ground arith in
            rw (lives, same, at_offset)
              (
                killed_bytes before rest r
                    ∙ ap (good (before ++ (record_bytes (killed r) ++ rest))) (omega arith),
                omega (
                  arith,
                  length-append {0} before (record_bytes r ++ rest),
                  sizes,
                  length-record_bytes r,
                  length-record_body r,
                ),
              )
        | inr other ↦ rw (lives, other) (later (rw (lives, other) at h))
      ]
    ]

-- A DELETE by a primary key that the index has at the first live record with this key ends, on a
-- well-formed table file: the file holds the same records in place, with that one marked as deleted,
-- and the index misses this key and gives every other as before.
pub delete_by_key :
    (is_silent_mode : Bool) (clause : WhereNode) (table_name key : Text) (ctx : ExecutionContext)
    (index : Index) (offset n : ℕ) (rs : List TableRecord)
    → remove_outer_quotes clause.condition.literal_value.value ≡ key
    → index_at ctx table_name clause.condition.col_name ≡ done index
    → lookup key index ≡ some offset
    → find_live key 32 rs ≡ some offset
    → 0 < offset
    → IsTable n rs
    → (ctx' : ExecutionContext) × (index' : Index) × (delete_by_index_lookup is_silent_mode clause
          table_name ctx
          (good (table_file rs) 32)
        ≡ done (ctx', good (table_file (without_key key rs)) (offset + 1)))
      × (index_at ctx' table_name clause.condition.col_name ≡ done index')
      × ((other : Text)
          → lookup other index' ≡ (if text_eq key other then none else lookup other index))
unfolding delete_by_index_lookup table_file
delete_by_key is_silent_mode clause table_name key ctx index offset n rs literal indexed known found
      positive wf =
    let header = write_header db_header in
    let size : length header ≡ 32 = unfold write_header le_bytes in refl in
    let (ctx', index', erased, there, others) =
      erase_then_find is_silent_mode ctx table_name clause.condition.col_name key offset index
        indexed known positive in
    let (wrote, inside) = overwrite_found key header rs offset (rw size found) in
    let back =
      seek_beg_lem (header ++ records_bytes rs) 32 offset (omega (arith, inside, wf.size)) in
    (
      ctx',
      index',
      rw (literal, indexed, at_key-found key offset index known, erased, back, wrote) refl,
      there,
      others,
    )
