-- ===== src/Select/Indexed.antt =====
-- The two branches of selectData (DBEngine/filehandler/handlers/select.cpp) give the same rows.
use bsc_thesis.Base.{
  ℕ, ◌+◌, ◌-◌, ◌^◌, ◌<◌, ◌≤◌, ◌≡◌, refl, sym, ap, ◌∙◌, Bool, true, false, ◌||◌, List, [], ◌∷◌, ◌++◌,
  none, some, Text, text_eq, text_eq_iff, text_eq_refl, length, All, drop, take, arith,
  length-append, if◌then◌else◌, Bool-cases, inl, inr, lookup, ◌==◌,
}
use bsc_thesis.Status.{done, ◌>>=◌}
use bsc_thesis.Ast.{ComparatorType, WhereNode}
use bsc_thesis.Utils.Strings.{remove_outer_quotes}
use bsc_thesis.Utils.Columns.{Schema, contains, Distinct, extract_primary_key_column}
use bsc_thesis.Condition.{Doubles, evaluate_comparator}
use bsc_thesis.Condition.Agreement.{evaluate-eq}
use bsc_thesis.Storage.Scan.Select.{decide, Decided, decided-done}
use bsc_thesis.Strategy.{is_eq, is_unique_equality_lookup}
use bsc_thesis.Stream.Reading.{good, seek_beg_lem}
use bsc_thesis.Stream.Bytes.{le_bytes, le_value}
use bsc_thesis.Storage.{
  write_header, u64_sub, is_tombstone, TableRecord, record_body, record_bytes, records_bytes,
  table_file, IsRecord, db_header,
}
use bsc_thesis.Storage.Layout.{length-record_bytes, next_record}
use bsc_thesis.Storage.Reads.{project, stored_values, next_record_alive}
use bsc_thesis.Storage.Scan.{Index}
use bsc_thesis.Storage.Scan.Index.{find_live}
use bsc_thesis.Storage.Scan.Select.{meets, checked-decide, select_rows}
use bsc_thesis.Storage.Table.{
  scan_fuel, IsTable, select_table, check_file_validity_lem, drop-table_file, length-table_file,
}
use bsc_thesis.Storage.Table.Contents.{select_table_lem}
use bsc_thesis.Context.{ExecutionContext, index_at}
use bsc_thesis.Context.Keys.{at_key-found}
use bsc_thesis.Select.{select_at, select_by, select_branches, select_data}

-- The keys of the live records, in file order.
unfoldable pub live_keys : List TableRecord → List Text
live_keys [] = []
live_keys (r ∷ rs) =
    let rest = live_keys rs in if is_tombstone r.record_type then rest else r.primary_key ∷ rest

-- A clause `key = literal` on the primary key, which is the first cell of a row in the file.
pub record IsKeyLookup (clause : WhereNode) (key : Text) : Type 0 where
  pub resolved : clause.condition.schema_index ≡ 0
  pub equality : clause.condition.cmp ≡ ComparatorType.eq
  pub literal : remove_outer_quotes clause.condition.literal_value.value ≡ key

magic : (rs : List TableRecord) → (le_value (take 8 (table_file rs)) == db_header.magic) ≡ true
unfolding table_file write_header le_bytes le_value
magic rs = refl

pub or_false : (a b : Bool) → a || b ≡ false → (a ≡ false) × (b ≡ false)
or_false a b h = ground arith

-- A key that no live record has is not found.
pub find_live-absent :
    (key : Text) (p : ℕ) (rs : List TableRecord)
    → contains key (live_keys rs) ≡ false
    → find_live key p rs ≡ none
unfolding find_live live_keys contains
find_live-absent key p [] absent = refl
find_live-absent key p (r ∷ rs) absent = elim (Bool-cases (is_tombstone r.record_type)) [
  | inl dies ↦
      rw dies (find_live-absent key (p + 8 + length (record_body r)) rs (rw dies at absent))
  | inr lives ↦
      let parts =
        or_false (text_eq r.primary_key key) (contains key (live_keys rs)) (rw lives at absent) in
      rw (lives, parts.0) (find_live-absent key (p + 8 + length (record_body r)) rs parts.1)
]

module _ (doubles : Doubles) (clause : WhereNode) (key : Text)
    (lookup_of : IsKeyLookup clause key) where
  decide_key :
      (r : TableRecord)
      → decide doubles (some clause) (stored_values r) ≡ done (text_eq r.primary_key key)
  unfolding decide evaluate_comparator
  decide_key r =
      rw (lookup_of.resolved, lookup_of.equality, lookup_of.literal)
        (evaluate-eq doubles r.primary_key key)

  pub meets_key :
      (r : TableRecord) → meets doubles (some clause) (stored_values r) ≡ text_eq r.primary_key key
  unfolding meets
  meets_key r = rw (decide_key r) refl

  lookup-Decided : (rs : List TableRecord) → All (Decided doubles (some clause)) rs
  lookup-Decided [] = tt
  lookup-Decided (r ∷ rs) = (
    (λ _.
        decided-done doubles (some clause) (stored_values r) (text_eq r.primary_key key)
          (decide_key r)),
    lookup-Decided rs,
  )

  rows_without_key :
      (mask : List Bool) (rs : List TableRecord)
      → contains key (live_keys rs) ≡ false
      → select_rows doubles mask (some clause) rs ≡ []
  unfolding select_rows live_keys contains
  rows_without_key mask [] absent = refl
  rows_without_key mask (r ∷ rs) absent = elim (Bool-cases (is_tombstone r.record_type)) [
    | inl dies ↦ rw dies (rows_without_key mask rs (rw dies at absent))
    | inr lives ↦
        let parts =
          or_false (text_eq r.primary_key key) (contains key (live_keys rs)) (rw lives at absent) in
        rw (lives, meets_key r, parts.0) (rows_without_key mask rs parts.1)
  ]

  -- Where the index points: at a live record with this key. When no key stands twice among the live
  -- records, it is the only row that the clause selects.
  found-IsRecord :
      (n : ℕ) (mask : List Bool) (file : List ℕ) (rs : List TableRecord) (p offset : ℕ)
      → All (IsRecord n) rs
      → Distinct (live_keys rs)
      → drop p file ≡ records_bytes rs
      → find_live key p rs ≡ some offset
      → (r : TableRecord) × (rest : List ℕ) × (drop (offset - 8) file ≡ record_bytes r ++ rest)
        × IsRecord n r
        × (is_tombstone r.record_type ≡ false)
        × (meets doubles (some clause) (stored_values r) ≡ true)
        × (select_rows doubles mask (some clause) rs ≡ project mask 0 (stored_values r) ∷ [])
        × (8 ≤ offset)
        × (offset + length (record_body r) ≤ p + length (records_bytes rs))
  unfolding find_live live_keys select_rows records_bytes
  found-IsRecord n mask file [] p offset shapes distinct h found = absurd cc
  found-IsRecord n mask file (r ∷ rs) p offset shapes distinct h found =
      let sizes = length-append {0} (record_bytes r) (records_bytes rs) in
      let ahead = next_record file p r (records_bytes rs) h in
      elim (Bool-cases (is_tombstone r.record_type)) [
        | inl dies ↦
            let (r', rest, there, shape, lives, holds, only, low, high) =
              found-IsRecord n mask file rs (p + 8 + length (record_body r)) offset shapes.1
                (rw dies at distinct) ahead (rw dies at found) in
            (
              r',
              rest,
              there,
              shape,
              lives,
              holds,
              rw dies only,
              low,
              omega (arith, high, sizes, length-record_bytes r),
            )
        | inr lives ↦ elim (Bool-cases (text_eq r.primary_key key)) [
          | inl same ↦
              let here : some (p + 8) ≡ some offset = rw (lives, same) at found in
              let at_offset : offset ≡ p + 8 = ground arith in
              let back : offset - 8 ≡ p = omega (arith, at_offset) in
              let absent : contains key (live_keys rs) ≡ false =
                rw ((text_eq_iff r.primary_key key).0 same) at (rw lives at distinct).0 in
              (
                r,
                records_bytes rs,
                rw back h,
                shapes.0,
                lives,
                meets_key r ∙ same,
                rw (lives, meets_key r, same)
                    (ap (λ t. project mask 0 (stored_values r) ∷ t)
                      (rows_without_key mask rs absent)),
                omega (arith, at_offset),
                omega (arith, at_offset, sizes, length-record_bytes r),
              )
          | inr other ↦
              let (r', rest, there, shape, lives', holds, only, low, high) =
                found-IsRecord n mask file rs (p + 8 + length (record_body r)) offset shapes.1
                  (rw lives at distinct).1 ahead (rw (lives, other) at found) in
              (
                r',
                rest,
                there,
                shape,
                lives',
                holds,
                rw (lives, meets_key r, other) only,
                low,
                omega (arith, high, sizes, length-record_bytes r),
              )
        ]
      ]

  is_unique_lookup : is_unique_equality_lookup (some clause) clause.condition.col_name ≡ true
  unfolding is_unique_equality_lookup is_eq
  is_unique_lookup = rw (lookup_of.equality, text_eq_refl clause.condition.col_name) refl

  select_at_lem :
      (n : ℕ) (schema : Schema) (mask : List Bool) (file : List ℕ) (rs : List TableRecord)
      (p offset : ℕ)
      → length schema ≡ n + 1
      → All (IsRecord n) rs
      → Distinct (live_keys rs)
      → drop p file ≡ records_bytes rs
      → p + length (records_bytes rs) < 2 ^ 63
      → find_live key p rs ≡ some offset
      → select_at doubles offset (good file p) schema mask (some clause)
        ≡ done (select_rows doubles mask (some clause) rs)
  unfolding select_at
  select_at_lem n schema mask file rs p offset columns shapes distinct h fits found =
      let (r, rest, there, shape, lives, holds, only, low, high) =
        found-IsRecord n mask file rs p offset shapes distinct h found in
      let back : u64_sub offset 8 ≡ offset - 8 = omega (arith, low, high) in
      rw
        (
          back,
          seek_beg_lem file p (offset - 8) (omega (arith, low, high)),
          next_record_alive file (offset - 8) n r rest there (omega (arith, low, high)) shape lives
              doubles schema mask (some clause) columns,
          checked-decide doubles (some clause) (stored_values r),
          decided-done doubles (some clause) (stored_values r) (text_eq r.primary_key key)
              (decide_key r),
          holds,
          only,
        )
        refl

  -- In a table whose primary key is the first column of its schema, so that the clause is resolved to the first
  -- cell of a row, on a well-formed table file whose live records all have different keys, with an index that points
  -- at the first live record of each key, a SELECT by a primary key that the index has gives through
  -- the index the rows that the scan of the whole file gives.
  pub select_data_agrees :
      (is_silent_mode : Bool) (ctx : ExecutionContext) (table_name : Text) (schema : Schema)
      (mask : List Bool) (index : Index) (n offset : ℕ) (rs : List TableRecord)
      → lookup table_name ctx.untyped_tables ≡ some schema
      → extract_primary_key_column schema ≡ done clause.condition.col_name
      → length schema ≡ n + 1
      → IsTable n rs
      → Distinct (live_keys rs)
      → index_at ctx table_name clause.condition.col_name ≡ done index
      → lookup key index ≡ some offset
      → find_live key 32 rs ≡ some offset
      → select_data doubles is_silent_mode ctx table_name mask (some clause) (table_file rs)
        ≡ select_table doubles is_silent_mode (table_file rs) schema mask (some clause)
  unfolding select_data select_branches select_by
  select_data_agrees is_silent_mode ctx table_name schema mask index n offset rs known pk columns wf
        distinct indexed has found =
      let by_index =
        select_at_lem n schema mask (table_file rs) rs 32 offset columns wf.shapes distinct
          (drop-table_file rs) (omega (arith, length-table_file rs, wf.size)) found in
      let branch : select_branches doubles ctx table_name schema mask (some clause)
            (scan_fuel (table_file rs)) (good (table_file rs) 32)
          ≡ done (select_rows doubles mask (some clause) rs) =
        ap
          (λ m. m >>= λ pk_col.
            select_by doubles (is_unique_equality_lookup (some clause) pk_col) ctx table_name schema
              mask clause (scan_fuel (table_file rs)) (good (table_file rs) 32))
          pk
        ∙ (ap
              (λ b.
                select_by doubles b ctx table_name schema mask clause (scan_fuel (table_file rs))
                  (good (table_file rs) 32))
              is_unique_lookup
            ∙ rw (indexed, lookup_of.literal, at_key-found key offset index has, by_index) refl) in
      rw
        (
          at_key-found table_name schema ctx.untyped_tables known,
          check_file_validity_lem is_silent_mode rs,
          magic rs,
        )
        (branch
          ∙ sym (
              select_table_lem doubles is_silent_mode n rs schema mask (some clause) wf
                (lookup-Decided rs) columns))
