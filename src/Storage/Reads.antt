-- ===== src/Storage/Reads.antt =====
-- What one call of each deserializer of DBEngine/filehandler/deserialization does in front of a
-- record.
use bsc_thesis.Base.{
  ℕ, ◌+◌, ◌*◌, ◌^◌, ◌<◌, ◌≡◌, refl, ap, ap₂, ◌∙◌, Bool, true, false, List, [], ◌∷◌, ◌++◌, Option,
  some, sym, Text, length, drop, arith, length-append, append_assoc, append-nil, get_or,
  if◌then◌else◌,
}
use bsc_thesis.Status.{Outcome, done, ◌>>=◌, >>=-ext, >>=_assoc}
use bsc_thesis.Ast.{WhereNode}
use bsc_thesis.Utils.Columns.{Schema}
use bsc_thesis.Condition.{Doubles}
use bsc_thesis.Stream.{Stream, seek_cur}
use bsc_thesis.Stream.Reading.{good, drop_step, seek_cur_lem}
use bsc_thesis.Storage.{
  u64_sub, is_tombstone, tombstone, live, skip, write_column_offsets, write_string, write_strings,
  TableRecord, record_body, record_bytes, IsRecord,
}
use bsc_thesis.Storage.Deserializer.{
  col_offset_region_length, check_column, columns_loop, deserialize_next_record,
  deserialize_next_record_type, deserialize_next_primary_key,
}
use bsc_thesis.Storage.Layout.{
  record_tail, length-record_body, length-write_column_offsets, length-write_string,
  record_head_alive, record_head_dead, tail_region, read_value_lem,
}

-- The fields that a projection mask keeps, and the values of a stored record in file order.
unfoldable pub project : List Bool → ℕ → List Text → List Text
project mask i [] = []
project mask i (v ∷ vs) =
    let rest = project mask (i + 1) vs in if get_or mask i false then v ∷ rest else rest

abbrev pub stored_values : TableRecord → List Text
stored_values r = r.primary_key ∷ r.payload

-- What the loop makes of the condition over all columns.
unfoldable pub checked : Doubles → Option WhereNode → ℕ → List Text → Bool → Outcome Bool
checked doubles clause i [] w = done w
checked doubles clause i (v ∷ vs) w =
    check_column doubles clause i v w >>= λ w'. checked doubles clause (i + 1) vs w'

kept-project :
    (b : Bool) (out rest : List Text) (v : Text)
    → (if b then out ++ (v ∷ []) else out) ++ rest ≡ out ++ (if b then v ∷ rest else rest)
kept-project true out rest v = append_assoc out (v ∷ []) rest
kept-project false out rest v = refl

pub columns_loop_lem :
    (doubles : Doubles) (clause : Option WhereNode) (mask : List Bool) (file : List ℕ)
    → (vs : List Text) (i p : ℕ) (rest : List ℕ) (out : List Text) (w : Bool)
    → drop p file ≡ write_strings vs ++ rest
    → length (write_strings vs) < 2 ^ 63
    → columns_loop doubles clause mask (length vs) i (good file p) out w ≡ (
        checked doubles clause i vs w >>= λ w'.
        done (some (out ++ project mask i vs, w'), good file (p + length (write_strings vs))))
unfolding columns_loop write_strings project checked
columns_loop_lem doubles clause mask file [] i p rest out w h short =
    let e : p + 0 ≡ p = omega arith in rw (append-nil, e)
columns_loop_lem doubles clause mask file (v ∷ vs) i p rest out w h short =
    let sizes = length-append {0} (write_string v) (write_strings vs) in
    let (now, next) =
      read_value_lem file p v (write_strings vs ++ rest) (h ∙ append_assoc _ _ rest)
        (omega (arith, sizes, length-write_string v)) in
    let target : p + length (write_string v) + length (write_strings vs)
        ≡ p + length (write_string v ++ write_strings vs) =
      omega (arith, sizes) in
    let out' = if get_or mask i false then out ++ (v ∷ []) else out in
    let ih = λ (w' : Bool).
      columns_loop_lem doubles clause mask file vs (i + 1) (p + length (write_string v)) rest out'
        w' next (omega (arith, sizes)) in
    rw now (
      >>=-ext (check_column doubles clause i v w) _ _ (λ w'.
        ih w'
        ∙ ap
            (λ (k : List Text × ℕ).
              checked doubles clause (i + 1) vs w' >>= λ w''. done (some (k.0, w''), good file k.1))
            (ap₂ (λ o q. (o, q))
              (kept-project (get_or mask i false) out (project mask (i + 1) vs) v) target))
      ∙ sym (>>=_assoc (check_column doubles clause i v w) _ _))

-- A good stream in front of a record of a table with `n` columns besides the key.
module _ (file : List ℕ) (p n : ℕ) (r : TableRecord) (rest : List ℕ)
    (h : drop p file ≡ record_bytes r ++ rest)
    (fits : p + 8 + length (record_body r) < 2 ^ 63) where
  pub record_type_dead :
      is_tombstone r.record_type ≡ true
      → deserialize_next_record_type (good file p)
        ≡ (tombstone, good file (p + 8 + length (record_body r)))
  unfolding deserialize_next_record_type
  record_type_dead dies =
      rw (record_head_dead file p r rest fits dies h, deserialize_next_record_type)

  pub record_type_alive :
      is_tombstone r.record_type ≡ false
      → deserialize_next_record_type (good file p)
        ≡ (live, good file (p + 8 + length (record_body r)))
  unfolding deserialize_next_record_type
  record_type_alive lives =
      let step : u64_sub (length (record_body r)) 1 ≡ length (record_tail r) =
        omega (arith, length-record_body r) in
      let target : p + 9 + length (record_tail r) ≡ p + 8 + length (record_body r) =
        omega (arith, length-record_body r) in
      rw (record_head_alive file p r rest (omega arith) lives h, deserialize_next_record_type, step)
        (ap (λ (s : Stream). (live, s))
          (seek_cur_lem file (p + 9) _ (omega (arith, target)) ∙ ap (good file) target))

  pub next_record_dead :
      (doubles : Doubles) (schema : Schema) (mask : List Bool) (clause : Option WhereNode)
      → is_tombstone r.record_type ≡ true
      → deserialize_next_record doubles (good file p) schema mask clause
        ≡ done (tombstone, [], good file (p + 8 + length (record_body r)))
  unfolding deserialize_next_record
  next_record_dead doubles schema mask clause dies =
      rw (record_head_dead file p r rest fits dies h, deserialize_next_record)

  pub next_key_dead :
      (pk : Text) (offset : ℕ)
      → is_tombstone r.record_type ≡ true
      → deserialize_next_primary_key n (good file p) pk offset ≡ record {
        indicator = tombstone;
        pk_val = pk;
        offset = offset;
        stream = good file (p + 8 + length (record_body r));
      }
  unfolding deserialize_next_primary_key
  next_key_dead pk offset dies =
      rw (record_head_dead file p r rest fits dies h, deserialize_next_primary_key)

  module _ (shape : IsRecord n r) (lives : is_tombstone r.record_type ≡ false) where
    pub region_size : length (write_column_offsets r.column_offset_map) ≡ 16 * n
    region_size =
        omega (
          arith,
          length-write_column_offsets r.column_offset_map shape.paddings,
          shape.offsets_count,
        )

    abbrev pub after_region : List ℕ
    after_region = write_string r.primary_key ++ write_strings r.payload

    pub tail_size : length (record_body r) ≡ 1 + 16 * n + length after_region
    tail_size = omega (
      arith,
      length-record_body r,
      length-append {0} (write_column_offsets r.column_offset_map) after_region,
      region_size,
    )

    -- The jump over the column offset region.
    pub after_offsets :
        (seek_cur (16 * n) (good file (p + 9)) ≡ good file (p + 9 + 16 * n))
        × (drop (p + 9 + 16 * n) file ≡ after_region ++ rest)
    after_offsets = (
      seek_cur_lem file (p + 9) (16 * n) (omega (arith, tail_size)),
      drop_step file (p + 9) (16 * n) (write_column_offsets r.column_offset_map)
          (after_region ++ rest) (tail_region file p r rest h ∙ append_assoc _ _ rest) region_size,
    )

    pub region_of : col_offset_region_length n ≡ 16 * n
    region_of = omega (arith, tail_size)

    -- The loop over the columns of a live record.
    pub columns_alive :
        (doubles : Doubles) (schema : Schema) (mask : List Bool) (clause : Option WhereNode)
        → length schema ≡ n + 1
        → columns_loop doubles clause mask
            (length schema)
            0
            (seek_cur (col_offset_region_length (u64_sub (length schema) 1)) (good file (p + 9)))
            []
            true
          ≡ (checked doubles clause 0 (stored_values r) true >>= λ w. done (
            some (project mask 0 (stored_values r), w),
            good file (p + 8 + length (record_body r)),
          ))
    columns_alive doubles schema mask clause columns =
        let region : col_offset_region_length (u64_sub (length schema) 1) ≡ 16 * n =
          omega (arith, tail_size) in
        let count : length schema ≡ length (stored_values r) = omega (arith, shape.payload_count) in
        let loop =
          columns_loop_lem doubles clause mask file (stored_values r) 0 (p + 9 + 16 * n) rest []
            true (unfold write_strings in after_offsets.1)
            (unfold write_strings in omega (arith, tail_size)) in
        let target : p + 9 + 16 * n + length after_region ≡ p + 8 + length (record_body r) =
          omega (arith, tail_size) in
        rw (region, count, after_offsets.0, ← target) (unfold write_strings in loop)

    pub next_record_alive :
        (doubles : Doubles) (schema : Schema) (mask : List Bool) (clause : Option WhereNode)
        → length schema ≡ n + 1
        → deserialize_next_record doubles (good file p) schema mask clause ≡ (
            checked doubles clause 0 (stored_values r) true >>= λ w. done (
              if w then live else skip,
              project mask 0 (stored_values r),
              good file (p + 8 + length (record_body r)),
            ))
    unfolding deserialize_next_record
    next_record_alive doubles schema mask clause columns =
        let whole = columns_alive doubles schema mask clause columns in
        rw (record_head_alive file p r rest (omega arith) lives h, deserialize_next_record, whole)
          (>>=_assoc (checked doubles clause 0 (stored_values r) true) _ _)

    pub next_key_alive :
        (pk : Text) (offset : ℕ)
        → deserialize_next_primary_key n (good file p) pk offset ≡ record {
          indicator = live;
          pk_val = r.primary_key;
          offset = p + 8;
          stream = good file (p + 8 + length (record_body r));
        }
    unfolding deserialize_next_primary_key
    next_key_alive pk offset =
        let sizes = length-append {0} (write_string r.primary_key) (write_strings r.payload) in
        let (now, _) =
          read_value_lem file (p + 9 + 16 * n) r.primary_key (write_strings r.payload ++ rest)
            (after_offsets.1 ∙ append_assoc _ _ rest)
            (omega (arith, tail_size, sizes, length-write_string r.primary_key)) in
        let left : u64_sub (length (record_body r)) (1 + 16 * n + 8 + length r.primary_key)
            ≡ length (write_strings r.payload) =
          omega (arith, tail_size, sizes, length-write_string r.primary_key) in
        let target : p
              + 9
              + 16 * n
              + length (write_string r.primary_key)
              + length (write_strings r.payload)
            ≡ p + 8 + length (record_body r) =
          omega (arith, tail_size, sizes) in
        rw (
          record_head_alive file p r rest (omega arith) lives h,
          deserialize_next_primary_key,
          region_of,
          after_offsets.0,
          now,
          left,
          seek_cur_lem file (p + 9 + 16 * n + length (write_string r.primary_key))
              (length (write_strings r.payload)) (omega (arith, target)),
          target,
        )
