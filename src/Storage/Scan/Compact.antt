-- ===== src/Storage/Scan/Compact.antt =====
-- compactTable (compactor/compact.cpp) and copyNextLiveRecord on a well-formed table file.
use bsc_thesis.Base.{
  ℕ, zero, suc, ◌+◌, ◌-◌, ◌^◌, ◌<◌, ◌≡◌, refl, ap, ◌∙◌, Bool, true, false, List, [], ◌∷◌, ◌++◌,
  Text, length, All, drop, arith, length-append, append-nil, append_assoc, if◌then◌else◌,
  Bool-cases, inl, inr,
}
use bsc_thesis.Status.{done}
use bsc_thesis.Stream.Reading.{good, bad, drop_step, read_lem}
use bsc_thesis.Storage.{
  is_tombstone, endoftable, tombstone, live, ColumnOffset, write_u64, write_column_offset,
  write_column_offsets, write_string, write_strings, TableRecord, record_body, record_bytes,
  records_bytes, IsRecord,
}
use bsc_thesis.Storage.Layout.{
  le_value-write_u64, length-write_u64, length-write_string, length-write_column_offset,
  length-record_body, record_head_alive, record_head_dead, record_head_end, length-record_bytes,
  tail_region, next_record,
}
use bsc_thesis.Storage.Scan.{
  copy_offsets, copy_value, copy_values, copy_next_live_record, compact_loop,
}

module _ (file : List ℕ) where
  copy_offsets_lem :
      (es : List ColumnOffset) (p : ℕ) (rest : List ℕ)
      → All (λ (e : ColumnOffset). length e.padding ≡ 7) es
      → drop p file ≡ write_column_offsets es ++ rest
      → (copy_offsets (length es) (good file p)
          ≡ done (write_column_offsets es, good file (p + length (write_column_offsets es))))
        × (drop (p + length (write_column_offsets es)) file ≡ rest)
  unfolding copy_offsets write_column_offsets
  copy_offsets_lem [] p rest paddings h = let e : p + 0 ≡ p = omega arith in (rw e, rw e h)
  copy_offsets_lem (e ∷ es) p rest paddings h =
      let wide = length-write_column_offset e paddings.0 in
      let now =
        read_lem file p 16 (write_column_offset e) (write_column_offsets es ++ rest)
          (h ∙ append_assoc _ _ rest) wide in
      let next =
        drop_step file p 16 (write_column_offset e) (write_column_offsets es ++ rest)
          (h ∙ append_assoc _ _ rest) wide in
      let (ih, after) = copy_offsets_lem es (p + 16) rest paddings.1 next in
      let target : p + 16 + length (write_column_offsets es)
          ≡ p + length (write_column_offset e ++ write_column_offsets es) =
        omega (arith, wide, length-append {0} (write_column_offset e) (write_column_offsets es)) in
      (rw (now, ih, target), rw target at after)

  pub copy_value_lem :
      (t : Text) (p : ℕ) (rest : List ℕ)
      → drop p file ≡ write_string t ++ rest
      → length t < 2 ^ 63
      → (copy_value (good file p) ≡ done (t, good file (p + length (write_string t))))
        × (drop (p + length (write_string t)) file ≡ rest)
  unfolding copy_value
  copy_value_lem t p rest h short =
      let parts : drop p file ≡ write_u64 (length t) ++ (t ++ rest) =
        h ∙ (unfold write_string in append_assoc _ _ rest) in
      let inner = drop_step file p 8 _ (t ++ rest) parts (length-write_u64 (length t)) in
      let first = read_lem file p 8 _ (t ++ rest) parts (length-write_u64 (length t)) in
      let second = read_lem file (p + 8) (length t) t rest inner refl in
      let target : p + 8 + length t ≡ p + length (write_string t) =
        omega (arith, length-write_string t) in
      let full : length t - length t ≡ 0 = omega arith in
      (
        rw (first, le_value-write_u64 (length t) (omega arith), second, full, append-nil, target),
        drop_step file p _ (write_string t) rest h refl,
      )

  copy_values_lem :
      (ts : List Text) (p : ℕ) (rest : List ℕ)
      → drop p file ≡ write_strings ts ++ rest
      → length (write_strings ts) < 2 ^ 63
      → copy_values (length ts) (good file p) ≡ done (ts, good file (p + length (write_strings ts)))
  unfolding copy_values write_strings
  copy_values_lem [] p rest h short = let e : p + 0 ≡ p = omega arith in rw e
  copy_values_lem (t ∷ ts) p rest h short =
      let sizes = length-append {0} (write_string t) (write_strings ts) in
      let (now, next) =
        copy_value_lem t p (write_strings ts ++ rest) (h ∙ append_assoc _ _ rest)
          (omega (arith, sizes, length-write_string t)) in
      let ih = copy_values_lem ts (p + length (write_string t)) rest next (omega (arith, sizes)) in
      let target : p + length (write_string t) + length (write_strings ts)
          ≡ p + length (write_string t ++ write_strings ts) =
        omega (arith, sizes) in
      rw (now, ih, target)

-- The records that are no tombstones.
unfoldable pub live_records : List TableRecord → List TableRecord
live_records [] = []
live_records (r ∷ rs) =
    let rest = live_records rs in if is_tombstone r.record_type then rest else r ∷ rest

copy_next_end :
    (file new_file : List ℕ) (p n : ℕ)
    → drop p file ≡ []
    → copy_next_live_record (good file p) new_file n ≡ done (endoftable, bad file p, new_file)
unfolding copy_next_live_record
copy_next_end file new_file p n h = rw (record_head_end file p h, copy_next_live_record)

-- A good stream in front of a record.
module _ (file : List ℕ) (p n : ℕ) (r : TableRecord) (rest : List ℕ)
    (h : drop p file ≡ record_bytes r ++ rest) (fits : p + 8 + length (record_body r) < 2 ^ 63)
    (new_file : List ℕ) where
  copy_next_dead :
      is_tombstone r.record_type ≡ true
      → copy_next_live_record (good file p) new_file n
        ≡ done (tombstone, good file (p + 8 + length (record_body r)), new_file)
  unfolding copy_next_live_record
  copy_next_dead dies = rw (record_head_dead file p r rest fits dies h, copy_next_live_record)

  -- The copy of a live record is the record, byte for byte.
  copy_next_alive :
      IsRecord n r
      → is_tombstone r.record_type ≡ false
      → copy_next_live_record (good file p) new_file n
        ≡ done (live, good file (p + 8 + length (record_body r)), new_file ++ record_bytes r)
  unfolding copy_next_live_record
  copy_next_alive shape lives =
      let offsets = r.column_offset_map in
      let strings = write_string r.primary_key ++ write_strings r.payload in
      let sizes = length-append {0} (write_column_offsets offsets) strings in
      let sizes' = length-append {0} (write_string r.primary_key) (write_strings r.payload) in
      let body = length-record_body r in
      let (first, at_key) =
        copy_offsets_lem file offsets (p + 9) (strings ++ rest) shape.paddings
          (tail_region file p r rest h ∙ append_assoc _ _ rest) in
      let key_start = p + 9 + length (write_column_offsets offsets) in
      let (second, at_payload) =
        copy_value_lem file r.primary_key key_start (write_strings r.payload ++ rest)
          (at_key ∙ append_assoc _ _ rest)
          (omega (arith, body, sizes, sizes', length-write_string r.primary_key)) in
      let third =
        copy_values_lem file r.payload (key_start + length (write_string r.primary_key)) rest
          at_payload (omega (arith, body, sizes, sizes')) in
      let target : key_start
            + length (write_string r.primary_key)
            + length (write_strings r.payload)
          ≡ p + 8 + length (record_body r) =
        omega (arith, body, sizes, sizes') in
      rw
        (
          record_head_alive file p r rest (omega arith) lives h,
          copy_next_live_record,
          ← shape.offsets_count,
          first,
          second,
          shape.offsets_count,
          ← shape.payload_count,
          third,
          target,
        )
        (unfold record_bytes record_body in refl)

module _ (is_silent_mode : Bool) (file : List ℕ) (n : ℕ) where
  pub compact_loop_lem :
      (rs : List TableRecord) (fuel p : ℕ) (new_file : List ℕ)
      → All (IsRecord n) rs
      → drop p file ≡ records_bytes rs
      → p + length (records_bytes rs) < 2 ^ 63
      → length rs < fuel
      → compact_loop is_silent_mode fuel (good file p) new_file n
        ≡ done (new_file ++ records_bytes (live_records rs))
  unfolding compact_loop records_bytes live_records
  compact_loop_lem rs zero p new_file shapes h fits enough = absurd (omega arith)
  compact_loop_lem [] (suc fuel) p new_file shapes h fits enough =
      rw (copy_next_end file new_file p n h, append-nil)
  compact_loop_lem (r ∷ rs) (suc fuel) p new_file shapes h fits enough =
      let sizes = length-append {0} (record_bytes r) (records_bytes rs) in
      let ahead = next_record file p r (records_bytes rs) h in
      let fits' : p + 8 + length (record_body r) < 2 ^ 63 =
        omega (arith, sizes, length-record_bytes r) in
      let ih = λ (new_file' : List ℕ).
        compact_loop_lem rs fuel (p + 8 + length (record_body r)) new_file' shapes.1 ahead
          (omega (arith, sizes, length-record_bytes r)) (omega arith) in
      elim (Bool-cases (is_tombstone r.record_type)) [
        | inl dies ↦ rw (copy_next_dead file p n r _ h fits' new_file dies, dies) (ih new_file)
        | inr lives ↦
            rw (copy_next_alive file p n r _ h fits' new_file shapes.0 lives, lives)
              (ih (new_file ++ record_bytes r) ∙ ap done (append_assoc new_file _ _))
      ]
