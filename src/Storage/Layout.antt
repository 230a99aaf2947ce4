-- ===== src/Storage/Layout.antt =====
-- Lengths of the parts of a record, and what the shared opening of the deserializers does at a
-- record boundary.
use bsc_thesis.Base.{
  ℕ, ◌+◌, ◌*◌, ◌^◌, ◌<◌, ◌≡◌, refl, ap, ◌∙◌, true, false, List, [], ◌∷◌, ◌++◌, Text, length, All,
  drop, arith, length-append, append_assoc,
}
use bsc_thesis.Stream.{read}
use bsc_thesis.Stream.Bytes.{le_value, length-le_bytes, le_value-le_bytes}
use bsc_thesis.Stream.Reading.{good, bad, drop_step, read_lem, read_end, seek_cur_lem}
use bsc_thesis.Storage.{
  u64_sub, is_tombstone, ColumnOffset, write_u64, write_column_offset, write_column_offsets,
  write_string, write_strings, TableRecord, record_body, record_bytes,
}
use bsc_thesis.Storage.Deserializer.{at_end, dead, alive, record_head, read_value}

pub le_value-write_u64 : (n : ℕ) → n < 2 ^ 64 → le_value (write_u64 n) ≡ n
le_value-write_u64 n h = le_value-le_bytes 8 n (omega arith)

pub length-write_u64 : (n : ℕ) → length (write_u64 n) ≡ 8
length-write_u64 n = length-le_bytes 8 n

pub length-write_string : (t : Text) → length (write_string t) ≡ 8 + length t
unfolding write_string
length-write_string t =
    omega (arith, length-append {0} (write_u64 (length t)) t, length-write_u64 (length t))

pub length-write_column_offset :
    (e : ColumnOffset) → length e.padding ≡ 7 → length (write_column_offset e) ≡ 16
unfolding write_column_offset
length-write_column_offset e h = omega (
  arith,
  length-append {0} (write_u64 e.offset) (e.col_id ∷ e.padding),
  length-write_u64 e.offset,
)

pub length-write_column_offsets :
    (es : List ColumnOffset)
    → All (λ (e : ColumnOffset). length e.padding ≡ 7) es
    → length (write_column_offsets es) ≡ 16 * length es
unfolding write_column_offsets
length-write_column_offsets [] h = omega arith
length-write_column_offsets (e ∷ es) h = omega (
  arith,
  length-append {0} (write_column_offset e) (write_column_offsets es),
  length-write_column_offset e h.0,
  length-write_column_offsets es h.1,
)

pub length-record_bytes : (r : TableRecord) → length (record_bytes r) ≡ 8 + length (record_body r)
unfolding record_bytes
length-record_bytes r = omega (
  arith,
  length-append {0} (write_u64 (length (record_body r))) (record_body r),
  length-write_u64 (length (record_body r)),
)

-- What follows the type byte of a record.
abbrev pub record_tail : TableRecord → List ℕ
record_tail r =
    write_column_offsets r.column_offset_map
    ++ (write_string r.primary_key ++ write_strings r.payload)

pub record_body-tail : (r : TableRecord) → record_body r ≡ r.record_type ∷ record_tail r
unfolding record_body
record_body-tail r = refl

pub length-record_body : (r : TableRecord) → length (record_body r) ≡ 1 + length (record_tail r)
unfolding record_body
length-record_body r = omega arith

-- A good stream in front of a record.
module _ (file : List ℕ) (p : ℕ) (r : TableRecord) (rest : List ℕ) where
  pub type_region :
      drop p file ≡ record_bytes r ++ rest
      → drop (p + 8) file ≡ r.record_type ∷ (record_tail r ++ rest)
  unfolding record_bytes record_body
  type_region h =
      drop_step file p 8 (write_u64 (length (record_body r))) (record_body r ++ rest)
        (h ∙ append_assoc _ _ rest) (length-write_u64 _)

  pub tail_region : drop p file ≡ record_bytes r ++ rest → drop (p + 9) file ≡ record_tail r ++ rest
  tail_region h =
      let e : p + 8 + 1 ≡ p + 9 = omega arith in
      rw e at
        (drop_step file (p + 8) 1 (r.record_type ∷ []) (record_tail r ++ rest) (type_region h) refl)

  pub next_record :
      drop p file ≡ record_bytes r ++ rest → drop (p + 8 + length (record_body r)) file ≡ rest
  next_record h =
      let e : p + (8 + length (record_body r)) ≡ p + 8 + length (record_body r) = omega arith in
      rw e at (drop_step file p _ (record_bytes r) rest h (length-record_bytes r))

  -- The two reads of the opening.
  record_head_reads :
      drop p file ≡ record_bytes r ++ rest
      → (read 8 (good file p) ≡ (write_u64 (length (record_body r)), good file (p + 8)))
        × (read 1 (good file (p + 8)) ≡ (r.record_type ∷ [], good file (p + 9)))
  unfolding record_bytes
  record_head_reads h = (
    read_lem file p 8 _ (record_body r ++ rest) (h ∙ append_assoc _ _ rest) (length-write_u64 _),
    read_lem file (p + 8) 1 (r.record_type ∷ []) (record_tail r ++ rest) (type_region h) refl
        ∙ ap (λ (q : ℕ). (r.record_type ∷ [], good file q)) (omega arith),
  )

  pub record_head_alive :
      length (record_body r) < 2 ^ 63
      → is_tombstone r.record_type ≡ false
      → drop p file ≡ record_bytes r ++ rest
      → record_head (good file p)
        ≡ alive (length (record_body r)) (p + 8) r.record_type (good file (p + 9))
  unfolding record_head
  record_head_alive short lives h =
      let (first, second) = record_head_reads h in
      rw (first, second, lives, le_value-write_u64 (length (record_body r)) (omega arith))

  pub record_head_dead :
      p + 8 + length (record_body r) < 2 ^ 63
      → is_tombstone r.record_type ≡ true
      → drop p file ≡ record_bytes r ++ rest
      → record_head (good file p) ≡ dead (good file (p + 8 + length (record_body r)))
  unfolding record_head
  record_head_dead short dies h =
      let (first, second) = record_head_reads h in
      let step : u64_sub (length (record_body r)) 1 ≡ length (record_tail r) =
        omega (arith, length-record_body r) in
      let target : p + 9 + length (record_tail r) ≡ p + 8 + length (record_body r) =
        omega (arith, length-record_body r) in
      rw (first, second, dies, le_value-write_u64 (length (record_body r)) (omega arith), step)
        (ap dead (seek_cur_lem file (p + 9) _ (omega (arith, target)) ∙ ap (good file) target))

pub record_head_end :
    (file : List ℕ) (p : ℕ) → drop p file ≡ [] → record_head (good file p) ≡ at_end (bad file p)
unfolding record_head
record_head_end file p h = rw (read_end file p 8 h (omega arith))

-- One string of the record is read whole.
pub read_value_lem :
    (file : List ℕ) (p : ℕ) (t : Text) (rest : List ℕ)
    → drop p file ≡ write_string t ++ rest
    → length t < 2 ^ 63
    → (read_value (good file p) ≡ (t, good file (p + length (write_string t))))
      × (drop (p + length (write_string t)) file ≡ rest)
unfolding read_value
read_value_lem file p t rest h short =
    let parts : drop p file ≡ write_u64 (length t) ++ (t ++ rest) =
      h ∙ (unfold write_string in append_assoc _ _ rest) in
    let inner : drop (p + 8) file ≡ t ++ rest =
      drop_step file p 8 _ (t ++ rest) parts (length-write_u64 (length t)) in
    let target : p + 8 + length t ≡ p + length (write_string t) =
      omega (arith, length-write_string t) in
    let first = read_lem file p 8 _ (t ++ rest) parts (length-write_u64 (length t)) in
    (
      rw (first, le_value-write_u64 (length t) (omega arith))
          (read_lem file (p + 8) (length t) t rest inner refl
            ∙ ap (λ (q : ℕ). (t, good file q)) target),
      drop_step file p _ (write_string t) rest h refl,
    )
