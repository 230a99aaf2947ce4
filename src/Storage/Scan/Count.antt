-- ===== src/Storage/Scan/Count.antt =====
-- calculateTombstoneRatio (compactor/ratio-calc.cpp) on a well-formed table file.
use bsc_thesis.Base.{
  ℕ, zero, suc, ◌+◌, ◌^◌, ◌<◌, ◌≡◌, ◌∙◌, Bool, List, [], ◌∷◌, length, drop, arith, length-append,
  if◌then◌else◌, Bool-cases, inl, inr,
}
use bsc_thesis.Status.{done}
use bsc_thesis.Stream.Reading.{good, bad}
use bsc_thesis.Storage.{
  is_tombstone, endoftable, TableRecord, record_body, record_bytes, records_bytes,
}
use bsc_thesis.Storage.Deserializer.{deserialize_next_record_type}
use bsc_thesis.Storage.Layout.{record_head_end, length-record_bytes, next_record}
use bsc_thesis.Storage.Reads.{record_type_dead, record_type_alive}
use bsc_thesis.Storage.Scan.{count_loop}

next_type_end :
    (file : List ℕ) (p : ℕ)
    → drop p file ≡ []
    → deserialize_next_record_type (good file p) ≡ (endoftable, bad file p)
unfolding deserialize_next_record_type
next_type_end file p h = rw (record_head_end file p h, deserialize_next_record_type)

unfoldable pub tombstone_count : List TableRecord → ℕ
tombstone_count [] = 0
tombstone_count (r ∷ rs) =
    let rest = tombstone_count rs in if is_tombstone r.record_type then rest + 1 else rest

module _ (is_silent_mode : Bool) (file : List ℕ) where
  -- The loop counts the tombstones and the records of a well-formed table, in silent mode or not.
  pub count_loop_lem :
      (rs : List TableRecord) (fuel p tombstones total : ℕ)
      → drop p file ≡ records_bytes rs
      → p + length (records_bytes rs) < 2 ^ 63
      → length rs < fuel
      → count_loop is_silent_mode fuel (good file p) tombstones total
        ≡ done (tombstones + tombstone_count rs, total + length rs)
  unfolding count_loop records_bytes tombstone_count
  count_loop_lem rs zero p tombstones total h fits enough = absurd (omega arith)
  count_loop_lem [] (suc fuel) p tombstones total h fits enough =
      rw (next_type_end file p h) (ground arith)
  count_loop_lem (r ∷ rs) (suc fuel) p tombstones total h fits enough =
      let sizes = length-append {0} (record_bytes r) (records_bytes rs) in
      let ahead = next_record file p r (records_bytes rs) h in
      let fits' : p + 8 + length (record_body r) < 2 ^ 63 =
        omega (arith, sizes, length-record_bytes r) in
      let ih = λ (tombstones' : ℕ).
        count_loop_lem rs fuel (p + 8 + length (record_body r)) tombstones' (total + 1) ahead
          (omega (arith, sizes, length-record_bytes r)) (omega arith) in
      elim (Bool-cases (is_tombstone r.record_type)) [
        | inl dies ↦
            rw (record_type_dead file p 0 r _ h fits' dies, dies)
              (ih (tombstones + 1) ∙ ground arith)
        | inr lives ↦
            rw (record_type_alive file p 0 r _ h fits' lives, lives) (ih tombstones ∙ ground arith)
      ]
