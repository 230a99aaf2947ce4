-- ===== src/Storage/Scan/Index.antt =====
-- extractPrimaryKeysIndex (deserialization/extract-pks.cpp) on a well-formed table file.
use bsc_thesis.Base.{
  lookup, map_insert, ℕ, zero, suc, ◌+◌, ◌^◌, ◌<◌, ◌≡◌, refl, ◌∙◌, List, [], ◌∷◌, Option, none,
  some, Text, text_eq, text_eq_iff, length, All, drop, arith, length-append, if◌then◌else◌,
  Bool-cases, inl, inr,
}
use bsc_thesis.Status.{done}
use bsc_thesis.Stream.Reading.{good, bad}
use bsc_thesis.Storage.{
  is_tombstone, endoftable, TableRecord, record_body, record_bytes, records_bytes, IsRecord,
}
use bsc_thesis.Storage.Deserializer.{deserialize_next_primary_key}
use bsc_thesis.Storage.Layout.{record_head_end, length-record_bytes, next_record}
use bsc_thesis.Storage.Reads.{next_key_dead, next_key_alive}
use bsc_thesis.Storage.Scan.{Index, index_loop, extract_primary_keys_index}

next_key_end :
    (file : List ℕ) (p n : ℕ) (pk : Text) (offset : ℕ)
    → drop p file ≡ []
    → deserialize_next_primary_key n (good file p) pk offset
      ≡ record { indicator = endoftable; pk_val = pk; offset = offset; stream = bad file p }
unfolding deserialize_next_primary_key
next_key_end file p n pk offset h = rw (record_head_end file p h, deserialize_next_primary_key)

-- The offset of the type region of the first live record with this key, where the records stand
-- from position `p` on.
unfoldable pub find_live : Text → ℕ → List TableRecord → Option ℕ
find_live key p [] = none
find_live key p (r ∷ rs) =
    let rest = find_live key (p + 8 + length (record_body r)) rs in
    if is_tombstone r.record_type
    then rest
    else (if text_eq r.primary_key key then some (p + 8) else rest)

abbrev or_else : Option ℕ → Option ℕ → Option ℕ
or_else none o = o
or_else (some x) o = some x

live_index : ℕ → List TableRecord → Index → Index
live_index p [] index = index
live_index p (r ∷ rs) index =
    live_index (p + 8 + length (record_body r)) rs
      (if is_tombstone r.record_type then index else map_insert r.primary_key (p + 8) index)

lookup-map_insert :
    (key k : Text) (offset : ℕ) (index : Index)
    → lookup key (map_insert k offset index)
      ≡ or_else (lookup key index) (if text_eq k key then some offset else none)
unfolding map_insert lookup
lookup-map_insert key k offset index = ground (arith, text_eq_iff k key)

lookup-live_index :
    (key : Text) (rs : List TableRecord) (p : ℕ) (index : Index)
    → lookup key (live_index p rs index) ≡ or_else (lookup key index) (find_live key p rs)
unfolding live_index find_live
lookup-live_index key [] p index = ground arith
lookup-live_index key (r ∷ rs) p index = ground (
  arith,
  lookup-live_index key rs (p + 8 + length (record_body r)) index,
  lookup-live_index key rs (p + 8 + length (record_body r))
      (map_insert r.primary_key (p + 8) index),
  lookup-map_insert key r.primary_key (p + 8) index,
)

module _ (file : List ℕ) (n : ℕ) where
  index_loop_lem :
      (rs : List TableRecord) (fuel p : ℕ) (pk : Text) (offset : ℕ) (index : Index)
      → All (IsRecord n) rs
      → drop p file ≡ records_bytes rs
      → p + length (records_bytes rs) < 2 ^ 63
      → length rs < fuel
      → index_loop fuel n (good file p) pk offset index ≡ done (live_index p rs index)
  unfolding index_loop records_bytes live_index
  index_loop_lem rs zero p pk offset index shapes h fits enough = absurd (omega arith)
  index_loop_lem [] (suc fuel) p pk offset index shapes h fits enough =
      rw (next_key_end file p n pk offset h)
  index_loop_lem (r ∷ rs) (suc fuel) p pk offset index shapes h fits enough =
      let sizes = length-append {0} (record_bytes r) (records_bytes rs) in
      let ahead = next_record file p r (records_bytes rs) h in
      let fits' : p + 8 + length (record_body r) < 2 ^ 63 =
        omega (arith, sizes, length-record_bytes r) in
      let ih = λ (pk' : Text) (offset' : ℕ) (index' : Index).
        index_loop_lem rs fuel (p + 8 + length (record_body r)) pk' offset' index' shapes.1 ahead
          (omega (arith, sizes, length-record_bytes r)) (omega arith) in
      elim (Bool-cases (is_tombstone r.record_type)) [
        | inl dies ↦
            rw (next_key_dead file p n r _ h fits' pk offset dies, dies) (ih pk offset index)
        | inr lives ↦
            rw (next_key_alive file p n r _ h fits' shapes.0 lives pk offset, lives)
              (ih r.primary_key (p + 8) (map_insert r.primary_key (p + 8) index))
      ]

  -- On a good stream in front of the records of a table, extractPrimaryKeysIndex gives an index
  -- that has a key exactly where a live record has it, with the offset of the type region of the
  -- first such record.
  pub extract_lem :
      (rs : List TableRecord) (fuel p : ℕ)
      → All (IsRecord n) rs
      → drop p file ≡ records_bytes rs
      → p + length (records_bytes rs) < 2 ^ 63
      → length rs < fuel
      → (index : Index) × (extract_primary_keys_index fuel n (good file p) ≡ done index)
        × ((key : Text) → lookup key index ≡ find_live key p rs)
  unfolding extract_primary_keys_index
  extract_lem rs fuel p shapes h fits enough = (
    live_index p rs [],
    index_loop_lem rs fuel p [] 0 [] shapes h fits enough,
    λ key. lookup-live_index key rs p [] ∙ (unfold lookup in refl),
  )
