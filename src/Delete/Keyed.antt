-- ===== src/Delete/Keyed.antt =====
-- deleteData (DBEngine/filehandler/handlers/delete.cpp) on a table of the session, where it looks a key up.
use bsc_thesis.Base.{
  ℕ, ◌+◌, ◌<◌, ◌≡◌, refl, sym, ap, ◌∙◌, true, false, List, [], ◌∷◌, none, some, Text, text_eq,
  text_eq_iff, length, All, arith, length-append, if◌then◌else◌, Bool-cases, inl, inr,
}
use bsc_thesis.Ast.{WhereNode}
use bsc_thesis.Utils.Columns.{contains, Distinct}
use bsc_thesis.Condition.{Doubles}
use bsc_thesis.Storage.{
  is_tombstone, TableRecord, record_body, record_bytes, records_bytes, IsRecord,
}
use bsc_thesis.Storage.Reads.{stored_values}
use bsc_thesis.Storage.Layout.{length-record_bytes}
use bsc_thesis.Storage.Scan.Index.{find_live}
use bsc_thesis.Storage.Table.{IsTable, length-table_file}
use bsc_thesis.Marking.InPlace.{killed, length-killed}
use bsc_thesis.Marking.Effects.{killed-IsRecord}
use bsc_thesis.Select.Indexed.{find_live-absent, live_keys, IsKeyLookup, meets_key, or_false}
use bsc_thesis.Handlers.Rows.{rows, remaining}
use bsc_thesis.Delete.ByKey.{without_key}

without_key-All :
    (key : Text) (n : ℕ) (rs : List TableRecord)
    → All (IsRecord n) rs
    → All (IsRecord n) (without_key key rs)
unfolding without_key
without_key-All key n [] shapes = tt
without_key-All key n (r ∷ rs) shapes =
    let later = without_key-All key n rs shapes.1 in
    elim (Bool-cases (is_tombstone r.record_type)) [
      | inl dies ↦ rw dies (shapes.0, later)
      | inr lives ↦ elim (Bool-cases (text_eq r.primary_key key)) [
        | inl same ↦ rw (lives, same) (killed-IsRecord n r shapes.0, shapes.1)
        | inr other ↦ rw (lives, other) (shapes.0, later)
      ]
    ]

length-without_key :
    (key : Text) (rs : List TableRecord)
    → length (records_bytes (without_key key rs)) ≡ length (records_bytes rs)
unfolding without_key records_bytes
length-without_key key [] = refl
length-without_key key (r ∷ rs) =
    let sizes = λ (r' : TableRecord) (bytes : List ℕ). length-append {0} (record_bytes r') bytes in
    let kept : length (record_bytes r) + length (records_bytes (without_key key rs))
        ≡ length (record_bytes r) + length (records_bytes rs) =
      ap (λ k. length (record_bytes r) + k) (length-without_key key rs) in
    let later =
      sizes r (records_bytes (without_key key rs)) ∙ kept ∙ sym (sizes r (records_bytes rs)) in
    elim (Bool-cases (is_tombstone r.record_type)) [
      | inl dies ↦ rw dies later
      | inr lives ↦ elim (Bool-cases (text_eq r.primary_key key)) [
        | inl same ↦
            rw (lives, same)
              (omega (
                arith,
                sizes r (records_bytes rs),
                sizes (killed r) (records_bytes rs),
                length-record_bytes r,
                length-record_bytes (killed r),
                length-killed r,
              ))
        | inr other ↦ rw (lives, other) later
      ]
    ]

pub without_key-IsTable :
    (key : Text) (n : ℕ) (rs : List TableRecord) → IsTable n rs → IsTable n (without_key key rs)
without_key-IsTable key n rs wf = record {
  shapes = without_key-All key n rs wf.shapes;
  size = omega (
    arith,
    wf.size,
    length-table_file (without_key key rs),
    length-table_file rs,
    length-without_key key rs,
  );
}

pub find_live-positive :
    (key : Text) (p : ℕ) (rs : List TableRecord) (offset : ℕ)
    → find_live key p rs ≡ some offset
    → p < offset
unfolding find_live
find_live-positive key p [] offset h = absurd cc
find_live-positive key p (r ∷ rs) offset h = elim (Bool-cases (is_tombstone r.record_type)) [
  | inl dies ↦
      let later =
        find_live-positive key (p + 8 + length (record_body r)) rs offset (rw dies at h) in
      omega arith
  | inr lives ↦ elim (Bool-cases (text_eq r.primary_key key)) [
    | inl same ↦ let here : some (p + 8) ≡ some offset = rw (lives, same) at h in ground arith
    | inr other ↦
        let later =
          find_live-positive key (p + 8 + length (record_body r)) rs offset
            (rw (lives, other) at h) in
        omega arith
  ]
]

-- Where no key stands twice, marking the record of a key takes it, and no other, from the index.
pub find_live-without_key :
    (key k : Text) (p : ℕ) (rs : List TableRecord)
    → Distinct (live_keys rs)
    → find_live k p (without_key key rs) ≡ (if text_eq key k then none else find_live k p rs)
unfolding find_live without_key live_keys
find_live-without_key key k p [] distinct = ground arith
find_live-without_key key k p (r ∷ rs) distinct = elim (Bool-cases (is_tombstone r.record_type)) [
  | inl dies ↦
      rw (dies, dies)
        (find_live-without_key key k (p + 8 + length (record_body r)) rs (rw dies at distinct))
  | inr lives ↦
      let parts : (contains r.primary_key (live_keys rs) ≡ false) × Distinct (live_keys rs) =
        rw lives at distinct in
      elim (Bool-cases (text_eq r.primary_key key)) [
        | inl same ↦
            let here : text_eq r.primary_key k ≡ true
                → find_live k (p + 8 + length (record_body r)) rs ≡ none =
              λ hit.
                let e = (text_eq_iff r.primary_key k).0 hit in
                find_live-absent k (p + 8 + length (record_body r)) rs (rw e at parts.0) in
            rw (lives, same, length-killed r)
              (ground (
                arith,
                here,
                text_eq_iff r.primary_key key,
                text_eq_iff r.primary_key k,
                text_eq_iff key k,
              ))
        | inr other ↦
            let later = find_live-without_key key k (p + 8 + length (record_body r)) rs parts.1 in
            rw (lives, other, lives, later)
              (ground (
                arith,
                text_eq_iff r.primary_key key,
                text_eq_iff r.primary_key k,
                text_eq_iff key k,
              ))
      ]
]

module _ (doubles : Doubles) (clause : WhereNode) (key : Text)
    (keyed : IsKeyLookup clause key) where
  remaining_absent :
      (rs : List TableRecord)
      → contains key (live_keys rs) ≡ false
      → remaining doubles (some clause) (rows rs) ≡ rows rs
  unfolding rows remaining live_keys contains
  remaining_absent [] absent = refl
  remaining_absent (r ∷ rs) absent = elim (Bool-cases (is_tombstone r.record_type)) [
    | inl dies ↦ rw dies (remaining_absent rs (rw dies at absent))
    | inr lives ↦
        let parts =
          or_false (text_eq r.primary_key key) (contains key (live_keys rs)) (rw lives at absent) in
        rw (lives, meets_key doubles clause key keyed r, parts.0)
          (ap (λ rest. stored_values r ∷ rest) (remaining_absent rs parts.1))
  ]

  -- Where no key stands twice, marking the record of a key leaves the rows with another key.
  pub rows-without_key :
      (rs : List TableRecord)
      → Distinct (live_keys rs)
      → rows (without_key key rs) ≡ remaining doubles (some clause) (rows rs)
  unfolding rows remaining live_keys without_key
  rows-without_key [] distinct = refl
  rows-without_key (r ∷ rs) distinct = elim (Bool-cases (is_tombstone r.record_type)) [
    | inl dies ↦ rw (dies, dies) (rows-without_key rs (rw dies at distinct))
    | inr lives ↦
        let parts : (contains r.primary_key (live_keys rs) ≡ false) × Distinct (live_keys rs) =
          rw lives at distinct in
        elim (Bool-cases (text_eq r.primary_key key)) [
          | inl same ↦
              let e = (text_eq_iff r.primary_key key).0 same in
              rw (lives, same, meets_key doubles clause key keyed r, same)
                (sym (remaining_absent rs (rw e at parts.0)))
          | inr other ↦
              rw (lives, other, lives, meets_key doubles clause key keyed r, other)
                (ap (λ rest. stored_values r ∷ rest) (rows-without_key rs parts.1))
        ]
  ]
