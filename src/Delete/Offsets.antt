-- ===== src/Delete/Offsets.antt =====
-- The search of performSequentialDelete (DBEngine/filehandler/handlers/delete.cpp) for a column offset.
use bsc_thesis.Base.{
  ℕ, suc, ◌+◌, ◌*◌, ◌^◌, ◌<◌, ◌≡◌, refl, sym, ap, ◌∙◌, List, [], ◌∷◌, ◌++◌, Text, length, All, drop,
  take, get_or, arith, append_assoc, if◌then◌else◌, ◌==◌,
}
use bsc_thesis.Status.{done}
use bsc_thesis.Stream.Bytes.{le_bytes, le_value}
use bsc_thesis.Stream.Reading.{good, read_lem, drop_step}
use bsc_thesis.Storage.{
  ColumnOffset, write_column_offset, write_column_offsets, write_string, write_strings,
}
use bsc_thesis.Storage.Layout.{le_value-write_u64, length-write_column_offset}
use bsc_thesis.Delete.{find_offset}

-- The last offset of an entry with this code.
unfoldable pub offset_of : ℕ → List ColumnOffset → ℕ → ℕ
offset_of colcode [] final_offset = final_offset
offset_of colcode (entry ∷ entries) final_offset =
    offset_of colcode entries (if entry.col_id == colcode then entry.offset else final_offset)

entry_parts :
    (entry : ColumnOffset)
    → length entry.padding ≡ 7
    → entry.offset < 2 ^ 64
    → (le_value (take 8 (write_column_offset entry)) ≡ entry.offset)
      × (get_or (write_column_offset entry) 8 0 ≡ entry.col_id)
unfolding write_column_offset le_bytes
entry_parts entry pad small = (le_value-write_u64 entry.offset small, refl)

pub find_offset_lem :
    (colcode : ℕ) (file : List ℕ) (entries : List ColumnOffset) (p : ℕ) (rest : List ℕ)
    (final_offset : ℕ)
    → All (λ (entry : ColumnOffset). length entry.padding ≡ 7) entries
    → All (λ (entry : ColumnOffset). entry.offset < 2 ^ 64) entries
    → drop p file ≡ write_column_offsets entries ++ rest
    → find_offset colcode (length entries) (good file p) final_offset
      ≡ done (offset_of colcode entries final_offset, good file (p + 16 * length entries))
unfolding find_offset offset_of write_column_offsets
find_offset_lem colcode file [] p rest final_offset pads small h =
    ap (λ q. done (final_offset, good file q)) (omega arith)
find_offset_lem colcode file (entry ∷ entries) p rest final_offset pads small h =
    let bytes = write_column_offset entry in
    let size = length-write_column_offset entry pads.0 in
    let here : drop p file ≡ bytes ++ (write_column_offsets entries ++ rest) =
      h ∙ append_assoc bytes _ rest in
    let parts = entry_parts entry pads.0 small.0 in
    let ih =
      find_offset_lem colcode file entries (p + 16) rest
        (if entry.col_id == colcode then entry.offset else final_offset) pads.1 small.1
        (drop_step file p 16 bytes _ here size) in
    let target : p + 16 + 16 * length entries ≡ p + 16 * suc (length entries) = omega arith in
    rw (read_lem file p 16 bytes _ here size, parts.0, parts.1, ih, target) refl

pub write_strings-append :
    (xs ys : List Text) → write_strings (xs ++ ys) ≡ write_strings xs ++ write_strings ys
unfolding write_strings
write_strings-append [] ys = refl
write_strings-append (x ∷ xs) ys =
    ap (λ bytes. write_string x ++ bytes) (write_strings-append xs ys)
    ∙ sym (append_assoc (write_string x) _ _)
