-- ===== src/Validator/Unique.antt =====
-- The primary keys that validateInsertSemantics (DBEngine/services/semantic_validator) accepts, against the
-- rows of the table.
use bsc_thesis.Base.{
  ℕ, ◌+◌, ◌≡◌, refl, sym, ◌∙◌, false, List, [], ◌∷◌, none, some, Text, text_eq, All, length, lookup,
  Bool-cases, inl, inr,
}
use bsc_thesis.Status.{done}
use bsc_thesis.Ast.{InsertNode}
use bsc_thesis.Utils.Strings.{remove_outer_quotes}
use bsc_thesis.Utils.Columns.{Schema, contains, Distinct}
use bsc_thesis.Storage.{is_tombstone, TableRecord, record_body}
use bsc_thesis.Storage.Scan.Index.{find_live}
use bsc_thesis.Select.Indexed.{live_keys}
use bsc_thesis.Handlers.{World}
use bsc_thesis.Handlers.Stored.{IsStored}
use bsc_thesis.Validator.{passed, validate_insert}
use bsc_thesis.Validator.Inserts.{statement_keys, inserted_keys}

no_live_key :
    (key : Text) (p : ℕ) (rs : List TableRecord)
    → find_live key p rs ≡ none
    → contains key (live_keys rs) ≡ false
unfolding find_live live_keys contains
no_live_key key p [] h = refl
no_live_key key p (r ∷ rs) h = elim (Bool-cases (is_tombstone r.record_type)) [
  | inl dies ↦ rw dies (no_live_key key (p + 8 + length (record_body r)) rs (rw dies at h))
  | inr lives ↦ elim (Bool-cases (text_eq r.primary_key key)) [
    | inl same ↦ let never : some (p + 8) ≡ none = rw (lives, same) at h in absurd cc
    | inr other ↦
        rw (lives, other)
          (no_live_key key (p + 8 + length (record_body r)) rs (rw (lives, other) at h))
  ]
]

-- The text that is stored for a key without quotes is the key of no live record.
abbrev pub NewKey : List TableRecord → Text → Type 0
NewKey rs k = remove_outer_quotes k ≡ k → contains (remove_outer_quotes k) (live_keys rs) ≡ false

new_keys :
    (table_name primary_key : Text) (schema : Schema) (n : ℕ) (w : World) (rs : List TableRecord)
    (stored : IsStored table_name schema primary_key n w rs) (keys : List Text)
    → All (λ (k : Text). lookup k stored.index ≡ none) keys
    → All (NewKey rs) keys
new_keys table_name primary_key schema n w rs stored [] missing = tt
new_keys table_name primary_key schema n w rs stored (k ∷ keys) missing = (
  (λ plain.
      let absent = no_live_key k 32 rs (sym (stored.agrees k) ∙ missing.0) in rw plain absent),
  new_keys table_name primary_key schema n w rs stored keys missing.1,
)

-- The primary keys of an INSERT into a stored table that validateInsertSemantics accepts differ from one another
-- as they are written, and one that is written without quotes is the key of no live record of the table
-- file.
pub accepted_keys_are_new :
    (node : InsertNode) (schema : Schema) (primary_key : Text) (n : ℕ) (w : World)
    (rs : List TableRecord) (seen : List Text)
    → IsStored node.table_name schema primary_key n w rs
    → validate_insert node w.ctx ≡ done (passed seen)
    → Distinct (statement_keys schema node.records)
      × All (NewKey rs) (statement_keys schema node.records)
accepted_keys_are_new node schema primary_key n w rs seen stored accepted =
    let (_, distinct, missing) =
      inserted_keys node w.ctx schema primary_key stored.index seen stored.known stored.key
        stored.indexed accepted in
    (
      distinct,
      new_keys node.table_name primary_key schema n w rs stored (statement_keys schema node.records)
          missing,
    )
