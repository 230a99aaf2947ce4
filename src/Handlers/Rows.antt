-- ===== src/Handlers/Rows.antt =====
-- The abstract table: the rows of the live records of a table file, and what the statements do to them.
use bsc_thesis.Base.{
  ◌≡◌, refl, ap, Bool, List, [], ◌∷◌, ◌++◌, Option, Text, if◌then◌else◌, Bool-cases, inl, inr,
}
use bsc_thesis.Ast.{WhereNode}
use bsc_thesis.Condition.{Doubles}
use bsc_thesis.Storage.{is_tombstone, TableRecord}
use bsc_thesis.Storage.Reads.{project, stored_values}
use bsc_thesis.Storage.Scan.Select.{meets, select_rows}
use bsc_thesis.Storage.Scan.Compact.{live_records}
use bsc_thesis.Marking.WholeFile.{marked_records}

-- The rows, the key's cell first.
unfoldable pub rows : List TableRecord → List (List Text)
rows [] = []
rows (r ∷ rs) =
    let rest = rows rs in if is_tombstone r.record_type then rest else stored_values r ∷ rest

-- The rows that meet a clause, and those that do not.
unfoldable pub matching : Doubles → Option WhereNode → List (List Text) → List (List Text)
matching doubles clause [] = []
matching doubles clause (row ∷ rest) =
    let others = matching doubles clause rest in
    if meets doubles clause row then row ∷ others else others

unfoldable pub remaining : Doubles → Option WhereNode → List (List Text) → List (List Text)
remaining doubles clause [] = []
remaining doubles clause (row ∷ rest) =
    let others = remaining doubles clause rest in
    if meets doubles clause row then others else row ∷ others

unfoldable pub projected : List Bool → List (List Text) → List (List Text)
projected mask [] = []
projected mask (row ∷ rest) = project mask 0 row ∷ projected mask rest

pub rows-append : (rs ss : List TableRecord) → rows (rs ++ ss) ≡ rows rs ++ rows ss
unfolding rows
rows-append [] ss = refl
rows-append (r ∷ rs) ss = elim (Bool-cases (is_tombstone r.record_type)) [
  | inl dies ↦ rw dies (rows-append rs ss)
  | inr lives ↦ rw lives (ap (λ rest. stored_values r ∷ rest) (rows-append rs ss))
]

pub rows-live : (rs : List TableRecord) → rows (live_records rs) ≡ rows rs
unfolding rows live_records
rows-live [] = refl
rows-live (r ∷ rs) = elim (Bool-cases (is_tombstone r.record_type)) [
  | inl dies ↦ rw dies (rows-live rs)
  | inr lives ↦ rw lives (rw lives (ap (λ rest. stored_values r ∷ rest) (rows-live rs)))
]

-- Marking the records that meet a clause leaves the other rows.
pub rows-marked :
    (doubles : Doubles) (clause : Option WhereNode) (rs : List TableRecord)
    → rows (marked_records doubles clause rs) ≡ remaining doubles clause (rows rs)
unfolding rows marked_records remaining
rows-marked doubles clause [] = refl
rows-marked doubles clause (r ∷ rs) = elim (Bool-cases (is_tombstone r.record_type)) [
  | inl dies ↦ rw dies (rw dies (rows-marked doubles clause rs))
  | inr lives ↦ elim (Bool-cases (meets doubles clause (stored_values r))) [
    | inl holds ↦ rw (lives, holds) (rows-marked doubles clause rs)
    | inr fails ↦
        rw (lives, fails)
          (rw lives (ap (λ rest. stored_values r ∷ rest) (rows-marked doubles clause rs)))
  ]
]

-- A SELECT sees nothing of the file but its rows.
pub select_rows-rows :
    (doubles : Doubles) (mask : List Bool) (clause : Option WhereNode) (rs : List TableRecord)
    → select_rows doubles mask clause rs ≡ projected mask (matching doubles clause (rows rs))
unfolding rows select_rows projected matching
select_rows-rows doubles mask clause [] = refl
select_rows-rows doubles mask clause (r ∷ rs) = elim (Bool-cases (is_tombstone r.record_type)) [
  | inl dies ↦ rw dies (select_rows-rows doubles mask clause rs)
  | inr lives ↦ elim (Bool-cases (meets doubles clause (stored_values r))) [
    | inl holds ↦
        rw (lives, holds)
          (ap (λ rest. project mask 0 (stored_values r) ∷ rest)
            (select_rows-rows doubles mask clause rs))
    | inr fails ↦ rw (lives, fails) (select_rows-rows doubles mask clause rs)
  ]
]
