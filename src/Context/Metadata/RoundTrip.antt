-- ===== src/Context/Metadata/RoundTrip.antt =====
-- What initializeUntypedTableMetadata (DBEngine/execution_context/src/initializers.cpp) reads of a
-- metadata file that createUntypedTable (DBEngine/filehandler/handlers/create_untyped.cpp) wrote.
use bsc_thesis.Base.{
  ℕ, ◌<◌, ◌≡◌, refl, sym, ap, ap₂, ◌∙◌, false, List, [], ◌∷◌, ◌++◌, Text, ◌==◌, length, All,
  All-append, arith, length-append, append_assoc, append-nil, map,
}
use bsc_thesis.Ast.{UntypedColumnDefNode}
use bsc_thesis.Utils.Columns.{Schema}
use bsc_thesis.Cli.{is_space}
use bsc_thesis.Handlers.Tables.{line_feed, modifiers_text, column_line, metadata_text}
use bsc_thesis.Context.Metadata.{
  pieces, skip_space, first_word, non_empty, read_column, read_schema,
}

-- No character of the text is this one.
abbrev pub Without : ℕ → Text → Type 0
Without c t = All (λ x. (x == c) ≡ false) t

-- No character of the text is white space.
abbrev pub HasNoSpace : Text → Type 0
HasNoSpace t = All (λ x. is_space x ≡ false) t

pieces-delimited :
    (d : ℕ) (t rest : Text) → Without d t → pieces d (t ++ (d ∷ rest)) ≡ t ∷ pieces d rest
unfolding pieces
pieces-delimited d [] rest clean = ground arith
pieces-delimited d (c ∷ t) rest clean = rw (clean.0, pieces-delimited d t rest clean.1) refl

pieces-last : (d c : ℕ) (t : Text) → Without d (c ∷ t) → pieces d (c ∷ t) ≡ (c ∷ t) ∷ []
unfolding pieces
pieces-last d c [] clean = rw clean.0 refl
pieces-last d c (c' ∷ t) clean =
    let later : pieces d (c' ∷ t) ≡ (c' ∷ t) ∷ [] = pieces-last d c' t clean.1 in
    rw (clean.0, later) refl

-- A modifier that survives a list with commas, in a file of lines.
pub record IsModifier (t : Text) : Type 0 where
  pub some_text : 0 < length t
  pub no_comma : Without 44 t
  pub no_line_feed : Without line_feed t

-- A name of one word, and such modifiers.
pub record IsColumn (col : UntypedColumnDefNode) : Type 0 where
  pub named : 0 < length col.name
  pub no_space : HasNoSpace col.name
  pub modifiers : All IsModifier col.modifiers

-- What a list of modifiers becomes: the space between name and modifiers sticks to the first.
abbrev pub spaced : List Text → List Text
spaced [] = []
spaced (modifier ∷ modifiers) = (32 ∷ modifier) ∷ modifiers

abbrev pub reread : UntypedColumnDefNode → UntypedColumnDefNode
reread col = record col { modifiers = spaced col.modifiers }

whole : (d : ℕ) (t : Text) → 0 < length t → Without d t → pieces d t ≡ t ∷ []
whole d [] long clean = absurd (omega arith)
whole d (c ∷ t) long clean = pieces-last d c t clean

-- The modifiers behind a text without a comma.
pieces-modifiers :
    (front : Text) (modifier : Text) (modifiers : List Text)
    → Without 44 front
    → All IsModifier (modifier ∷ modifiers)
    → pieces 44 (front ++ modifiers_text (modifier ∷ modifiers)) ≡ (front ++ modifier) ∷ modifiers
unfolding modifiers_text
pieces-modifiers front modifier [] clean (first, rest) =
    whole 44 (front ++ modifier) (omega (arith, length-append {0} front modifier, first.some_text))
      (All-append (λ x. (x == 44) ≡ false) front modifier clean first.no_comma)
pieces-modifiers front modifier (next ∷ modifiers) clean (first, rest) =
    ap (pieces 44) (sym (append_assoc front modifier (44 ∷ modifiers_text (next ∷ modifiers))))
    ∙ (pieces-delimited 44 (front ++ modifier) (modifiers_text (next ∷ modifiers))
          (All-append (λ x. (x == 44) ≡ false) front modifier clean first.no_comma)
        ∙ ap (λ ts. (front ++ modifier) ∷ ts) (pieces-modifiers [] next modifiers tt rest))

non_empty-All : (ts : List Text) → All IsModifier ts → non_empty ts ≡ ts
unfolding non_empty
non_empty-All [] good = refl
non_empty-All ([] ∷ ts) good = absurd (omega (arith, good.0.some_text))
non_empty-All ((c ∷ t) ∷ ts) good = ap (λ rest. (c ∷ t) ∷ rest) (non_empty-All ts good.1)

first_word-space :
    (name rest : Text) → HasNoSpace name → first_word (name ++ (32 ∷ rest)) ≡ (name, 32 ∷ rest)
unfolding first_word is_space
first_word-space [] rest clean = refl
first_word-space (c ∷ name) rest clean = rw (clean.0, first_word-space name rest clean.1) refl

first_word-end : (name : Text) → HasNoSpace name → first_word name ≡ (name, [])
unfolding first_word
first_word-end [] clean = refl
first_word-end (c ∷ name) clean = rw (clean.0, first_word-end name clean.1) refl

skip_space-word :
    (name rest : Text)
    → 0 < length name
    → HasNoSpace name
    → skip_space (name ++ rest) ≡ name ++ rest
unfolding skip_space
skip_space-word [] rest long clean = absurd (omega arith)
skip_space-word (c ∷ name) rest long clean = rw clean.0 refl

-- A line of the file without its line feed.
unfoldable body : Text → List Text → Text
body name [] = name ++ []
body name (m ∷ ms) = name ++ (32 ∷ modifiers_text (m ∷ ms))

abbrev column : Text → List Text → UntypedColumnDefNode
column name modifiers = record { name = name; modifiers = modifiers }

column_line-body :
    (name : Text) (ms : List Text) → column_line (column name ms) ≡ body name ms ++ (line_feed ∷ [])
unfolding body column_line modifiers_text
column_line-body name [] = sym (append_assoc name [] (line_feed ∷ []))
column_line-body name (m ∷ ms) =
    sym (append_assoc name (32 ∷ modifiers_text (m ∷ ms)) (line_feed ∷ []))

read_column-body :
    (name : Text) (ms : List Text)
    → IsColumn (column name ms)
    → read_column (body name ms) ≡ reread (column name ms)
unfolding read_column body
read_column-body name [] good =
    let word : first_word (skip_space (name ++ [])) ≡ (name, []) =
      ap first_word (skip_space-word name [] good.named good.no_space ∙ append-nil name)
      ∙ first_word-end name good.no_space in
    rw word (unfold pieces non_empty in refl)
read_column-body name (m ∷ ms) good =
    let word : first_word (skip_space (name ++ (32 ∷ modifiers_text (m ∷ ms))))
        ≡ (name, 32 ∷ modifiers_text (m ∷ ms)) =
      ap first_word (skip_space-word name (32 ∷ modifiers_text (m ∷ ms)) good.named good.no_space)
      ∙ first_word-space name (modifiers_text (m ∷ ms)) good.no_space in
    let listed : pieces 44 (32 ∷ modifiers_text (m ∷ ms)) ≡ (32 ∷ m) ∷ ms =
      pieces-modifiers (32 ∷ []) m ms (refl, tt) good.modifiers in
    let kept : non_empty ((32 ∷ m) ∷ ms) ≡ (32 ∷ m) ∷ ms =
      unfold non_empty in ap (λ rest. (32 ∷ m) ∷ rest) (non_empty-All ms good.modifiers.1) in
    rw (word, listed, kept) refl

word_has_no_line_feed : (t : Text) → HasNoSpace t → Without line_feed t
unfolding is_space
word_has_no_line_feed [] clean = tt
word_has_no_line_feed (c ∷ t) clean =
    let here : (c == 10) ≡ false = ground (arith, clean.0) in
    (here, word_has_no_line_feed t clean.1)

modifiers_have_no_line_feed :
    (ms : List Text) → All IsModifier ms → Without line_feed (modifiers_text ms)
unfolding modifiers_text
modifiers_have_no_line_feed [] good = tt
modifiers_have_no_line_feed (m ∷ []) good = good.0.no_line_feed
modifiers_have_no_line_feed (m ∷ next ∷ ms) good =
    All-append (λ x. (x == line_feed) ≡ false) m (44 ∷ modifiers_text (next ∷ ms))
      good.0.no_line_feed (refl, modifiers_have_no_line_feed (next ∷ ms) good.1)

body_has_no_line_feed :
    (name : Text) (ms : List Text) → IsColumn (column name ms) → Without line_feed (body name ms)
unfolding body
body_has_no_line_feed name [] good =
    All-append (λ x. (x == line_feed) ≡ false) name [] (word_has_no_line_feed name good.no_space) tt
body_has_no_line_feed name (m ∷ ms) good =
    All-append (λ x. (x == line_feed) ≡ false) name (32 ∷ modifiers_text (m ∷ ms))
      (word_has_no_line_feed name good.no_space)
      (refl, modifiers_have_no_line_feed (m ∷ ms) good.modifiers)

-- A schema whose names are words and whose modifiers are texts without commas and line feeds is read back
-- from its metadata file with the same columns in the same order and the same modifiers, but for a
-- space in front of each column's first modifier.
pub metadata_round_trip :
    (schema : Schema) → All IsColumn schema → read_schema (metadata_text schema) ≡ map reread schema
unfolding read_schema metadata_text
metadata_round_trip [] good = unfold pieces in refl
metadata_round_trip (col ∷ cols) good =
    let rest = metadata_text cols in
    let line = body col.name col.modifiers in
    let text : column_line col ++ rest ≡ line ++ (line_feed ∷ rest) =
      ap (λ bytes. bytes ++ rest) (column_line-body col.name col.modifiers)
      ∙ append_assoc line (line_feed ∷ []) rest in
    let cut =
      pieces-delimited line_feed line rest (body_has_no_line_feed col.name col.modifiers good.0) in
    ap (λ bytes. map read_column (pieces line_feed bytes)) text
    ∙ (ap (map read_column) cut
        ∙ ap₂ (λ c cs. c ∷ cs) (read_column-body col.name col.modifiers good.0)
            (metadata_round_trip cols good.1))
