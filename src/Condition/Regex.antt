-- ===== src/Condition/Regex.antt =====
-- likeMatch of condition-evaluator/src/like-match.cpp, and of std::regex (ECMAScript) the part
-- that it uses: the anchors, `.`, `.*`, an escaped character, and a character that stands for
-- itself.
use bsc_thesis.Base.{
  ℕ, Bool, true, false, not, ◌&&◌, ◌||◌, List, [], ◌∷◌, ◌++◌, Option, none, some, Text, codes, ◌==◌,
  if◌then◌else◌,
}

-- The characters that likeMatch escapes: . ^ $ | ( ) [ ] { } * + ? \
unfoldable pub is_special : ℕ → Bool
is_special c =
    c == b'.'
    || c == b'^'
    || c == b'$'
    || c == b'|'
    || c == b'('
    || c == b')'
    || c == b'['
    || c == b']'
    || c == b'{'
    || c == b'}'
    || c == b'*'
    || c == b'+'
    || c == b'?'
    || c == b'\\'

-- One round of the switch: what is appended to regex_pattern.
unfoldable pub regex_piece : ℕ → Text
unfolding is_special
regex_piece c =
    if c == b'%'
    then codes ".*"
    else (if c == b'_' then codes "." else (if is_special c then b'\\' ∷ c ∷ [] else c ∷ []))

unfoldable pub regex_body : Text → Text
unfolding regex_piece
regex_body [] = []
regex_body (c ∷ pattern) = regex_piece c ++ regex_body pattern

unfoldable pub regex_of : Text → Text
unfolding regex_body
regex_of pattern = b'^' ∷ (regex_body pattern ++ codes "$")

pub data Atom : Type 0 where
  at_start at_end any many : Atom
  char : ℕ → Atom

abbrev pub push : Atom → Option (List Atom) → Option (List Atom)
push a none = none
push a (some as') = some (a ∷ as')

-- The constructor of std::regex, on the forms above; `none` is a std::regex_error, or a form that
-- likeMatch does not write.
unfoldable pub compile : Text → Option (List Atom)
compile [] = some []
compile (c ∷ []) =
    if c == b'$'
    then some (at_end ∷ [])
    else (if c == b'.'
        then some (any ∷ [])
        else (if c == b'^'
            then some (at_start ∷ [])
            else (if is_special c then none else some (char c ∷ []))))
compile (c ∷ d ∷ r) =
    let after_two = compile r in
    let after_one = compile (d ∷ r) in
    if c == b'\\'
    then push (char d) after_two
    else (if c == b'.'
        then (if d == b'*' then push many after_two else push any after_one)
        else (if c == b'^'
            then push at_start after_one
            else (if c == b'$'
                then push at_end after_one
                else (if is_special c then none else push (char c) after_one))))

-- What `.` does not match: a line feed or a carriage return.
unfoldable pub is_line_terminator : ℕ → Bool
is_line_terminator c = c == 10 || c == 13

-- std::regex_match: the atoms against the whole rest of the text. `fresh` says that the match is
-- still at the start of the text.
unfoldable pub matches : Bool → List Atom → Text → Bool
unfolding is_line_terminator
matches fresh [] [] = true
matches fresh [] (x ∷ s) = false
matches fresh (at_start ∷ p) s = fresh && matches fresh p s
matches fresh (at_end ∷ p) [] = matches fresh p []
matches fresh (at_end ∷ p) (x ∷ s) = false
matches fresh (any ∷ p) [] = false
matches fresh (any ∷ p) (x ∷ s) = not (is_line_terminator x) && matches false p s
matches fresh (char c ∷ p) [] = false
matches fresh (char c ∷ p) (x ∷ s) = c == x && matches false p s
matches fresh (many ∷ p) [] = matches fresh p []
matches fresh (many ∷ p) (x ∷ s) =
    let here = matches fresh p (x ∷ s) in
    let further = matches false (many ∷ p) s in here || (not (is_line_terminator x) && further)

unfoldable pub like_match : Text → Text → Bool
like_match text pattern = elim (compile (regex_of pattern)) [
  | none ↦ false
  | some atoms ↦ matches true atoms text
]
