-- ===== src/Utils/Strings.antt =====
-- auxiliary/utils/string_utils.cpp, over the bytes of a text.
use bsc_thesis.Base.{
  ℕ, zero, suc, ◌+◌, Bool, true, false, ◌&&◌, ◌||◌, List, [], ◌∷◌, Option, none, some, Text, ◌==◌,
  if◌then◌else◌, length, take, drop,
}
use mathlib.Core.List.{reverse}

-- " \t\n\r\f\v"
unfoldable pub is_whitespace : ℕ → Bool
is_whitespace c = c == 32 || c == 9 || c == 10 || c == 13 || c == 12 || c == 11

unfoldable pub trim_left : Text → Text
unfolding is_whitespace
trim_left [] = []
trim_left (c ∷ s) = let rest = trim_left s in if is_whitespace c then rest else c ∷ s

-- trim: from the first character that is no whitespace to the last one.
unfoldable pub trim : Text → Text
unfolding trim_left
trim s = reverse (trim_left (reverse (trim_left s)))

-- starts_with is startsWith: whether `rfind(prefix, 0)` finds the prefix at position 0.
unfoldable pub starts_with : Text → Text → Bool
starts_with s [] = true
starts_with [] (p ∷ ps) = false
starts_with (c ∷ s) (p ∷ ps) = c == p && starts_with s ps

-- std::string::find: the position of the first occurrence; none stands for npos.
unfoldable pub find : Text → Text → Option ℕ
unfolding starts_with
find [] p = if starts_with [] p then some 0 else none
find (c ∷ s) p =
    let rest : Option ℕ = elim (find s p) [ none ↦ none | some i ↦ some (suc i) ] in
    if starts_with (c ∷ s) p then some 0 else rest

-- splitString: the pieces between the occurrences of the delimiter. `fuel` bounds the rounds; a
-- delimiter that is not empty takes at least one byte a round.
unfoldable pub split_rounds : ℕ → Text → Text → List Text
unfolding find
split_rounds zero s delimiter = s ∷ []
split_rounds (suc fuel) s delimiter = elim (find s delimiter) [
  | none ↦ s ∷ []
  | some end ↦ take end s ∷ split_rounds fuel (drop (end + length delimiter) s) delimiter
]

unfoldable pub split_string : Text → Text → List Text
unfolding split_rounds
split_string s delimiter = split_rounds (length s) s delimiter

-- str.back() of a text that is not empty
abbrev pub back : ℕ → Text → ℕ
back c [] = c
back c (d ∷ s) = back d s

-- removeOuterQuotes: double quotes are tried first, then single ones.
unfoldable pub remove_outer_quotes : Text → Text
remove_outer_quotes [] = []
remove_outer_quotes (c ∷ []) = c ∷ []
remove_outer_quotes (c ∷ d ∷ s) =
    let inner = take (length s) (d ∷ s) in
    if c == b'"' && back d s == b'"'
    then inner
    else (if c == b'\'' && back d s == b'\'' then inner else c ∷ d ∷ s)
