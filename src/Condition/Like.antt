-- ===== src/Condition/Like.antt =====
-- LIKE as a relation between a pattern and a text, and likeMatch of like-match.cpp as its
-- decision, through the regular expression that it writes.
use bsc_thesis.Base.{
  ℕ, ◌≡◌, ◌≢◌, ◌↔◌, ◌⊎◌, inl, inr, refl, ap, ◌∙◌, Bool, true, false, List, [], ◌∷◌, ◌++◌, some,
  Text, codes, ◌==◌, ◌&&◌, ◌||◌, ==_iff, if◌then◌else◌, arith, All, Bool-cases, append_assoc,
}
use bsc_thesis.Condition.Regex.{
  Atom, at_start, at_end, any, many, char, push, is_special, regex_piece, regex_body, regex_of,
  compile, is_line_terminator, matches, like_match,
}

-- `%` stands for any number of characters, `_` for one, and any other character for itself.
pub data Like : Text → Text → Type 0 where
  nothing : Like [] []
  percent_ends : {c : ℕ} {p s : Text} → c ≡ b'%' → Like p s → Like (c ∷ p) s
  percent_takes : {c x : ℕ} {p s : Text} → c ≡ b'%' → Like (c ∷ p) s → Like (c ∷ p) (x ∷ s)
  underscore : {c x : ℕ} {p s : Text} → c ≡ b'_' → Like p s → Like (c ∷ p) (x ∷ s)
  same : {c x : ℕ} {p s : Text} → c ≢ b'%' → c ≢ b'_' → c ≡ x → Like p s → Like (c ∷ p) (x ∷ s)

-- A text with no line feed and no carriage return.
abbrev pub IsOneLine : Text → Type 0
IsOneLine = All (λ x. is_line_terminator x ≡ false)

abbrev like_atom : ℕ → Atom
like_atom c = if c == b'%' then many else (if c == b'_' then any else char c)

abbrev like_atoms : Text → List Atom
like_atoms [] = at_end ∷ []
like_atoms (c ∷ p) = like_atom c ∷ like_atoms p

-- The four ways in which a pattern character is written into the regular expression.
data Piece (c : ℕ) : Type 0 where
  wildcard : regex_piece c ≡ codes ".*" → like_atom c ≡ many → c ≡ b'%' → Piece c
  one_char : regex_piece c ≡ codes "." → like_atom c ≡ any → c ≡ b'_' → Piece c
  escaped : regex_piece c ≡ b'\\' ∷ c ∷ [] → like_atom c ≡ char c → c ≢ b'%' → c ≢ b'_' → Piece c
  plain :
      regex_piece c ≡ c ∷ []
      → is_special c ≡ false
      → like_atom c ≡ char c
      → c ≢ b'%'
      → c ≢ b'_'
      → Piece c

Piece-of : (c : ℕ) → Piece c
unfolding regex_piece
Piece-of c = elim (Bool-cases (c == b'%')) [
  | inl e ↦ wildcard (rw e) (rw e) (ground arith)
  | inr n ↦ elim (Bool-cases (c == b'_')) [
    | inl e ↦ one_char (rw (n, e)) (rw (n, e)) (ground arith)
    | inr m ↦ elim (Bool-cases (is_special c)) [
      | inl e ↦ escaped (rw (n, m, e)) (rw (n, m)) (ground arith) (ground arith)
      | inr k ↦ plain (rw (n, m, k)) k (rw (n, m)) (ground arith) (ground arith)
    ]
  ]
]

-- The tests of `compile` all fail on a character that is not special.
plain_tests :
    (c : ℕ)
    → is_special c ≡ false
    → ((c == b'\\') ≡ false)
      × ((c == b'.') ≡ false)
      × ((c == b'^') ≡ false)
      × ((c == b'$') ≡ false)
      × ((c == b'*') ≡ false)
unfolding is_special
plain_tests c h = ground arith

-- The rest of the regular expression never starts with `*`.
record Rest (t : Text) : Type 0 where
  head : ℕ
  tail : Text
  shape : t ≡ head ∷ tail
  no_star : (head == b'*') ≡ false

regex_body-Rest : (p : Text) → Rest (regex_body p ++ codes "$")
unfolding regex_body
regex_body-Rest [] = record { head = b'$'; tail = []; shape = refl; no_star = refl }
regex_body-Rest (c ∷ p) =
    let t = regex_body p in
    elim (Piece-of c) [
      | wildcard e _ _ ↦ record {
        head = b'.';
        tail = b'*' ∷ (t ++ codes "$");
        shape = rw e;
        no_star = refl;
      }
      | one_char e _ _ ↦ record { head = b'.'; tail = t ++ codes "$"; shape = rw e; no_star = refl }
      | escaped e _ _ _ ↦ record {
        head = b'\\';
        tail = c ∷ (t ++ codes "$");
        shape = rw e;
        no_star = refl;
      }
      | plain e k _ _ _ ↦ record {
        head = c;
        tail = t ++ codes "$";
        shape = rw e;
        no_star = (plain_tests c k).4;
      }
    ]

compile_any :
    (d : ℕ) (r : Text) → (d == b'*') ≡ false → compile (b'.' ∷ d ∷ r) ≡ push any (compile (d ∷ r))
unfolding compile
compile_any d r h = rw h

compile_plain :
    (c d : ℕ) (r : Text)
    → is_special c ≡ false
    → compile (c ∷ d ∷ r) ≡ push (char c) (compile (d ∷ r))
unfolding compile
compile_plain c d r h =
    let (bs, dot, hat, dollar, _) = plain_tests c h in rw (bs, dot, hat, dollar, h)

compile_step :
    (c : ℕ) (t : Text) → Rest t → compile (regex_piece c ++ t) ≡ push (like_atom c) (compile t)
compile_step c t rest = elim (Piece-of c) [
  | wildcard e a _ ↦ rw (e, a) (unfold compile in rw rest.shape refl)
  | one_char e a _ ↦ rw (e, a, rest.shape) (compile_any rest.head rest.tail rest.no_star)
  | escaped e a _ _ ↦ rw (e, a) (unfold compile in refl)
  | plain e k a _ _ ↦ rw (e, a, rest.shape) (compile_plain c rest.head rest.tail k)
]

compile-regex_body : (p : Text) → compile (regex_body p ++ codes "$") ≡ some (like_atoms p)
unfolding regex_body
compile-regex_body [] = unfold compile in refl
compile-regex_body (c ∷ p) =
    rw append_assoc
      (compile_step c _ (regex_body-Rest p) ∙ ap (push (like_atom c)) (compile-regex_body p))

compile_start : (t : Text) → Rest t → compile (b'^' ∷ t) ≡ push at_start (compile t)
unfolding compile
compile_start t rest = rw rest.shape

-- The regular expression that likeMatch writes is well formed, and its atoms are the pattern's.
compile-regex_of : (p : Text) → compile (regex_of p) ≡ some (at_start ∷ like_atoms p)
unfolding regex_of
compile-regex_of p = compile_start _ (regex_body-Rest p) ∙ ap (push at_start) (compile-regex_body p)

like_match-matches : (text p : Text) → like_match text p ≡ matches true (like_atoms p) text
unfolding like_match
like_match-matches text p = rw (compile-regex_of, like_match) (unfold matches in refl)

or_true : (a b : Bool) → a || b ≡ true → (a ≡ true) ⊎ (b ≡ true)
or_true a b h = ground arith

and_true : (a b : Bool) → a && b ≡ true → (a ≡ true) × (b ≡ true)
and_true a b h = ground arith

sound : (fresh : Bool) (p s : Text) → matches fresh (like_atoms p) s ≡ true → Like p s
unfolding matches
sound fresh [] [] h = nothing
sound fresh [] (x ∷ s) h = cc
sound fresh (c ∷ p) [] h = elim (Piece-of c) [
  | wildcard _ a e ↦ percent_ends e (sound fresh p [] (rw a at h))
  | one_char _ a e ↦ let f = rw a at h in cc
  | escaped _ a _ _ ↦ let f = rw a at h in cc
  | plain _ _ a _ _ ↦ let f = rw a at h in cc
]
sound fresh (c ∷ p) (x ∷ s) h = elim (Piece-of c) [
  | wildcard _ a e ↦ elim (or_true (matches fresh (like_atoms p) (x ∷ s)) _ (rw a at h)) [
    | inl k ↦ percent_ends e (sound fresh p (x ∷ s) k)
    | inr k ↦ percent_takes e (sound false (c ∷ p) s (rw a (and_true _ _ k).1))
  ]
  | one_char _ a e ↦ underscore e (sound false p s (and_true _ _ (rw a at h)).1)
  | escaped _ a m n ↦
      let (k, rest) = and_true (c == x) _ (rw a at h) in
      same m n ((==_iff c x).0 k) (sound false p s rest)
  | plain _ _ a m n ↦
      let (k, rest) = and_true (c == x) _ (rw a at h) in
      same m n ((==_iff c x).0 k) (sound false p s rest)
]

like_atom-char : (c : ℕ) → c ≢ b'%' → c ≢ b'_' → like_atom c ≡ char c
like_atom-char c m n = ground arith

or_intro : (a b : Bool) → (a ≡ true) ⊎ (b ≡ true) → a || b ≡ true
or_intro a b h = ground arith

complete :
    (fresh : Bool) (p s : Text) → IsOneLine s → Like p s → matches fresh (like_atoms p) s ≡ true
unfolding matches
complete fresh [] [] one nothing = refl
complete fresh [] (x ∷ s) one l = elim l [ ]
complete fresh (c ∷ p) [] one (percent_ends e l) = rw e (complete fresh p [] one l)
complete fresh (c ∷ p) (x ∷ s) one (percent_ends e l) =
    rw e (or_intro _ _ (inl (complete fresh p (x ∷ s) one l)))
complete fresh (c ∷ p) (x ∷ s) one (percent_takes e l) =
    let further : matches false (many ∷ like_atoms p) s ≡ true =
      rw e at (complete false (c ∷ p) s one.1 l) in
    rw (e, one.0, further) (or_intro _ _ (inr refl))
complete fresh (c ∷ p) (x ∷ s) one (underscore e l) = rw (e, one.0) (complete false p s one.1 l)
complete fresh (c ∷ p) (x ∷ s) one (same m n e l) =
    rw (like_atom-char c m n, (==_iff c x).1 e) (complete false p s one.1 l)

-- On a text of one line, likeMatch answers true exactly when the text is LIKE the pattern.
pub like_match_iff :
    (text pattern : Text) → IsOneLine text → (like_match text pattern ≡ true) ↔ Like pattern text
like_match_iff text pattern one =
    rw like_match-matches (sound true pattern text, complete true pattern text one)
