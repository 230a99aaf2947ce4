-- ===== src/Cli/Terminated.antt =====
-- endsWithSemicolonOutsideQuotes of CLI-driver/src/runcli.cpp.
use bsc_thesis.Base.{
  subst, Bool, not, Bool-cases, ◌==◌, ℕ, ◌≡◌, refl, ap, ◌∙◌, ◌↔◌, true, false, [], ◌∷◌, ◌++◌, none,
  some, Text, All, arith, Option-cases, inl, inr,
}
use bsc_thesis.Cli.{is_space, semicolon, quote_scan, last_visible, ends_with_semicolon}

abbrev pub IsBlank : Text → Type 0
IsBlank s = All (λ (c : ℕ). is_space c ≡ true) s

-- Texts that leave no single quote open when they start outside (false) or inside (true) of one. A
-- backslash takes the next character with it, whatever it is.
pub data Closes : Bool → Text → Type 0 where
  nothing : Closes false []
  trailing : Closes false (92 ∷ [])
  escape : {b : Bool} {c : ℕ} {s : Text} → Closes b s → Closes b (92 ∷ c ∷ s)
  opening : {s : Text} → Closes true s → Closes false (39 ∷ s)
  closing : {s : Text} → Closes false s → Closes true (39 ∷ s)
  plain :
      {b : Bool} {c : ℕ} {s : Text}
      → (c == 92) ≡ false
      → (c == 39) ≡ false
      → Closes b s
      → Closes b (c ∷ s)

-- A text that ends a statement: outside of single quotes, its last visible character a semicolon.
pub record IsTerminated (s : Text) : Type 0 where
  pub outside : Closes false s
  pub body : Text
  pub blanks : Text
  pub blank : IsBlank blanks
  pub split : s ≡ body ++ (semicolon ∷ blanks)

quote_scan-closed : {b : Bool} {s : Text} → Closes b s → quote_scan s b false ≡ false
unfolding quote_scan
quote_scan-closed nothing = refl
quote_scan-closed trailing = refl
quote_scan-closed (escape rest) = quote_scan-closed rest
quote_scan-closed (opening rest) = quote_scan-closed rest
quote_scan-closed (closing rest) = quote_scan-closed rest
quote_scan-closed (plain {c = c} no_backslash no_quote rest) =
    rw (no_backslash, quote_scan, no_quote) (quote_scan-closed rest)

quote_step :
    (b : Bool) (s : Text)
    → ((b' : Bool) → quote_scan s b' false ≡ false → Closes b' s)
    → quote_scan s (not b) false ≡ false
    → Closes b (39 ∷ s)
quote_step true s read h = closing (read false h)
quote_step false s read h = opening (read true h)

-- A character that is no backslash.
visible_step :
    (b : Bool) (c : ℕ) (s : Text)
    → ((b' : Bool) → quote_scan s b' false ≡ false → Closes b' s)
    → (c == 92) ≡ false
    → quote_scan (c ∷ s) b false ≡ false
    → Closes b (c ∷ s)
unfolding quote_scan
visible_step b c s read other h = elim (Bool-cases (c == 39)) [
  | inl quote ↦
      let is_quote : 39 ≡ c = ground arith in
      subst (λ x. Closes b (x ∷ s)) is_quote
        (quote_step b s read (rw (other, quote_scan, quote) at h))
  | inr letter ↦ plain other letter (read b (rw (other, quote_scan, letter) at h))
]

trailing_step :
    (b : Bool) (c : ℕ) → (c == 92) ≡ true → quote_scan (c ∷ []) b false ≡ false → Closes b (c ∷ [])
unfolding quote_scan
trailing_step false c backslash h =
    let is_backslash : 92 ≡ c = ground arith in
    subst (λ x. Closes false (x ∷ [])) is_backslash trailing
trailing_step true c backslash h =
    let never : true ≡ false = rw (backslash, quote_scan) at h in absurd cc

closed-empty : (b : Bool) → quote_scan [] b false ≡ false → Closes b []
unfolding quote_scan
closed-empty false h = nothing
closed-empty true h = absurd cc

closed-quote_scan : (s : Text) (b : Bool) → quote_scan s b false ≡ false → Closes b s
unfolding quote_scan
closed-quote_scan [] b h = closed-empty b h
closed-quote_scan (c ∷ []) b h = elim (Bool-cases (c == 92)) [
  | inl backslash ↦ trailing_step b c backslash h
  | inr other ↦ visible_step b c [] closed-empty other h
]
closed-quote_scan (c ∷ d ∷ s) b h = elim (Bool-cases (c == 92)) [
  | inl backslash ↦
      let is_backslash : 92 ≡ c = ground arith in
      subst (λ x. Closes b (x ∷ d ∷ s)) is_backslash
        (escape (closed-quote_scan s b (rw (backslash, quote_scan) at h)))
  | inr other ↦ visible_step b c (d ∷ s) (closed-quote_scan (d ∷ s)) other h
]

last_visible-none : (s : Text) → last_visible s ≡ none → IsBlank s
unfolding last_visible
last_visible-none [] h = tt
last_visible-none (c ∷ s) h = elim (Option-cases (last_visible s)) [
  | inl e ↦ (ground arith, last_visible-none s e)
  | inr (d, e) ↦ absurd (ground arith)
]

last_visible-some :
    (s : Text) (c : ℕ)
    → last_visible s ≡ some c
    → (body : Text) × (blanks : Text) × IsBlank blanks × (s ≡ body ++ (c ∷ blanks))
unfolding last_visible
last_visible-some [] c h = absurd cc
last_visible-some (d ∷ s) c h = elim (Option-cases (last_visible s)) [
  | inl e ↦ ([], s, last_visible-none s e, ap (λ t. t ∷ s) (ground arith))
  | inr (x, e) ↦
      let (body, blanks, blank, split) = last_visible-some s c (ground arith) in
      (d ∷ body, blanks, blank, ap (λ t. d ∷ t) split)
]

last_visible-blank : (s : Text) → IsBlank s → last_visible s ≡ none
unfolding last_visible
last_visible-blank [] blank = refl
last_visible-blank (c ∷ s) blank = rw (last_visible-blank s blank.1, blank.0) refl

last_visible-append :
    (body : Text) (c : ℕ) (blanks : Text)
    → is_space c ≡ false
    → IsBlank blanks
    → last_visible (body ++ (c ∷ blanks)) ≡ some c
unfolding last_visible
last_visible-append [] c blanks visible blank = rw (last_visible-blank blanks blank, visible) refl
last_visible-append (d ∷ body) c blanks visible blank =
    rw (last_visible-append body c blanks visible blank) refl

ends_with_semicolon_parts :
    (s : Text)
    → ends_with_semicolon s ≡ true
    → (quote_scan s false false ≡ false) × (last_visible s ≡ some semicolon)
unfolding ends_with_semicolon
ends_with_semicolon_parts s h = elim (Option-cases (last_visible s)) [
  | inl e ↦ absurd (ground arith)
  | inr (c, e) ↦ (ground arith, e ∙ ap some (ground arith))
]

-- endsWithSemicolonOutsideQuotes answers true exactly for the texts that end a statement: those that
-- leave no single quote open, and whose last character that is no space is a semicolon.
pub ends_with_semicolon_iff : (s : Text) → (ends_with_semicolon s ≡ true) ↔ IsTerminated s
unfolding ends_with_semicolon is_space
ends_with_semicolon_iff s = (
  λ h.
      let (outside, last) = ends_with_semicolon_parts s h in
      let (body, blanks, blank, split) = last_visible-some s semicolon last in
      record {
        outside = closed-quote_scan s false outside;
        body = body;
        blanks = blanks;
        blank = blank;
        split = split;
      },
  λ t.
      let last =
        ap last_visible t.split ∙ last_visible-append t.body semicolon t.blanks refl t.blank in
      rw (quote_scan-closed t.outside, last) refl,
)
