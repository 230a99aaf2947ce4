-- ===== src/Messages/Filled.antt =====
-- injectContext of DBEngine/services/logger/std_logger/message-templates/context-injector.cpp: what the message holds.
use bsc_thesis.Base.{
  ℕ, ◌+◌, ◌≡◌, refl, sym, ap, ◌∙◌, false, none, some, List, [], ◌∷◌, ◌++◌, Text, ◌==◌, All,
  All-append, append_assoc, length, length-append, take-length_append, drop-length_append, ap₂,
  drop,
}
use bsc_thesis.Utils.Strings.{find, starts_with}
use bsc_thesis.Messages.{replace, placeholder, inject_context}

-- A text without an opening brace.
abbrev pub NoBrace : Text → Type 0
NoBrace t = All (λ c. (c == 123) ≡ false) t

-- The text of a first piece and the pieces behind the placeholders, with the values in the places of
-- the first ones.
abbrev pub filled : Text → List Text → List Text → Text
filled piece [] values = piece
filled piece (next ∷ pieces) [] = piece ++ (123 ∷ 125 ∷ filled next pieces [])
filled piece (next ∷ pieces) (value ∷ values) = piece ++ (value ++ filled next pieces values)

find-none : (t : Text) → NoBrace t → find t placeholder ≡ none
unfolding find starts_with
find-none [] clean = refl
find-none (c ∷ t) clean = rw (clean.0, find-none t clean.1) refl

find-first :
    (t rest : Text) → NoBrace t → find (t ++ (123 ∷ 125 ∷ rest)) placeholder ≡ some (length t)
unfolding find starts_with
find-first [] rest clean = refl
find-first (c ∷ t) rest clean = rw (clean.0, find-first t rest clean.1) refl

replace-first :
    (t value rest : Text)
    → replace (t ++ (123 ∷ 125 ∷ rest)) (length t) 2 value ≡ t ++ (value ++ rest)
unfolding replace
replace-first t value rest =
    let front = t ++ (123 ∷ 125 ∷ []) in
    let split : front ++ rest ≡ t ++ (123 ∷ 125 ∷ rest) = append_assoc t (123 ∷ 125 ∷ []) rest in
    let size : length front ≡ length t + 2 = length-append t (123 ∷ 125 ∷ []) in
    let behind : drop (length t + 2) (t ++ (123 ∷ 125 ∷ rest)) ≡ rest =
      sym (ap₂ drop size split) ∙ drop-length_append front rest in
    rw (take-length_append t (123 ∷ 125 ∷ rest), behind) refl

inject-none :
    (message value : Text) (values : List Text)
    → find message placeholder ≡ none
    → inject_context message (value ∷ values) ≡ message
unfolding inject_context
inject-none message value values h = rw (h, inject_context) refl

inject-found :
    (message value : Text) (values : List Text) (pos : ℕ)
    → find message placeholder ≡ some pos
    → inject_context message (value ∷ values) ≡ inject_context (replace message pos 2 value) values
unfolding inject_context
inject-found message value values pos h = rw (h, inject_context) refl

-- The same behind a text that is finished.
inject_behind :
    (values : List Text) (before piece : Text) (pieces : List Text)
    → NoBrace before
    → NoBrace piece
    → All NoBrace pieces
    → All NoBrace values
    → inject_context (before ++ filled piece pieces []) values
      ≡ before ++ filled piece pieces values
unfolding inject_context
inject_behind [] before piece [] b p ps vs = refl
inject_behind [] before piece (next ∷ pieces) b p ps vs = refl
inject_behind (value ∷ values) before piece [] b p ps vs =
    inject-none (before ++ piece) value values
      (find-none (before ++ piece) (All-append (λ c. (c == 123) ≡ false) before piece b p))
inject_behind (value ∷ values) before piece (next ∷ pieces) b p ps vs =
    let front = before ++ piece in
    let clean = All-append (λ c. (c == 123) ≡ false) before piece b p in
    let rest = filled next pieces [] in
    let again =
      inject_behind values (front ++ value) next pieces
        (All-append (λ c. (c == 123) ≡ false) front value clean vs.0) ps.0 ps.1 vs.1 in
    ap (λ m. inject_context m (value ∷ values)) (sym (append_assoc before piece (123 ∷ 125 ∷ rest)))
    ∙ (inject-found (front ++ (123 ∷ 125 ∷ rest)) value values (length front)
          (find-first front rest clean)
        ∙ (ap (λ m. inject_context m values)
              (replace-first front value rest ∙ sym (append_assoc front value rest))
            ∙ (again
                ∙ (append_assoc front value (filled next pieces values)
                    ∙ append_assoc before piece (value ++ filled next pieces values)))))

-- In a message template whose pieces hold no opening brace, values that hold none either take the places of the
-- placeholders in their order; values beyond the last placeholder are left out, and a
-- placeholder for which there is no value stays.
pub inject_context-fills :
    (piece : Text) (pieces values : List Text)
    → NoBrace piece
    → All NoBrace pieces
    → All NoBrace values
    → inject_context (filled piece pieces []) values ≡ filled piece pieces values
inject_context-fills piece pieces values p ps vs = inject_behind values [] piece pieces tt p ps vs
