-- ===== src/Normalizer/Masks.antt =====
-- Projection masks: positions in the schema as a test of the column's name.
use bsc_thesis.Base.{
  ℕ, suc, ◌≡◌, refl, sym, ap, ap₂, ◌∙◌, Bool, true, false, ◌||◌, List, [], ◌∷◌, Option, none, some,
  Text, text_eq, text_eq-sym, text_eq_refl, text_eq-cases, if◌then◌else◌, length, replicate, map,
  arith, Option-cases, inl, inr,
}
use bsc_thesis.Utils.Columns.{contains, index_of, Distinct}
use bsc_thesis.Normalizer.{set_at, mask_loop}

map-absent {ℓ} :
    {A : Type ℓ} (name : Text) (v : A) (f : Text → A) (names : List Text)
    → contains name names ≡ false
    → map f names ≡ map (λ x. if text_eq x name then v else f x) names
unfolding contains
map-absent name v f [] h = refl
map-absent name v f (x ∷ xs) h =
    let here : text_eq x name ≡ false = ground arith in
    rw here (ap (λ t. f x ∷ t) (map-absent name v f xs (ground arith)))

set_at-later {ℓ} :
    {A : Type ℓ} (o : Option ℕ) (v y : A) (ys : List A)
    → set_at (elim o as (λ _. Option ℕ) [ none ↦ none | some i ↦ some (suc i) ]) v (y ∷ ys)
      ≡ y ∷ set_at o v ys
unfolding set_at
set_at-later none v y ys = refl
set_at-later (some i) v y ys = refl

-- A write at the position of a name, in a list that gives each name's value.
pub set_at-index_of {ℓ} :
    {A : Type ℓ} (name : Text) (v : A) (f : Text → A) (names : List Text)
    → Distinct names
    → set_at (index_of name names) v (map f names)
      ≡ map (λ x. if text_eq x name then v else f x) names
unfolding index_of
set_at-index_of name v f [] distinct = unfold set_at in refl
set_at-index_of name v f (x ∷ xs) distinct = elim (text_eq-cases x name) [
  | inl same ↦
      rw (same, text_eq_refl name)
        (unfold set_at in ap (λ t. v ∷ t) (map-absent name v f xs (rw same at distinct.0)))
  | inr differ ↦ rw differ (
      set_at-later (index_of name xs) v (f x) (map f xs)
      ∙ ap (λ t. f x ∷ t) (set_at-index_of name v f xs distinct.1))
]

pub replicate-map {ℓ κ} :
    {A : Type ℓ} {B : Type κ} (b : B) (xs : List A) → replicate (length xs) b ≡ map (λ _. b) xs
replicate-map b [] = refl
replicate-map b (x ∷ xs) = ap (λ t. b ∷ t) (replicate-map b xs)

pub map-ext {ℓ κ} :
    {A : Type ℓ} {B : Type κ} (f g : A → B) (xs : List A)
    → ((x : A) → f x ≡ g x)
    → map f xs ≡ map g xs
map-ext f g [] h = refl
map-ext f g (x ∷ xs) h = ap₂ (λ y ys. y ∷ ys) (h x) (map-ext f g xs h)

mask_loop-missing :
    (full names : List Text) (name : Text) (mask : List Bool)
    → index_of name full ≡ none
    → mask_loop full (name ∷ names) mask ≡ (false, mask)
unfolding mask_loop
mask_loop-missing full names name mask missing = rw (missing, mask_loop) refl

mask_loop-found :
    (full names : List Text) (name : Text) (mask : List Bool) (i : ℕ)
    → index_of name full ≡ some i
    → mask_loop full (name ∷ names) mask
      ≡ mask_loop full names (set_at (index_of name full) true mask)
unfolding mask_loop
mask_loop-found full names name mask i found =
    rw (found, mask_loop) (ap (λ o. mask_loop full names (set_at o true mask)) found)

mask_loop_from :
    (full names : List Text) (f : Text → Bool)
    → Distinct full
    → (mask_loop full names (map f full)).0 ≡ true
    → (mask_loop full names (map f full)).1 ≡ map (λ x. f x || contains x names) full
unfolding mask_loop
mask_loop_from full [] f distinct h =
    map-ext f (λ x. f x || contains x []) full (λ x. unfold contains in ground arith)
mask_loop_from full (name ∷ names) f distinct h =
    let with_name : Text → Bool = λ x. if text_eq x name then true else f x in
    let ih = mask_loop_from full names with_name distinct in
    let same =
      map-ext (λ x. with_name x || contains x names) (λ x. f x || contains x (name ∷ names)) full
        (λ x. unfold contains in ground (arith, text_eq-sym x name)) in
    elim (Option-cases (index_of name full)) [
      | inl missing ↦
          let clash : false ≡ true =
            sym (ap (λ r. r.0) (mask_loop-missing full names name (map f full) missing)) ∙ h in
          cc
      | inr (i, found) ↦
          let step =
            mask_loop-found full names name (map f full) i found
            ∙ ap (λ m. mask_loop full names m) (set_at-index_of name true f full distinct) in
          ap (λ r. r.1) step ∙ (ih (ap (λ r. r.0) (sym step) ∙ h) ∙ same)
    ]

-- Where every listed column is in the schema, the projection mask that the normalizers fill has
-- the position of each listed column set, and no other.
pub mask_loop_lem :
    (full names : List Text) (n : ℕ)
    → n ≡ length full
    → Distinct full
    → (mask_loop full names (replicate n false)).0 ≡ true
    → (mask_loop full names (replicate n false)).1 ≡ map (λ x. contains x names) full
mask_loop_lem full names n size distinct h =
    let start = ap (λ k. replicate k false) size ∙ replicate-map false full in
    ap (λ m. (mask_loop full names m).1) start
    ∙ (mask_loop_from full names (λ _. false) distinct (rw start at h)
        ∙ map-ext (λ x. false || contains x names) (λ x. contains x names) full (λ x. refl))
