-- ===== src/Base/Maps.antt =====
-- std::unordered_map with std::string keys, as an association list: the first pair of a key counts.
use mathlib.Core.Path.{◌≡◌, refl}
use mathlib.Core.List.{List, [], ◌∷◌}
use mathlib.Core.Option.{Option, none, some}
use native.Mathlib.Omega.{arith}
use bsc_thesis.Base.Tests.{if◌then◌else◌}
use bsc_thesis.Base.Texts.{Text, text_eq, text_eq_iff, text_eq_refl}

module _ {ℓ} {A : Type ℓ} where
  -- find; none stands for end().
  unfoldable pub lookup : Text → List (Text × A) → Option A
  lookup key [] = none
  lookup key ((k, a) ∷ m) = let rest = lookup key m in if text_eq k key then some a else rest

  -- insert: a key that is there is left alone.
  unfoldable pub map_insert : Text → A → List (Text × A) → List (Text × A)
  map_insert key a m = elim (lookup key m) [ none ↦ (key, a) ∷ m | some _ ↦ m ]

  -- m[key] = a
  unfoldable pub map_set : Text → A → List (Text × A) → List (Text × A)
  map_set key a [] = (key, a) ∷ []
  map_set key a ((k, b) ∷ m) =
      let rest = map_set key a m in if text_eq k key then (k, a) ∷ m else (k, b) ∷ rest

  unfoldable pub map_erase : Text → List (Text × A) → List (Text × A)
  map_erase key [] = []
  map_erase key ((k, b) ∷ m) =
      let rest = map_erase key m in if text_eq k key then rest else (k, b) ∷ rest

  pub lookup-map_set :
      (key k : Text) (a : A) (m : List (Text × A))
      → lookup key (map_set k a m) ≡ (if text_eq k key then some a else lookup key m)
  unfolding lookup map_set
  lookup-map_set key k a [] = ground (arith, text_eq_iff k key)
  lookup-map_set key k a ((k', b) ∷ m) =
      ground
        (arith, text_eq_iff k key, text_eq_iff k' k, text_eq_iff k' key, lookup-map_set key k a m)

  pub lookup-map_erase :
      (key k : Text) (m : List (Text × A))
      → lookup key (map_erase k m) ≡ (if text_eq k key then none else lookup key m)
  unfolding lookup map_erase
  lookup-map_erase key k [] = ground (arith, text_eq_iff k key)
  lookup-map_erase key k ((k', b) ∷ m) =
      ground
        (arith, text_eq_iff k key, text_eq_iff k' k, text_eq_iff k' key, lookup-map_erase key k m)

  pub lookup-map_insert_fresh :
      (k : Text) (a : A) (m : List (Text × A))
      → lookup k m ≡ none
      → lookup k (map_insert k a m) ≡ some a
  unfolding map_insert lookup
  lookup-map_insert_fresh k a m h = rw (h, map_insert, lookup, text_eq_refl k) refl
