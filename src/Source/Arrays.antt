-- ===== src/Source/Arrays.antt =====
-- Which array of a document is taken.
use task_schedular.Prelude.{Option, none, some, List, [], ◌∷◌, ◌++◌, ◌≡◌, refl}
use task_schedular.Contracts.Json.{
  Json, null, bool, num, literal, str, arr, obj, Items, Fields, end, field,
}
use task_schedular.Source.{find_first_array, find_in_fields}

-- The arrays that are reached from a node through the fields of objects, in document order
mutual
  pub arrays : Json → List Items
  arrays (arr xs) = xs ∷ []
  arrays (obj o) = arrays_in o
  arrays _ = []

  pub arrays_in : Fields → List Items
  arrays_in end = []
  arrays_in (field k v o) = arrays v ++ arrays_in o

abbrev pub first {ℓ} : {A : Type ℓ} → List A → Option A
first [] = none
first (x ∷ xs) = some x

first-append {ℓ} :
    {A : Type ℓ} (o : Option A) (xs ys : List A) (p : Option A)
    → o ≡ first xs
    → p ≡ first ys
    → elim o as (λ _. Option A) [ some x ↦ some x | none ↦ p ] ≡ first (xs ++ ys)
first-append none [] ys p e f = f
first-append none (x ∷ xs) ys p e f = cc
first-append (some a) [] ys p e f = cc
first-append (some a) (x ∷ xs) ys p e f = e

mutual
  unfolding find_first_array find_in_fields arrays arrays_in

  find_lem : (j : Json) → find_first_array j ≡ first (arrays j)
  find_lem (arr xs) = refl
  find_lem (obj o) = find_in_lem o
  find_lem null = refl
  find_lem (bool b) = refl
  find_lem (num n) = refl
  find_lem (literal s) = refl
  find_lem (str s) = refl

  find_in_lem : (o : Fields) → find_in_fields o ≡ first (arrays_in o)
  find_in_lem end = refl
  find_in_lem (field k v o) =
      first-append (find_first_array v) (arrays v) (arrays_in o) (find_in_fields o) (find_lem v)
        (find_in_lem o)

-- The search finds the first of the arrays that are reached through the fields of objects, in document
-- order, and nothing exactly if there is none.
pub find_first_array-arrays : (j : Json) → find_first_array j ≡ first (arrays j)
find_first_array-arrays j = find_lem j
