-- ===== src/Targets/Batches.antt =====
-- A list cut into slices, as the loops `for (i = 0; i < xs.length; i += size)` do, and
-- `deleteStagingRows` of packages/targetdb/src/sqlserver.ts and mysql.ts, a thousand numbers at a
-- time; postgres.ts deletes all in one statement.
use task_schedular.Prelude.{
  ap, ℕ, zero, suc, ◌≤◌, Bool, not, ◌||◌, List, [], ◌∷◌, ◌++◌, take, length, any, keep, ◌≡◌, refl,
  arith, ◌==◌, All,
}

module _ {ℓ} {A : Type ℓ} where
  abbrev pub drop : ℕ → List A → List A
  drop zero xs = xs
  drop (suc n) [] = []
  drop (suc n) (x ∷ xs) = drop n xs

  pub take-drop : (n : ℕ) (xs : List A) → take n xs ++ drop n xs ≡ xs
  take-drop zero xs = refl
  take-drop (suc n) [] = refl
  take-drop (suc n) (x ∷ xs) = rw (take-drop n xs) refl

  pub length-take_le : (n : ℕ) (xs : List A) → length (take n xs) ≤ n
  length-take_le zero xs = omega arith
  length-take_le (suc n) [] = omega arith
  length-take_le (suc n) (x ∷ xs) = omega (arith, length-take_le n xs)

  length-drop_le : (n : ℕ) (xs : List A) → length (drop n xs) ≤ length xs
  length-drop_le zero xs = omega arith
  length-drop_le (suc n) [] = omega arith
  length-drop_le (suc n) (x ∷ xs) = omega (arith, length-drop_le n xs)

  -- The slices of the loop; each round takes at least one element, so the length is fuel enough.
  unfoldable pub slices_fuel : ℕ → ℕ → List A → List (List A)
  slices_fuel zero size xs = []
  slices_fuel (suc f) size [] = []
  slices_fuel (suc f) size (x ∷ xs) = take size (x ∷ xs) ∷ slices_fuel f size (drop size (x ∷ xs))

  unfoldable pub slices : ℕ → List A → List (List A)
  unfolding slices_fuel
  slices size xs = slices_fuel (length xs) size xs

  abbrev pub joined : List (List A) → List A
  joined [] = []
  joined (xs ∷ xss) = xs ++ joined xss

  joined-slices_fuel :
      (f size : ℕ) (xs : List A) → 1 ≤ size → length xs ≤ f → joined (slices_fuel f size xs) ≡ xs
  unfolding slices_fuel
  joined-slices_fuel zero size [] h k = refl
  joined-slices_fuel zero size (x ∷ xs) h k = absurd (omega arith)
  joined-slices_fuel (suc f) size [] h k = refl
  joined-slices_fuel (suc f) zero (x ∷ xs) h k = absurd (omega arith)
  joined-slices_fuel (suc f) (suc n) (x ∷ xs) h k =
      rw
        (
          joined-slices_fuel f (suc n) (drop n xs) h (omega (arith, length-drop_le n xs)),
          take-drop n xs,
        )
        refl

  -- The slices of a positive size are the list.
  pub joined-slices : (size : ℕ) (xs : List A) → 1 ≤ size → joined (slices size xs) ≡ xs
  unfolding slices
  joined-slices size xs h = joined-slices_fuel (length xs) size xs h (omega arith)

  pub slices_fuel-slices :
      (f g size : ℕ) (xs : List A)
      → 1 ≤ size
      → length xs ≤ f
      → length xs ≤ g
      → slices_fuel f size xs ≡ slices_fuel g size xs
  unfolding slices_fuel
  slices_fuel-slices zero zero size xs h k l = refl
  slices_fuel-slices zero (suc g) size [] h k l = refl
  slices_fuel-slices (suc f) zero size [] h k l = refl
  slices_fuel-slices zero (suc g) size (x ∷ xs) h k l = absurd (omega arith)
  slices_fuel-slices (suc f) zero size (x ∷ xs) h k l = absurd (omega arith)
  slices_fuel-slices (suc f) (suc g) size [] h k l = refl
  slices_fuel-slices (suc f) (suc g) zero (x ∷ xs) h k l = absurd (omega arith)
  slices_fuel-slices (suc f) (suc g) (suc n) (x ∷ xs) h k l =
      ap (λ yss. take (suc n) (x ∷ xs) ∷ yss)
        (slices_fuel-slices f g (suc n) (drop n xs) h (omega (arith, length-drop_le n xs))
          (omega (arith, length-drop_le n xs)))

  slices_fuel-short :
      (f size : ℕ) (xs : List A) → All (λ ys. length ys ≤ size) (slices_fuel f size xs)
  unfolding slices_fuel
  slices_fuel-short zero size xs = tt
  slices_fuel-short (suc f) size [] = tt
  slices_fuel-short (suc f) size (x ∷ xs) =
      (length-take_le size (x ∷ xs), slices_fuel-short f size (drop size (x ∷ xs)))

  pub slices-short : (size : ℕ) (xs : List A) → All (λ ys. length ys ≤ size) (slices size xs)
  unfolding slices
  slices-short size xs = slices_fuel-short (length xs) size xs

module _ {A : Type 0} (number : A → ℕ) where
  -- DELETE … WHERE row_number IN (numbers)
  unfoldable pub delete_in : List ℕ → List A → List A
  delete_in numbers rows = keep (λ r. not (any (λ n. n == number r) numbers)) rows

  unfoldable pub delete_each : List (List ℕ) → List A → List A
  unfolding delete_in
  delete_each [] rows = rows
  delete_each (ns ∷ nss) rows = delete_each nss (delete_in ns rows)

  unfoldable pub delete_staging_rows : List ℕ → List A → List A
  unfolding delete_each
  delete_staging_rows numbers rows = delete_each (slices 1000 numbers) rows

  any-append : (p : ℕ → Bool) (ns ms : List ℕ) → any p (ns ++ ms) ≡ any p ns || any p ms
  any-append p [] ms = refl
  any-append p (n ∷ ns) ms = ground (arith, any-append p ns ms)

  delete_in-append :
      (ns ms : List ℕ) (rows : List A)
      → delete_in ms (delete_in ns rows) ≡ delete_in (ns ++ ms) rows
  unfolding delete_in
  delete_in-append ns ms [] = refl
  delete_in-append ns ms (r ∷ rows) =
      ground (arith, any-append (λ n. n == number r) ns ms, delete_in-append ns ms rows)

  pub delete_in-nothing : (rows : List A) → delete_in [] rows ≡ rows
  unfolding delete_in
  delete_in-nothing [] = refl
  delete_in-nothing (r ∷ rows) = rw (delete_in-nothing rows) refl

  delete_each-joined :
      (nss : List (List ℕ)) (rows : List A) → delete_each nss rows ≡ delete_in (joined nss) rows
  unfolding delete_each
  delete_each-joined [] rows = rw (delete_in-nothing rows) refl
  delete_each-joined (ns ∷ nss) rows =
      rw (delete_each-joined nss (delete_in ns rows), delete_in-append ns (joined nss) rows) refl

  -- The deletions a thousand at a time delete exactly what one statement with all numbers deletes.
  pub delete_staging_rows-delete_in :
      (numbers : List ℕ) (rows : List A) → delete_staging_rows numbers rows ≡ delete_in numbers rows
  unfolding delete_staging_rows
  delete_staging_rows-delete_in numbers rows =
      rw (delete_each-joined (slices 1000 numbers) rows, joined-slices 1000 numbers (omega arith))
        refl
