-- ===== src/Store/Rows.antt =====
-- What SELECT and UPDATE by a condition do to a table.
use task_schedular.Prelude.{
  ◌≤◌, ◌≡◌, refl, Bool, true, false, ◌&&◌, none, some, List, [], ◌∷◌, arith, find, any, count,
  update_where,
}
use mathlib.Core.Option

module _ {A : Type 0} where
  -- The first row of a key after an UPDATE of some rows of that key.
  pub find-update_where :
      (p g : A → Bool) (f : A → A) (keeps : (x : A) → p (f x) ≡ p x) (xs : List A)
      → find p (update_where (λ x. p x && g x) f xs)
        ≡ Option.map (λ x. elim (g x) [ true ↦ f x | false ↦ x ]) (find p xs)
  find-update_where p g f keeps [] = refl
  find-update_where p g f keeps (x ∷ xs) = ground (arith, keeps x, find-update_where p g f keeps xs)

  -- An UPDATE of one key leaves the rows of the others.
  pub find-update_where_other :
      (p q : A → Bool) (f : A → A) (xs : List A)
      → ((x : A) → q x ≡ true → (p x ≡ false) × (p (f x) ≡ false))
      → find p (update_where q f xs) ≡ find p xs
  find-update_where_other p q f [] h = refl
  find-update_where_other p q f (x ∷ xs) h = ground (arith, h x, find-update_where_other p q f xs h)

  pub count-update_where :
      (p q : A → Bool) (f : A → A) (keeps : (x : A) → p (f x) ≡ p x) (xs : List A)
      → count p (update_where q f xs) ≡ count p xs
  count-update_where p q f keeps [] = refl
  count-update_where p q f keeps (x ∷ xs) =
      ground (arith, keeps x, count-update_where p q f keeps xs)

  pub count-eq-zero_of_any : (p : A → Bool) (xs : List A) → any p xs ≡ false → count p xs ≡ 0
  count-eq-zero_of_any p [] h = refl
  count-eq-zero_of_any p (x ∷ xs) h = ground (arith, count-eq-zero_of_any p xs)

  pub count-and-le : (p g : A → Bool) (xs : List A) → count (λ x. p x && g x) xs ≤ count p xs
  count-and-le p g [] = omega arith
  count-and-le p g (x ∷ xs) = ground (arith, count-and-le p g xs)

  pub any-false_of_count :
      (p g : A → Bool) (xs : List A) → count p xs ≤ 0 → any (λ x. p x && g x) xs ≡ false
  any-false_of_count p g [] h = refl
  any-false_of_count p g (x ∷ xs) h = ground (arith, any-false_of_count p g xs)

  -- Where a key is unique, some row of the key passes a test exactly if the row of the key does.
  pub any-eq-find :
      (p g : A → Bool) (xs : List A)
      → count p xs ≤ 1
      → any (λ x. p x && g x) xs ≡ elim (find p xs) [ none ↦ false | some x ↦ g x ]
  any-eq-find p g [] h = refl
  any-eq-find p g (x ∷ xs) h = ground (arith, any-eq-find p g xs, any-false_of_count p g xs)

  -- An UPDATE that hits no row changes nothing.
  pub update_where_none :
      (p : A → Bool) (f : A → A) (xs : List A) → any p xs ≡ false → update_where p f xs ≡ xs
  update_where_none p f [] h = refl
  update_where_none p f (x ∷ xs) h = ground (arith, update_where_none p f xs)
