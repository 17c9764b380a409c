-- ===== src/Prelude/Lists.antt =====
-- Lists measured by native numbers, searched, filtered and updated by Boolean tests: the WHERE
-- clauses of the queries are such tests.
use Prim.Native.Nat.{ℕ, zero, suc, ◌≤◌}
use mathlib.Core.Path.{◌≡◌, refl}
use mathlib.Core.Bool.{Bool, true, false, ◌||◌}
use mathlib.Core.List.{List, [], ◌∷◌, ◌++◌}
use mathlib.Core.Option.{Option, none, some}
use native.Mathlib.Omega.{arith}
use portal_backend.Prelude.Tests.{if◌then◌else◌}

module _ {ℓ} {A : Type ℓ} where
  abbrev pub length : List A → ℕ
  length [] = 0
  length (x ∷ xs) = suc (length xs)

  abbrev pub any : (A → Bool) → List A → Bool
  any p [] = false
  any p (x ∷ xs) = p x || any p xs

  abbrev pub take : ℕ → List A → List A
  take zero xs = []
  take (suc n) [] = []
  take (suc n) (x ∷ xs) = x ∷ take n xs

  abbrev pub drop : ℕ → List A → List A
  drop zero xs = xs
  drop (suc n) [] = []
  drop (suc n) (x ∷ xs) = drop n xs

  -- The first row that passes the test.
  abbrev pub first : (A → Bool) → List A → Option A
  first p [] = none
  first p (x ∷ xs) = if p x then some x else first p xs

  -- The rows that pass the test.
  abbrev pub select : (A → Bool) → List A → List A
  select p [] = []
  select p (x ∷ xs) = if p x then x ∷ select p xs else select p xs

  -- The rows that pass the test are changed, the others stay.
  abbrev pub update_where : (A → Bool) → (A → A) → List A → List A
  update_where p f [] = []
  update_where p f (x ∷ xs) = (if p x then f x else x) ∷ update_where p f xs

  -- The rows that pass the test are deleted.
  abbrev pub delete_where : (A → Bool) → List A → List A
  delete_where p [] = []
  delete_where p (x ∷ xs) = if p x then delete_where p xs else x ∷ delete_where p xs

  pub length-take-le : (n : ℕ) (xs : List A) → length (take n xs) ≤ n
  length-take-le zero xs = omega arith
  length-take-le (suc n) [] = omega arith
  length-take-le (suc n) (x ∷ xs) = omega (arith, length-take-le n xs)

  pub first-passes : (p : A → Bool) (xs : List A) (a : A) → first p xs ≡ some a → p a ≡ true
  first-passes p [] a h = ground arith
  first-passes p (x ∷ xs) a h = ground (arith, first-passes p xs a)

  pub any-first : (p : A → Bool) (xs : List A) (a : A) → first p xs ≡ some a → any p xs ≡ true
  any-first p [] a h = ground arith
  any-first p (x ∷ xs) a h = ground (arith, any-first p xs a)

  pub any-none : (p : A → Bool) (xs : List A) → any p xs ≡ false → first p xs ≡ none
  any-none p [] h = refl
  any-none p (x ∷ xs) h = ground (arith, any-none p xs)

  -- No row passes: nothing is updated.
  pub update_where-none :
      (p : A → Bool) (f : A → A) (xs : List A) → any p xs ≡ false → update_where p f xs ≡ xs
  update_where-none p f [] h = refl
  update_where-none p f (x ∷ xs) h = ground (arith, update_where-none p f xs)

  -- After the update no row passes a test that the update makes fail.
  pub any-update_where :
      (p q : A → Bool) (f : A → A) (xs : List A)
      → ((x : A) → p x ≡ true → q (f x) ≡ false)
      → ((x : A) → p x ≡ false → q x ≡ false)
      → any q (update_where p f xs) ≡ false
  any-update_where p q f [] h k = refl
  any-update_where p q f (x ∷ xs) h k = ground (arith, h x, k x, any-update_where p q f xs h k)

  -- An update that makes no row pass a test.
  pub any-update_where_none :
      (p q : A → Bool) (f : A → A) (xs : List A)
      → ((x : A) → p x ≡ true → q x ≡ false → q (f x) ≡ false)
      → any q xs ≡ false
      → any q (update_where p f xs) ≡ false
  any-update_where_none p q f [] h k = k
  any-update_where_none p q f (x ∷ xs) h k = ground (arith, h x, any-update_where_none p q f xs h)

  pub any-delete_where : (p : A → Bool) (xs : List A) → any p (delete_where p xs) ≡ false
  any-delete_where p [] = refl
  any-delete_where p (x ∷ xs) = ground (arith, any-delete_where p xs)

  -- An update that a test does not see.
  pub any-update_where_keeps :
      (p q : A → Bool) (f : A → A) (xs : List A)
      → ((x : A) → q (f x) ≡ q x)
      → any q (update_where p f xs) ≡ any q xs
  any-update_where_keeps p q f [] h = refl
  any-update_where_keeps p q f (x ∷ xs) h = ground (arith, h x, any-update_where_keeps p q f xs h)

  pub any-append_one :
      (p : A → Bool) (xs : List A) (a : A) → any p (xs ++ a ∷ []) ≡ (any p xs || p a)
  any-append_one p [] a = ground arith
  any-append_one p (x ∷ xs) a = ground (arith, any-append_one p xs a)

-- Every element satisfies `P`.
abbrev pub All {ℓ κ} : {A : Type ℓ} → (A → Type κ) → List A → Type κ
All P [] = Unit
All P (x ∷ xs) = P x × All P xs
