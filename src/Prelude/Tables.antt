-- ===== src/Prelude/Tables.antt =====
-- A table is the list of its rows. These are the queries of the source: `findMany` and `WHERE`,
-- `findUnique` and `findFirst`, `count`, `update` and `updateMany`, `delete`.
use Prim.Native.Nat.{ℕ, ◌+◌}
use mathlib.Core.Path.{◌≡◌, refl}
use mathlib.Core.Bool.{Bool, true, false, not, ◌||◌}
use mathlib.Core.Option
use mathlib.Core.Option.{Option, none, some}
use mathlib.Core.List.{List, [], ◌∷◌, ◌++◌, map}
use native.Mathlib.Omega.{arith}
use mathlib.Core.Logic.{inl, inr}
use chronos_job_scheduler.Prelude.Tests.{Bool-cases, Bool-cases, ◌==◌, if◌then◌else◌}
use chronos_job_scheduler.Prelude.Lists.{length, All}

module _ {ℓ} {A : Type ℓ} where
  abbrev pub select : (A → Bool) → List A → List A
  select p [] = []
  select p (x ∷ xs) = if p x then x ∷ select p xs else select p xs

  abbrev pub count_where : (A → Bool) → List A → ℕ
  count_where p [] = 0
  count_where p (x ∷ xs) = (if p x then 1 else 0) + count_where p xs

  abbrev pub find_first : (A → Bool) → List A → Option A
  find_first p [] = none
  find_first p (x ∷ xs) = if p x then some x else find_first p xs

  abbrev pub exists_where : (A → Bool) → List A → Bool
  exists_where p [] = false
  exists_where p (x ∷ xs) = p x || exists_where p xs

  -- A condition on a row that may be missing.
  abbrev pub or_false : (A → Bool) → Option A → Bool
  or_false p none = false
  or_false p (some x) = p x

  abbrev pub update_where : (A → Bool) → (A → A) → List A → List A
  update_where p f [] = []
  update_where p f (x ∷ xs) = (if p x then f x else x) ∷ update_where p f xs

  abbrev pub delete_where : (A → Bool) → List A → List A
  delete_where p = select (λ x. not (p x))

  pub count_where-eq-length : (p : A → Bool) (xs : List A) → count_where p xs ≡ length (select p xs)
  count_where-eq-length p [] = refl
  count_where-eq-length p (x ∷ xs) = ground (arith, count_where-eq-length p xs)

  pub find_first-append :
      (p : A → Bool) (xs ys : List A)
      → find_first p xs ≡ none
      → find_first p (xs ++ ys) ≡ find_first p ys
  find_first-append p [] ys h = refl
  find_first-append p (x ∷ xs) ys h = ground (arith, find_first-append p xs ys)

  -- Deleting the rows of a condition leaves none of them, and as many of any that exclude it.
  pub exists-delete_where :
      (p : A → Bool) (xs : List A) → exists_where p (delete_where p xs) ≡ false
  exists-delete_where p [] = refl
  exists-delete_where p (x ∷ xs) = ground (arith, exists-delete_where p xs)

  pub exists-delete_others :
      (p q : A → Bool) (xs : List A)
      → ((x : A) → p x ≡ true → q x ≡ false)
      → exists_where p (delete_where q xs) ≡ exists_where p xs
  exists-delete_others p q [] h = refl
  exists-delete_others p q (x ∷ xs) h =
      let rest = exists-delete_others p q xs h in
      elim (Bool-cases (p x)) [
        | inl e ↦ rw (e, h x e) (rw e refl)
        | inr e ↦ ground (arith, rest, e)
      ]

  pub select-All : (p : A → Bool) (xs : List A) → All (λ x. p x ≡ true) (select p xs)
  select-All p [] = tt
  select-All p (x ∷ xs) = ground (arith, select-All p xs)

-- Looking up, updating and deleting by a key.
module _ {ℓ} {A : Type ℓ} (key : A → ℕ) where
  abbrev pub find_unique : ℕ → List A → Option A
  find_unique k = find_first (λ x. key x == k)

  abbrev pub keys : List A → List ℕ
  keys = map key

  pub keys-update_where :
      (p : A → Bool) (f : A → A) (xs : List A)
      → ((x : A) → key (f x) ≡ key x)
      → keys (update_where p f xs) ≡ keys xs
  keys-update_where p f [] h = refl
  keys-update_where p f (x ∷ xs) h = ground (arith, h x, keys-update_where p f xs h)

  -- What is found after an update is the row found before, updated if it meets the condition.
  pub find_unique-update_where :
      (k : ℕ) (p : A → Bool) (f : A → A) (xs : List A)
      → ((x : A) → key (f x) ≡ key x)
      → find_unique k (update_where p f xs)
        ≡ Option.map (λ x. if p x then f x else x) (find_unique k xs)
  find_unique-update_where k p f [] h = refl
  find_unique-update_where k p f (x ∷ xs) h =
      ground (arith, h x, find_unique-update_where k p f xs h)

  -- The same where the condition is on the key.
  pub find_unique-update_key :
      (k : ℕ) (c : ℕ → Bool) (f : A → A) (xs : List A)
      → ((x : A) → key (f x) ≡ key x)
      → find_unique k (update_where (λ x. c (key x)) f xs)
        ≡ (if c k then Option.map f (find_unique k xs) else find_unique k xs)
  find_unique-update_key k c f [] h = ground arith
  find_unique-update_key k c f (x ∷ xs) h = ground (arith, h x, find_unique-update_key k c f xs h)

-- What is found stays so when rows are added behind.
pub find_first-kept {ℓ} :
    {A : Type ℓ} (p : A → Bool) (xs ys : List A) {x : A}
    → find_first p xs ≡ some x
    → find_first p (xs ++ ys) ≡ some x
find_first-kept p [] ys h = cc
find_first-kept p (y ∷ xs) ys {x} h = ground (arith, find_first-kept p xs ys {x = x})
