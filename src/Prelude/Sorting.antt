-- ===== src/Prelude/Sorting.antt =====
-- `ORDER BY`: a stable insertion sort by a test that says which of two rows may stand first.
use Prim.Native.Nat.{ℕ, zero, suc}
use mathlib.Core.Path.{◌≡◌, refl}
use mathlib.Core.Logic.{inl, inr}
use mathlib.Core.Bool.{Bool, true, false}
use mathlib.Core.List.{List, [], ◌∷◌}
use native.Mathlib.Omega.{arith}
use chronos_job_scheduler.Prelude.Tests.{if◌then◌else◌, Bool-cases}
use chronos_job_scheduler.Prelude.Lists.{length, All, take, drop}
use chronos_job_scheduler.Prelude.Tables.{count_where}

module _ {ℓ} {A : Type ℓ} (before : A → A → Bool) where
  abbrev pub insert_row : A → List A → List A
  insert_row a [] = a ∷ []
  insert_row a (x ∷ xs) = if before a x then a ∷ x ∷ xs else x ∷ insert_row a xs

  abbrev pub order_by : List A → List A
  order_by [] = []
  order_by (x ∷ xs) = insert_row x (order_by xs)

  -- Each row may stand before all that follow it.
  abbrev pub IsOrdered : List A → Type 0
  IsOrdered [] = Unit
  IsOrdered (x ∷ xs) = All (λ y. before x y ≡ true) xs × IsOrdered xs

  pub count_where-insert_row :
      (p : A → Bool) (a : A) (xs : List A)
      → count_where p (insert_row a xs) ≡ count_where p (a ∷ xs)
  count_where-insert_row p a [] = refl
  count_where-insert_row p a (x ∷ xs) = ground (arith, count_where-insert_row p a xs)

  pub count_where-order_by :
      (p : A → Bool) (xs : List A) → count_where p (order_by xs) ≡ count_where p xs
  count_where-order_by p [] = refl
  count_where-order_by p (x ∷ xs) =
      omega (arith, count_where-insert_row p x (order_by xs), count_where-order_by p xs)

  pub length-insert_row : (a : A) (xs : List A) → length (insert_row a xs) ≡ suc (length xs)
  length-insert_row a [] = refl
  length-insert_row a (x ∷ xs) = ground (arith, length-insert_row a xs)

  pub length-order_by : (xs : List A) → length (order_by xs) ≡ length xs
  length-order_by [] = refl
  length-order_by (x ∷ xs) = omega (arith, length-insert_row x (order_by xs), length-order_by xs)

  pub All-insert_row {κ} :
      (P : A → Type κ) (a : A) (xs : List A) → P a → All P xs → All P (insert_row a xs)
  All-insert_row P a [] pa h = (pa, tt)
  All-insert_row P a (x ∷ xs) pa h = elim (Bool-cases (before a x)) [
    | inl e ↦ rw e (pa, h)
    | inr e ↦ rw e (h.0, All-insert_row P a xs pa h.1)
  ]

  pub All-order_by {κ} : (P : A → Type κ) (xs : List A) → All P xs → All P (order_by xs)
  All-order_by P [] h = tt
  All-order_by P (x ∷ xs) h = All-insert_row P x (order_by xs) h.0 (All-order_by P xs h.1)

module _ {ℓ} {A : Type ℓ} where
  pub All-take {κ} : (P : A → Type κ) (n : ℕ) (xs : List A) → All P xs → All P (take n xs)
  All-take P zero xs h = tt
  All-take P (suc n) [] h = tt
  All-take P (suc n) (x ∷ xs) h = (h.0, All-take P n xs h.1)

  pub All-drop {κ} : (P : A → Type κ) (n : ℕ) (xs : List A) → All P xs → All P (drop n xs)
  All-drop P zero xs h = h
  All-drop P (suc n) [] h = tt
  All-drop P (suc n) (x ∷ xs) h = All-drop P n xs h.1

-- A test that orders any two rows and is transitive, as an `ORDER BY` over columns is.
pub record IsRanking {ℓ} {A : Type ℓ} (before : A → A → Bool) : Type ℓ where
  pub total : (a b : A) → before a b ≡ false → before b a ≡ true
  pub trans : (a b c : A) → before a b ≡ true → before b c ≡ true → before a c ≡ true

module _ {ℓ} {A : Type ℓ} (before : A → A → Bool) (ranking : IsRanking before) where
  All-before :
      (a b : A) (xs : List A)
      → before a b ≡ true
      → All (λ y. before b y ≡ true) xs
      → All (λ y. before a y ≡ true) xs
  All-before a b [] h k = tt
  All-before a b (x ∷ xs) h k = (ranking.trans a b x h k.0, All-before a b xs h k.1)

  insert_row-IsOrdered :
      (a : A) (xs : List A) → IsOrdered before xs → IsOrdered before (insert_row before a xs)
  insert_row-IsOrdered a [] h = (tt, tt)
  insert_row-IsOrdered a (x ∷ xs) h = elim (Bool-cases (before a x)) [
    | inl e ↦ rw e ((e, All-before a x xs e h.0), h)
    | inr e ↦
        rw e (All-insert_row before _ a xs (ranking.total a x e) h.0, insert_row-IsOrdered a xs h.1)
  ]

  pub order_by-IsOrdered : (xs : List A) → IsOrdered before (order_by before xs)
  order_by-IsOrdered [] = tt
  order_by-IsOrdered (x ∷ xs) = insert_row-IsOrdered x _ (order_by-IsOrdered xs)

module _ {ℓ} {A : Type ℓ} (before : A → A → Bool) where
  -- In an ordered list, each row of a first part may stand before each row of the rest.
  pub IsOrdered-split :
      (n : ℕ) (xs : List A)
      → IsOrdered before xs
      → All (λ a. All (λ b. before a b ≡ true) (drop n xs)) (take n xs)
  IsOrdered-split zero xs h = tt
  IsOrdered-split (suc n) [] h = tt
  IsOrdered-split (suc n) (x ∷ xs) h = (All-drop _ n xs h.0, IsOrdered-split n xs h.1)
